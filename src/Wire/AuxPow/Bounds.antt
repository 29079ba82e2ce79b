-- ===== src/Wire/AuxPow/Bounds.antt =====
-- Where `skipAuxPow` returns, whatever the bytes are.
use xchain_decoder.Prelude.{
  ℕ, zero, suc, ◌+◌, ◌*◌, ◌≤◌, ◌≡◌, Bool, true, false, refl, ok, ◌>>=◌, if◌then◌else◌, length,
  arith, >>=-eq-ok, get_elem?,
}
use xchain_decoder.Wire.Bytes.{Bytes, What}
use xchain_decoder.Wire.Varint.{read_varint}
use xchain_decoder.Wire.Varint.RoundTrip.{read_varint-fits}
use xchain_decoder.Wire.Skip.{Step, skip_bytes, skip_var_bytes, skip_times}
use xchain_decoder.Wire.AuxPow.{
  is_zero, skip_coinbase_input, skip_coinbase_output, skip_witness_stack, skip_coinbase_rest,
  skip_coinbase_body, skip_coinbase_transaction, skip_branch, skip_aux_pow,
}

-- A step that returns has moved at least `k` bytes on.
record Advances (k : ℕ) (step : Step) : Type 0 where
  by : (buf : Bytes) (offset next : ℕ) → step buf offset ≡ ok next → offset + k ≤ next

-- … and has stayed inside the buffer.
record Ends (step : Step) : Type 0 where
  within : (buf : Bytes) (offset next : ℕ) → step buf offset ≡ ok next → next ≤ length buf

Advances-le : {k : ℕ} (j : ℕ) {step : Step} → Advances k step → j ≤ k → Advances j step
Advances-le j a h = record { by = λ buf o n e. omega (arith, a.by buf o n e) }

Advances-then :
    {j k : ℕ} {f g : Step}
    → Advances j f
    → Advances k g
    → Advances (j + k) (λ buf o. f buf o >>= g buf)
Advances-then {f} {g} a b = record {
  by = λ buf o n e.
      let (m, first, second) = >>=-eq-ok (f buf o) (g buf) e in
      omega (arith, a.by buf o m first, b.by buf m n second);
}

Ends-then : (f : Step) {g : Step} → Ends g → Ends (λ buf o. f buf o >>= g buf)
Ends-then f {g} b = record {
  within = λ buf o n e.
      let (m, first, second) = >>=-eq-ok (f buf o) (g buf) e in b.within buf m n second;
}

counted-Advances :
    {after : ℕ → Step} (k : ℕ)
    → ((n : ℕ) → Advances k (after n))
    → Advances (1 + k) (λ buf o. read_varint buf o >>= λ r. after r.0 buf (o + r.1))
counted-Advances {after} k a = record {
  by = λ buf o n e.
      let (r, first, second) = >>=-eq-ok (read_varint buf o) (λ r. after r.0 buf (o + r.1)) e in
      omega (arith, (read_varint-fits buf o r.0 r.1 first).0, (a r.0).by buf (o + r.1) n second);
}

skip_bytes-Advances : (k : ℕ) (what : What) → Advances k (skip_bytes k what)
unfolding skip_bytes
skip_bytes-Advances k what = record { by = λ buf o n e. ground arith }

skip_bytes-Ends : (k : ℕ) (what : What) → Ends (skip_bytes k what)
unfolding skip_bytes
skip_bytes-Ends k what = record { within = λ buf o n e. ground arith }

skip_var_bytes-Advances : Advances 1 skip_var_bytes
unfolding skip_var_bytes
skip_var_bytes-Advances = record {
  by = λ buf o n e.
      let (r, first, second) = >>=-eq-ok (read_varint buf o) (λ r. ok (o + (r.1 + r.0))) e in
      ground (arith, read_varint-fits buf o r.0 r.1 first);
}

skip_times-Advances : {step : Step} (n : ℕ) → Advances 0 step → Advances 0 (skip_times n step)
unfolding skip_times
skip_times-Advances zero a = record { by = λ buf o n e. ground arith }
skip_times-Advances (suc n) a = Advances-then a (skip_times-Advances n a)

input-Advances : Advances 41 skip_coinbase_input
unfolding skip_coinbase_input
input-Advances =
    Advances-then (skip_bytes-Advances 36 _)
      (Advances-then skip_var_bytes-Advances (skip_bytes-Advances 4 _))

output-Advances : Advances 9 skip_coinbase_output
unfolding skip_coinbase_output
output-Advances = Advances-then (skip_bytes-Advances 8 _) skip_var_bytes-Advances

stack-Advances : Advances 1 skip_witness_stack
unfolding skip_witness_stack
stack-Advances =
    counted-Advances 0
      (λ n. skip_times-Advances n (Advances-le 0 skip_var_bytes-Advances (omega arith)))

abbrev witness_step : Bool → ℕ → Step
witness_step segwit ins buf o = if segwit then skip_times ins skip_witness_stack buf o else ok o

witness-Advances : (segwit : Bool) (ins : ℕ) → Advances 0 (witness_step segwit ins)
witness-Advances true ins = skip_times-Advances ins (Advances-le 0 stack-Advances (omega arith))
witness-Advances false ins = record { by = λ buf o n e. ground arith }

rest-Advances : (segwit : Bool) (ins : ℕ) → Advances 5 (skip_coinbase_rest segwit ins)
unfolding skip_coinbase_rest
rest-Advances segwit ins = counted-Advances 4 λ n.
    Advances-then (skip_times-Advances n (Advances-le 0 output-Advances (omega arith)))
      (Advances-then (witness-Advances segwit ins) (skip_bytes-Advances 4 _))

body-Advances : (segwit : Bool) → Advances 6 (skip_coinbase_body segwit)
unfolding skip_coinbase_body
body-Advances segwit = counted-Advances 5 λ n.
    Advances-then (skip_times-Advances n (Advances-le 0 input-Advances (omega arith)))
      (rest-Advances segwit n)

abbrev marked : Bool → Step
marked segwit buf o = skip_coinbase_body segwit buf (if segwit then o + 2 else o)

-- A count whose first byte is not zero is not zero, or takes three bytes at least.
wide_or_some :
    (buf : Bytes) (offset v n : ℕ)
    → is_zero (get_elem? buf offset) ≡ false
    → read_varint buf offset ≡ ok (v, n)
    → 3 ≤ n + 2 * v
unfolding read_varint
wide_or_some buf offset v n z h = grind arith

times-Advances : {step : Step} (j n : ℕ) → Advances j step → Advances (n * j) (skip_times n step)
unfolding skip_times
times-Advances j zero a = record { by = λ buf o n e. ground arith }
times-Advances j (suc n) a =
    Advances-le (suc n * j) (Advances-then a (times-Advances j n a)) (omega arith)

-- Without a marker the first byte behind the version counts the inputs.
unmarked :
    (buf : Bytes) (offset next : ℕ)
    → is_zero (get_elem? buf offset) ≡ false
    → skip_coinbase_body false buf offset ≡ ok next
    → offset + 8 ≤ next
unfolding skip_coinbase_body
unmarked buf o next z e =
    let after = λ (n : ℕ) (buf : Bytes) (o : ℕ).
      skip_times n skip_coinbase_input buf o >>= skip_coinbase_rest false n buf in
    let (r, first, second) = >>=-eq-ok (read_varint buf o) (λ r. after r.0 buf (o + r.1)) e in
    let inputs =
      (Advances-then (times-Advances 41 r.0 input-Advances) (rest-Advances false r.0)).by buf
        (o + r.1) next second in
    omega (arith, wide_or_some buf o r.0 r.1 z first, inputs)

marked-by :
    (buf : Bytes) (offset next : ℕ) (segwit : Bool)
    → is_zero (get_elem? buf offset) ≡ segwit
    → marked segwit buf offset ≡ ok next
    → offset + 8 ≤ next
marked-by buf o next true z e = omega (arith, (body-Advances true).by buf (o + 2) next e)
marked-by buf o next false z e = unmarked buf o next z e

coinbase-Advances : Advances 12 skip_coinbase_transaction
unfolding skip_coinbase_transaction
coinbase-Advances =
    Advances-then (skip_bytes-Advances 4 _)
      (record { by = λ buf o n e. marked-by buf o n (is_zero (get_elem? buf o)) refl e })

branch-Advances : (what : What) → Advances 5 (skip_branch what)
unfolding skip_branch
branch-Advances what =
    counted-Advances 4 (λ n. Advances-le 4 (skip_bytes-Advances (n * 32 + 4) what) (omega arith))

-- Whatever the bytes are, an offset that `skipAuxPow` returns lies at least 134 bytes behind the
-- start, and inside the buffer.
pub skip_aux_pow_bounds :
    (buf : Bytes) (start next : ℕ)
    → skip_aux_pow buf start ≡ ok next
    → (start + 134 ≤ next) × (next ≤ length buf)
unfolding skip_aux_pow
skip_aux_pow_bounds buf start next e = (
  (Advances-then coinbase-Advances (
        Advances-then (skip_bytes-Advances 32 _) (
          Advances-then (branch-Advances _)
            (Advances-then (branch-Advances _) (skip_bytes-Advances 80 _))))).by
      buf start next e,
  (Ends-then skip_coinbase_transaction (
        Ends-then (skip_bytes 32 _)
          (Ends-then (skip_branch _) (Ends-then (skip_branch _) (skip_bytes-Ends 80 _))))).within
      buf start next e,
)
