-- ===== src/Wire/AuxPow/Exact.antt =====
-- `skipAuxPow` on the serialization of an AuxPoW section.
use mathlib.Core.Path.{subst}
use xchain_decoder.Prelude.{
  ℕ, ◌+◌, ◌*◌, ◌/◌, ◌%◌, ◌^◌, ◌<◌, ◌≡◌, ◌≢◌, refl, ap, ◌∙◌, Bool, true, false, Option, none, some,
  List, [], ◌∷◌, ◌++◌, ok, ◌>>=◌, leb, if◌then◌else◌, ◌==◌, ltb, get_elem?, length, All,
  length-append, arith, append_assoc, Bool-cases, inl, inr,
}
use xchain_decoder.Wire.Bytes.{
  Bytes, le_bytes, What, coinbase_version, coinbase_prevout, coinbase_sequence, coinbase_value,
  coinbase_locktime, parent_hash, coinbase_branch, chain_branch, parent_header, Remains-skip,
  Remains-head, Remains-append,
}
use xchain_decoder.Wire.Varint.{read_varint}
use xchain_decoder.Wire.Varint.RoundTrip.{compact_size, read_varint-compact_size}
use xchain_decoder.Wire.Skip.{
  Step, Skips, Skips-then, skip_bytes, skip_bytes-Skips, skip_var_bytes, skip_var_bytes-Skips,
  var_slice, skip_times, skip_times-Skips, render_all,
}
use xchain_decoder.Wire.AuxPow.Layout.{
  TxIn, TxOut, Coinbase, Branch, AuxPow, tx_in, tx_out, stack, marker, witness, coinbase_body,
  coinbase_tx, hashes, branch, aux_pow, IsSized, IsTxIn, IsTxOut, IsStack, IsCoinbase, IsBranch,
  IsAuxPow, HasStacks,
}
use xchain_decoder.Wire.AuxPow.{
  is_zero, skip_coinbase_input, skip_coinbase_output, skip_witness_stack, skip_coinbase_rest,
  skip_coinbase_body, skip_coinbase_transaction, skip_branch, skip_aux_pow,
}

sized-Skips : (n : ℕ) (what : What) (s : Bytes) → IsSized n s → Skips (skip_bytes n what) s
sized-Skips n what s h = subst (λ k. Skips (skip_bytes k what) s) h (skip_bytes-Skips what s)

tx_in-Skips : (i : TxIn) → IsTxIn i → Skips skip_coinbase_input (tx_in i)
unfolding skip_coinbase_input
tx_in-Skips i h = Skips-then (sized-Skips 36 coinbase_prevout i.prevout h.prevout) (
    Skips-then (skip_var_bytes-Skips i.script h.script)
      (sized-Skips 4 coinbase_sequence i.sequence h.sequence))

tx_out-Skips : (o : TxOut) → IsTxOut o → Skips skip_coinbase_output (tx_out o)
unfolding skip_coinbase_output
tx_out-Skips o h =
    Skips-then (sized-Skips 8 coinbase_value o.value h.value)
      (skip_var_bytes-Skips o.script h.script)

All-map {ℓ κ μ} :
    {A : Type ℓ} {P : A → Type κ} {Q : A → Type μ} (f : (a : A) → P a → Q a) (xs : List A)
    → All P xs
    → All Q xs
All-map f [] h = tt
All-map f (x ∷ xs) h = (f x h.0, All-map f xs h.1)

-- A count by `readVarint`, then a step that depends on it.
counted-Skips :
    (n : ℕ) (after : ℕ → Step) (piece : Bytes)
    → n < 2 ^ 53
    → Skips (after n) piece
    → Skips
        (λ buf offset. read_varint buf offset >>= λ r. after r.0 buf (offset + r.1))
        (compact_size n ++ piece)
counted-Skips n after piece h s = record {
  at = λ buf offset rest r.
      let r' = rw append_assoc at r in
      rw (read_varint-compact_size n (piece ++ rest) h r') (
        s.at buf (offset + length (compact_size n)) rest (Remains-skip (compact_size n) _ r')
        ∙ ap ok (omega (arith, length-append (compact_size n) piece)));
}

stack-Skips : (items : List Bytes) → IsStack items → Skips skip_witness_stack (stack items)
unfolding skip_witness_stack
stack-Skips items h =
    counted-Skips (length items) (λ n. skip_times n skip_var_bytes) (render_all var_slice items)
      h.count
      (skip_times-Skips skip_var_bytes var_slice items (All-map skip_var_bytes-Skips items h.sizes))

length-hashes : (hs : List Bytes) → All (IsSized 32) hs → length (hashes hs) ≡ length hs * 32
length-hashes [] h = refl
length-hashes (x ∷ xs) h = omega (arith, length-append x (hashes xs), length-hashes xs h.1, h.0)

-- What follows each count, as a function of it.
abbrev outs_step : Bool → ℕ → ℕ → Step
outs_step segwit ins n buf offset = do
  outs_end ← skip_times n skip_coinbase_output buf offset
  witness_end ← (if segwit then skip_times ins skip_witness_stack buf outs_end else ok outs_end)
  skip_bytes 4 coinbase_locktime buf witness_end

abbrev ins_step : Bool → ℕ → Step
ins_step segwit n buf offset = do
  ins_end ← skip_times n skip_coinbase_input buf offset
  skip_coinbase_rest segwit n buf ins_end

module _ (c : Coinbase) (h : IsCoinbase c) where
  rest-Skips :
      (segwit : Bool) (ins : ℕ) (w : Bytes)
      → Skips (λ buf o. if segwit then skip_times ins skip_witness_stack buf o else ok o) w
      → Skips
          (skip_coinbase_rest segwit ins)
          (compact_size (length c.outs) ++ (render_all tx_out c.outs ++ (w ++ c.locktime)))
  unfolding skip_coinbase_rest
  rest-Skips segwit ins w sw = counted-Skips (length c.outs) (outs_step segwit ins) _ h.out_count (
      Skips-then
        (skip_times-Skips skip_coinbase_output tx_out c.outs (All-map tx_out-Skips c.outs h.outs))
        (Skips-then sw (sized-Skips 4 coinbase_locktime c.locktime h.locktime)))

  body-Skips :
      (segwit : Bool) (w : Bytes)
      → Skips
          (λ buf o. if segwit then skip_times (length c.ins) skip_witness_stack buf o else ok o)
          w
      → Skips (skip_coinbase_body segwit) (coinbase_body c w)
  unfolding skip_coinbase_body
  body-Skips segwit w sw = counted-Skips (length c.ins) (ins_step segwit) _ h.in_count (
      Skips-then
        (skip_times-Skips skip_coinbase_input tx_in c.ins (All-map tx_in-Skips c.ins h.ins))
        (rest-Skips segwit (length c.ins) w sw))

branch-Skips : (what : What) (b : Branch) → IsBranch b → Skips (skip_branch what) (branch b)
unfolding skip_branch
branch-Skips what b h =
    counted-Skips (length b.hashes) (λ n. skip_bytes (n * 32 + 4) what) _ h.count
      (sized-Skips (length b.hashes * 32 + 4) what (hashes b.hashes ++ b.index) (
        omega (
          arith,
          length-append (hashes b.hashes) b.index,
          length-hashes b.hashes h.hashes,
          h.index,
        )))

-- A count above zero does not begin with a zero byte.
compact_size-head :
    (n : ℕ) → 0 < n → (b : ℕ) × (r : Bytes) × (compact_size n ≡ b ∷ r) × ((b == 0) ≡ false)
compact_size-head n h = elim (Bool-cases (ltb n 0xFD)) [
  | inl one ↦ (n, [], rw one, ground arith)
  | inr more ↦ elim (Bool-cases (leb n 0xFFFF)) [
    | inl two ↦ (0xFD, le_bytes 2 n, rw (more, two), refl)
    | inr more' ↦ elim (Bool-cases (leb n 0xFFFFFFFF)) [
      | inl four ↦ (0xFE, le_bytes 4 n, rw (more, more', four), refl)
      | inr eight ↦ (
        0xFF,
        le_bytes 4 (n % 0x100000000) ++ le_bytes 4 (n / 0x100000000),
        rw (more, more', eight),
        refl,
      )
    ]
  ]
]

abbrev marked : Step
marked buf offset =
    let segwit = is_zero (get_elem? buf offset) in
    skip_coinbase_body segwit buf (if segwit then offset + 2 else offset)

no_witness-Skips : Skips (λ _ o. ok o) []
no_witness-Skips = record { at = λ buf offset rest r. ap ok (omega arith) }

length-positive {ℓ} : {A : Type ℓ} (xs : List A) → xs ≢ [] → 0 < length xs
length-positive [] h = absurd (h refl)
length-positive (x ∷ xs) h = omega arith

marked-Skips :
    (c : Coinbase) (h : IsCoinbase c) (flag : Option ℕ)
    → HasStacks flag c.ins c.stacks
    → Skips marked (marker flag ++ coinbase_body c (witness flag c.stacks))
marked-Skips c h none hs = record {
  at = λ buf offset rest r.
      let (b, more, first, nonzero) =
        compact_size-head (length c.ins) (length-positive c.ins h.has_input) in
      let begins = rw (first, append_assoc) at r in
      rw (Remains-head b _ begins, nonzero)
        ((body-Skips c h false [] no_witness-Skips).at buf offset rest r);
}
marked-Skips c h (some flag) (count, sizes) = record {
  at = λ buf offset rest r.
      let w = render_all stack c.stacks in
      let stacks =
        skip_times-Skips skip_witness_stack stack c.stacks (All-map stack-Skips c.stacks sizes) in
      rw (Remains-head 0 _ r) (
        (body-Skips c h true w
            (subst (λ n. Skips (skip_times n skip_witness_stack) w) count stacks)).at
          buf (offset + 2) rest (Remains-skip (0 ∷ flag ∷ []) _ r)
        ∙ ap ok (omega arith));
}

coinbase-Skips : (c : Coinbase) → IsCoinbase c → Skips skip_coinbase_transaction (coinbase_tx c)
unfolding skip_coinbase_transaction
coinbase-Skips c h =
    Skips-then (sized-Skips 4 coinbase_version c.version h.version)
      (marked-Skips c h c.flag h.stacks)

-- `skipAuxPow` returns the offset of the first byte behind the section, for every well-formed
-- section, wherever it stands and whatever follows.
pub skip_aux_pow-aux_pow :
    (a : AuxPow) (pre rest : Bytes)
    → IsAuxPow a
    → skip_aux_pow (pre ++ (aux_pow a ++ rest)) (length pre) ≡ ok (length pre + length (aux_pow a))
unfolding skip_aux_pow aux_pow
skip_aux_pow-aux_pow a pre rest h =
    (Skips-then (coinbase-Skips a.coinbase h.coinbase) (
        Skips-then (sized-Skips 32 parent_hash a.parent_hash h.parent_hash) (
          Skips-then (branch-Skips coinbase_branch a.coinbase_branch h.coinbase_branch) (
            Skips-then (branch-Skips chain_branch a.chain_branch h.chain_branch)
              (sized-Skips 80 parent_header a.parent_header h.parent_header))))).at
      (pre ++ (aux_pow a ++ rest)) (length pre) rest (Remains-append pre _)
