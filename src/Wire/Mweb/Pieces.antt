-- ===== src/Wire/Mweb/Pieces.antt =====
-- The readers of src/chain/XChainBlockDecoder.js on the parts of a flagged transaction.
use mathlib.Core.Path.{subst}
use xchain_decoder.Prelude.{
  ℕ, ◌+◌, ◌*◌, ◌/◌, ◌%◌, ◌^◌, ◌<◌, ◌≤◌, ◌≡◌, refl, ap, ◌∙◌, sym, false, List, [], ◌∷◌, ◌++◌, ok,
  ◌>>=◌, leb, if◌then◌else◌, ◌==◌, ltb, le→ltb, leb→le, length, All, length-append,
  take-length-append, arith, tests, le→leb, append_assoc, Bool-cases, inl, inr,
}
use xchain_decoder.Wire.Bytes.{
  Bytes, le_value, le_bytes, le_value-le_bytes, What, input_count, input_prevout, input_script,
  input_sequence, output_count, output_value, output_script, witness_count, witness_item,
  read_uint_le, Remains, Remains-skip, Remains-head, Remains-tail,
}
use xchain_decoder.Wire.Varint.RoundTrip.{compact_size}
use xchain_decoder.Wire.Skip.{
  Step, Skips, Skips-then, skip_bytes, skip_bytes-Skips, var_slice, skip_times, skip_times-Skips,
  render_all,
}
use xchain_decoder.Wire.AuxPow.Layout.{
  TxIn, TxOut, Coinbase, tx_in, tx_out, stack, IsSized, IsShort, IsTxIn, IsTxOut, IsStack,
  IsCoinbase,
}
use xchain_decoder.Wire.Mweb.Layout.{ins_part, outs_part}
use xchain_decoder.Wire.Mweb.{
  read_mweb_compact_size, skip_mweb_var_bytes, skip_mweb_input, skip_mweb_output, skip_mweb_ins,
  skip_mweb_outs, skip_mweb_stack, skip_mweb_witness,
}

le_value-append_4 :
    (v : ℕ) (ys : Bytes)
    → le_value (le_bytes 4 v ++ ys) ≡ le_value (le_bytes 4 v) + 0x100000000 * le_value ys
le_value-append_4 v ys = omega arith

le_value-eight :
    (v : ℕ)
    → v < 2 ^ 53
    → le_value (le_bytes 4 (v % 0x100000000) ++ le_bytes 4 (v / 0x100000000)) ≡ v
le_value-eight v h =
    let low = le_value-le_bytes 4 (v % 0x100000000) (omega arith) in
    let high = le_value-le_bytes 4 (v / 0x100000000) (omega arith) in
    le_value-append_4 (v % 0x100000000) (le_bytes 4 (v / 0x100000000))
    ∙ rw (low, high) (omega arith)

-- A number read from digits that stand there is their value.
pub read_uint_le-digits :
    (digits : Bytes) {buf : Bytes} {offset : ℕ} (rest : Bytes)
    → Remains buf offset (digits ++ rest)
    → read_uint_le (length digits) buf offset ≡ ok (le_value digits)
unfolding read_uint_le
read_uint_le-digits digits {buf} {offset} rest r =
    let fit : offset + length digits ≤ length buf =
      omega (arith, r.ends, length-append digits rest) in
    rw (le→leb _ _ fit, r.drops, take-length-append digits rest)

module _ (what : What) {buf : Bytes} {offset : ℕ} (rest : Bytes) where
  read_wide-digits :
      (first : ℕ) (digits : Bytes)
      → ltb first 0xFD ≡ false
      → length digits ≡ (if first == 0xFD then 2 else if first == 0xFE then 4 else 8)
      → le_value digits < 2 ^ 53
      → Remains buf offset (first ∷ (digits ++ rest))
      → read_mweb_compact_size what buf offset
        ≡ ok (le_value digits, offset + length (first ∷ digits))
  unfolding read_mweb_compact_size skip_bytes
  read_wide-digits first digits wide width small r =
      let tail = Remains-tail first (digits ++ rest) r in
      let fit : offset + 1 + length digits ≤ length buf =
        omega (arith, tail.ends, length-append digits rest) in
      rw
        (
          Remains-head first _ r,
          wide,
          sym width,
          le→leb _ _ fit,
          read_uint_le-digits digits rest tail,
          le→ltb 0x1fffffffffffff (le_value digits) (omega arith),
        )
        (ap (λ n. ok (le_value digits, n)) (omega arith))

  -- `readMwebCompactSize` reads every CompactSize back that a JavaScript number holds.
  pub read_mweb_compact_size-compact_size :
      (v : ℕ)
      → v < 2 ^ 53
      → Remains buf offset (compact_size v ++ rest)
      → read_mweb_compact_size what buf offset ≡ ok (v, offset + length (compact_size v))
  unfolding read_mweb_compact_size
  read_mweb_compact_size-compact_size v small r = elim (Bool-cases (ltb v 0xFD)) [
    | inl one ↦ rw (one, Remains-head v rest (rw one at r), one) refl
    | inr more ↦ elim (Bool-cases (leb v 0xFFFF)) [
      | inl two ↦
          let value = le_value-le_bytes 2 v (omega (tests, leb→le v 0xFFFF two)) in
          rw (more, two)
            (read_wide-digits 0xFD (le_bytes 2 v) refl refl (rw value small) (rw (more, two) at r)
              ∙ ap (λ n. ok (n, offset + 3)) value)
      | inr more' ↦ elim (Bool-cases (leb v 0xFFFFFFFF)) [
        | inl four ↦
            let value = le_value-le_bytes 4 v (omega (tests, leb→le v 0xFFFFFFFF four)) in
            rw (more, more', four)
              (read_wide-digits 0xFE (le_bytes 4 v) refl refl (rw value small)
                  (rw (more, more', four) at r)
                ∙ ap (λ n. ok (n, offset + 5)) value)
        | inr eight ↦
            let value = le_value-eight v small in
            rw (more, more', eight)
              (read_wide-digits 0xFF (le_bytes 4 (v % 0x100000000) ++ le_bytes 4 (v / 0x100000000))
                  refl refl (rw value small) (rw (more, more', eight) at r)
                ∙ ap (λ n. ok (n, offset + 9)) value)
      ]
    ]
  ]

pub sized-Skips : (n : ℕ) (what : What) (s : Bytes) → IsSized n s → Skips (skip_bytes n what) s
sized-Skips n what s h = subst (λ k. Skips (skip_bytes k what) s) h (skip_bytes-Skips what s)

-- A count, then a step that depends on it.
counted-Skips :
    (what : What) (n : ℕ) (after : ℕ → Step) (piece : Bytes)
    → n < 2 ^ 53
    → Skips (after n) piece
    → Skips
        (λ buf offset. read_mweb_compact_size what buf offset >>= λ r. after r.0 buf r.1)
        (compact_size n ++ piece)
counted-Skips what n after piece h s = record {
  at = λ buf offset rest r.
      let r' = rw append_assoc at r in
      rw (read_mweb_compact_size-compact_size what (piece ++ rest) n h r') (
        s.at buf (offset + length (compact_size n)) rest (Remains-skip (compact_size n) _ r')
        ∙ ap ok (omega (arith, length-append (compact_size n) piece)));
}

skip_mweb_var_bytes-Skips :
    (what : What) (s : Bytes) → IsShort s → Skips (skip_mweb_var_bytes what) (var_slice s)
unfolding skip_mweb_var_bytes
skip_mweb_var_bytes-Skips what s h =
    counted-Skips what (length s) (λ n. skip_bytes n what) s h (skip_bytes-Skips what s)

tx_in-Skips : (i : TxIn) → IsTxIn i → Skips skip_mweb_input (tx_in i)
unfolding skip_mweb_input
tx_in-Skips i h = Skips-then (sized-Skips 36 input_prevout i.prevout h.prevout) (
    Skips-then (skip_mweb_var_bytes-Skips input_script i.script h.script)
      (sized-Skips 4 input_sequence i.sequence h.sequence))

tx_out-Skips : (o : TxOut) → IsTxOut o → Skips skip_mweb_output (tx_out o)
unfolding skip_mweb_output
tx_out-Skips o h =
    Skips-then (sized-Skips 8 output_value o.value h.value)
      (skip_mweb_var_bytes-Skips output_script o.script h.script)

All-map {ℓ κ μ} :
    {A : Type ℓ} {P : A → Type κ} {Q : A → Type μ} (f : (a : A) → P a → Q a) (xs : List A)
    → All P xs
    → All Q xs
All-map f [] h = tt
All-map f (x ∷ xs) h = (f x h.0, All-map f xs h.1)

stack-Skips : (items : List Bytes) → IsStack items → Skips skip_mweb_stack (stack items)
unfolding skip_mweb_stack
stack-Skips items h =
    counted-Skips witness_count (length items)
      (λ n. skip_times n (skip_mweb_var_bytes witness_item)) (render_all var_slice items) h.count
      (skip_times-Skips (skip_mweb_var_bytes witness_item) var_slice items
        (All-map (skip_mweb_var_bytes-Skips witness_item) items h.sizes))

pub stacks-Skips :
    (ins : ℕ) (stacks : List (List Bytes))
    → length stacks ≡ ins
    → All IsStack stacks
    → Skips (skip_mweb_witness ins) (render_all stack stacks)
unfolding skip_mweb_witness
stacks-Skips ins stacks count h =
    subst (λ n. Skips (skip_times n skip_mweb_stack) (render_all stack stacks)) count
      (skip_times-Skips skip_mweb_stack stack stacks (All-map stack-Skips stacks h))

module _ (t : Coinbase) (h : IsCoinbase t) where
  pub outs-Skips : Skips skip_mweb_outs (outs_part t)
  unfolding skip_mweb_outs
  outs-Skips =
      counted-Skips output_count (length t.outs) (λ n. skip_times n skip_mweb_output) _ h.out_count
        (skip_times-Skips skip_mweb_output tx_out t.outs (All-map tx_out-Skips t.outs h.outs))

  pub skip_mweb_ins-ins_part :
      (buf : Bytes) (offset : ℕ) (rest : Bytes)
      → Remains buf offset (ins_part t ++ rest)
      → skip_mweb_ins buf offset ≡ ok (length t.ins, offset + length (ins_part t))
  unfolding skip_mweb_ins
  skip_mweb_ins-ins_part buf offset rest r =
      let r' = rw append_assoc at r in
      let size = compact_size (length t.ins) in
      let walk = skip_times-Skips skip_mweb_input tx_in t.ins (All-map tx_in-Skips t.ins h.ins) in
      rw
        (
          read_mweb_compact_size-compact_size input_count (render_all tx_in t.ins ++ rest)
              (length t.ins) h.in_count r',
          walk.at buf (offset + length size) rest (Remains-skip size _ r'),
        )
        (ap (λ n. ok (length t.ins, n))
          (omega (arith, length-append size (render_all tx_in t.ins))))
