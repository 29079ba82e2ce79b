-- ===== src/Wire/Mweb/Exact.antt =====
-- `readMwebFlaggedTransaction` on the flagged serialization.
use mathlib.Core.Path.{subst}
use xchain_decoder.Prelude.{
  ℕ, ◌+◌, ◌-◌, ◌≡◌, ◌≢◌, refl, ap, ◌∙◌, sym, Bool, false, Option, none, some, List, [], ◌∷◌, ◌++◌,
  Result, ok, ◌>>=◌, if◌then◌else◌, ◌==◌, get_elem?, length, length-append, take-length-append,
  arith, append_assoc,
}
use xchain_decoder.Prelude.Integers.{ℤ}
use xchain_decoder.Wire.Bytes.{
  Bytes, WireError, mweb_tag, locktime, Remains, Remains-skip, Remains-head, Remains-tail,
  Remains-append,
}
use xchain_decoder.Wire.Skip.{Skips, skip_bytes-Skips}
use xchain_decoder.Wire.AuxPow.Layout.{Coinbase, witness, IsCoinbase, HasStacks}
use xchain_decoder.Wire.Mweb.Layout.{
  mweb_flag, ins_part, outs_part, witness_part, plain_marker, flagged, plain,
}
use xchain_decoder.Wire.Mweb.Pieces.{sized-Skips, stacks-Skips, outs-Skips, skip_mweb_ins-ins_part}
use xchain_decoder.Wire.Mweb.{
  is_odd, subarray, skip_mweb_ins_and_outs, skip_mweb_witness, locktime_after_tag, locktime_behind,
  plain_or_built, read_mweb_flagged_transaction,
}

subarray-piece :
    (buf : Bytes) (offset end : ℕ) (piece rest : Bytes)
    → Remains buf offset (piece ++ rest)
    → end ≡ offset + length piece
    → subarray offset end buf ≡ piece
subarray-piece buf offset end piece rest r e =
    let size : end - offset ≡ length piece = omega arith in
    rw (size, r.drops) (take-length-append piece rest)

pub moved : {buf : Bytes} {a b : ℕ} {rest : Bytes} → Remains buf a rest → a ≡ b → Remains buf b rest
moved {buf} {a} {b} {rest} r e = subst (λ n. Remains buf n rest) e r

witness-Skips :
    (flag : Option ℕ) (t : Coinbase)
    → HasStacks flag t.ins t.stacks
    → Skips
        (λ buf o.
          if is_odd (some (mweb_flag flag)) then skip_mweb_witness (length t.ins) buf o else ok o)
        (witness flag t.stacks)
witness-Skips none t h = record { at = λ buf offset rest r. ap ok (omega arith) }
witness-Skips (some flag) t (count, h) = stacks-Skips (length t.ins) t.stacks count h

marker_eq :
    (flag : Option ℕ)
    → (if is_odd (some (mweb_flag flag)) then 0x00 ∷ 0x01 ∷ [] else []) ≡ plain_marker flag
marker_eq none = refl
marker_eq (some flag) = refl

nonzero {ℓ} : {A : Type ℓ} (xs : List A) → xs ≢ [] → (length xs == 0) ≡ false
nonzero [] h = absurd (h refl)
nonzero (x ∷ xs) h = ground arith

module _ (t : Coinbase) (h : IsCoinbase t) (buf rest : Bytes) (start : ℕ) where
  pub inside : Bytes
  inside = ins_part t ++ (outs_part t ++ (witness_part t ++ ((0x00 ∷ []) ++ (t.locktime ++ rest))))

  -- The offset behind the witness data.
  witness_at : ℕ
  witness_at = start + 6 + length (ins_part t) + length (outs_part t) + length (witness_part t)

  pub flat : flagged t ++ rest ≡ t.version ++ (0x00 ∷ mweb_flag t.flag ∷ inside)
  unfolding flagged inside
  flat = simp append_assoc

  pub behind_marker :
      Remains buf start (flagged t ++ rest)
      → Remains buf (start + 4) (0x00 ∷ mweb_flag t.flag ∷ inside)
  behind_marker r =
      let r' = subst (Remains buf start) flat r in
      subst (λ n. Remains buf (start + n) (0x00 ∷ mweb_flag t.flag ∷ inside)) h.version
        (Remains-skip t.version _ r')

  length-flagged :
      length (flagged t)
      ≡ 4 + 2 + length (ins_part t) + length (outs_part t) + length (witness_part t) + 1 + 4
  unfolding flagged
  length-flagged =
      let tag_part = 0x00 ∷ t.locktime in
      omega (
        arith,
        length-append t.version (
            0x00
            ∷ mweb_flag t.flag
            ∷ (ins_part t ++ (outs_part t ++ (witness_part t ++ tag_part)))),
        length-append (ins_part t) (outs_part t ++ (witness_part t ++ tag_part)),
        length-append (outs_part t) (witness_part t ++ tag_part),
        length-append (witness_part t) tag_part,
        h.version,
        h.locktime,
      )

  module _ (r : Remains buf start (flagged t ++ rest)) where
    at_inside : Remains buf (start + 6) inside
    at_inside =
        moved (Remains-skip (0x00 ∷ mweb_flag t.flag ∷ []) inside (behind_marker r)) (omega arith)

    pub flag_byte : get_elem? buf (start + 5) ≡ some (mweb_flag t.flag)
    flag_byte =
        Remains-head (mweb_flag t.flag) inside
          (moved (Remains-tail 0x00 (mweb_flag t.flag ∷ inside) (behind_marker r)) (omega arith))

    at_outs :
        Remains buf
          (start + 6 + length (ins_part t))
          (outs_part t ++ (witness_part t ++ (0x00 ∷ (t.locktime ++ rest))))
    at_outs = Remains-skip (ins_part t) _ (unfold inside in at_inside)

    at_witness :
        Remains buf
          (start + 6 + length (ins_part t) + length (outs_part t))
          (witness_part t ++ (0x00 ∷ (t.locktime ++ rest)))
    at_witness = Remains-skip (outs_part t) _ at_outs

    at_tag : Remains buf witness_at (0x00 ∷ (t.locktime ++ rest))
    at_tag = unfold witness_at in Remains-skip (witness_part t) _ at_witness

    at_locktime : Remains buf (witness_at + 1) (t.locktime ++ rest)
    at_locktime = Remains-tail 0x00 (t.locktime ++ rest) at_tag

    walked :
        skip_mweb_ins_and_outs buf (start + 6)
        ≡ ok (
          start + 6 + length (ins_part t) + length (outs_part t),
          start + 6 + length (ins_part t),
          length t.ins,
        )
    unfolding skip_mweb_ins_and_outs
    walked =
        let outs = outs_part t ++ (witness_part t ++ (0x00 ∷ (t.locktime ++ rest))) in
        let at_ins : Remains buf (start + 6) (ins_part t ++ outs) = unfold inside in at_inside in
        let after_outs =
          (outs-Skips t h).at buf (start + 6 + length (ins_part t))
            (witness_part t ++ (0x00 ∷ (t.locktime ++ rest))) at_outs in
        rw (skip_mweb_ins-ins_part t h buf (start + 6) outs at_ins, after_outs) refl

    locktime_found :
        (standalone : Bool) → locktime_after_tag standalone buf witness_at ≡ ok (witness_at + 1)
    unfolding locktime_after_tag locktime_behind
    locktime_found standalone =
        rw
          (
            (skip_bytes-Skips mweb_tag (0x00 ∷ [])).at buf witness_at (t.locktime ++ rest) at_tag,
            Remains-head 0x00 (t.locktime ++ rest) at_tag,
          )
          refl

    middle_piece :
        subarray (start + 6) witness_at buf ≡ ins_part t ++ (outs_part t ++ witness_part t)
    unfolding inside witness_at
    middle_piece =
        subarray-piece buf (start + 6) witness_at (ins_part t ++ (outs_part t ++ witness_part t))
          (0x00 ∷ (t.locktime ++ rest))
          (subst (Remains buf (start + 6)) (simp append_assoc) at_inside)
          (omega (
            arith,
            length-append (ins_part t) (outs_part t ++ witness_part t),
            length-append (outs_part t) (witness_part t),
          ))

    version_piece : subarray start (start + 4) buf ≡ t.version
    version_piece =
        subarray-piece buf start (start + 4) t.version (0x00 ∷ mweb_flag t.flag ∷ inside)
          (subst (Remains buf start) flat r) (ap (λ n. start + n) (sym h.version))

    locktime_piece : subarray (witness_at + 1) (witness_at + 1 + 4) buf ≡ t.locktime
    locktime_piece =
        subarray-piece buf (witness_at + 1) (witness_at + 1 + 4) t.locktime rest at_locktime
          (ap (λ n. witness_at + 1 + n) (sym h.locktime))

    plain_found :
        {Tx : Type 0} (from_buffer : Bytes → Result WireError Tx)
        (build : ℤ → List (ℕ × Bytes) → ℕ → Tx)
        → plain_or_built from_buffer build buf start
            (length t.ins)
            (start + 6 + length (ins_part t))
            witness_at
            (witness_at + 1)
            (witness_at + 1 + 4)
            (is_odd (some (mweb_flag t.flag)))
          ≡ from_buffer (plain t)
    unfolding plain_or_built plain
    plain_found from_buffer build =
        rw
          (nonzero t.ins h.has_input, version_piece, middle_piece, locktime_piece, marker_eq t.flag)
          (ap (λ b. from_buffer (t.version ++ (plain_marker t.flag ++ b))) (simp append_assoc))

-- A flagged transaction with inputs and no MWEB part, wherever it stands and whatever follows, is handed
-- to bitcoinjs as its standard serialization, witness data included, and exactly its bytes are consumed:
-- alone or inside a block.
pub read_mweb_flagged_transaction-flagged :
    {Tx : Type 0} (from_buffer : Bytes → Result WireError Tx)
    (build : ℤ → List (ℕ × Bytes) → ℕ → Tx) (t : Coinbase) (pre rest : Bytes) (standalone : Bool)
    → IsCoinbase t
    → read_mweb_flagged_transaction from_buffer build
        (pre ++ (flagged t ++ rest))
        (length pre)
        standalone
      ≡ (from_buffer (plain t) >>= λ tx. ok (tx, length (flagged t)))
unfolding read_mweb_flagged_transaction
read_mweb_flagged_transaction-flagged from_buffer build t pre rest standalone h =
    let buf = pre ++ (flagged t ++ rest) in
    let start = length pre in
    let r : Remains buf start (flagged t ++ rest) = Remains-append pre (flagged t ++ rest) in
    let end = witness_at t h buf rest start in
    let stacks : (if is_odd (some (mweb_flag t.flag))
          then skip_mweb_witness (length t.ins) buf
              (start + 6 + length (ins_part t) + length (outs_part t))
          else ok (start + 6 + length (ins_part t) + length (outs_part t)))
        ≡ ok end =
      unfold witness_at in
      (witness-Skips t.flag t h.stacks).at buf _ (0x00 ∷ (t.locktime ++ rest))
        (at_witness t h buf rest start r) in
    let last =
      (sized-Skips 4 locktime t.locktime h.locktime).at buf (end + 1) rest
        (at_locktime t h buf rest start r)
      ∙ ap (λ n. ok (end + 1 + n)) h.locktime in
    let size : end + 1 + 4 - start ≡ length (flagged t) =
      unfold witness_at in omega (arith, length-flagged t h buf rest start) in
    rw
      (
        flag_byte t h buf rest start r,
        walked t h buf rest start r,
        stacks,
        locktime_found t h buf rest start r standalone,
        last,
        plain_found t h buf rest start r from_buffer build,
        size,
      )
      refl
