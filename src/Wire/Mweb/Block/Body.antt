-- ===== src/Wire/Mweb/Block/Body.antt =====
-- The block reader on a Litecoin block body, and the blocks that it returns.
use mathlib.Core.Path.{subst}
use xchain_decoder.Prelude.{
  ℕ, suc, ◌+◌, ◌≤◌, ◌<◌, ◌≡◌, ◌≢◌, refl, sym, ap, ◌∙◌, ◌⊎◌, inl, inr, Bool, true, false, ◌||◌,
  Option, none, some, List, [], ◌∷◌, ◌++◌, append_assoc, map, ok, ◌>>=◌, >>=-eq-ok, ltb, le→ltb,
  ◌==◌, length, take, drop, length-append, take-append-drop, length-take, All, Bool-cases, arith,
}
use xchain_decoder.Prelude.Text.{text_eq, text_eq_iff}
use xchain_decoder.Wire.Bytes.{Bytes, le_value, Remains, Remains-skip, Remains-head, read_uint_le}
use xchain_decoder.Wire.Skip.{render_all}
use xchain_decoder.Wire.AuxPow.Layout.{Coinbase, IsCoinbase}
use xchain_decoder.Wire.Mweb.{has_mweb_flag, either_version, equals, read_mweb_flagged_transaction}
use xchain_decoder.Wire.Mweb.Layout.{flagged, plain, mweb_flag}
use xchain_decoder.Wire.Mweb.Pieces.{read_uint_le-digits}
use xchain_decoder.Wire.Mweb.Exact.{
  flat, flag_byte, behind_marker, read_mweb_flagged_transaction-flagged,
}
use xchain_decoder.Wire.Mweb.Block.{
  TxCodec, has_some, read_transactions, read_mweb_transactions, assert_block_body_intact,
  mweb_block_from_buffer,
}

flag_known :
    (flag : Option ℕ)
    → (equals 0x08 (some (mweb_flag flag)) || equals 0x09 (some (mweb_flag flag))) ≡ true
flag_known none = refl
flag_known (some flag) = refl

has_mweb_flag-flagged :
    (t : Coinbase) (h : IsCoinbase t) (buf rest : Bytes) (offset : ℕ)
    → either_version (ok (le_value t.version)) ≡ true
    → Remains buf offset (flagged t ++ rest)
    → has_mweb_flag buf offset ≡ true
unfolding has_mweb_flag
has_mweb_flag-flagged t h buf rest offset known r =
    let r' = subst (Remains buf offset) (flat t h buf rest offset) r in
    let marked = behind_marker t h buf rest offset r in
    let enough : offset + 6 ≤ length buf = omega (arith, marked.ends) in
    let version : read_uint_le 4 buf offset ≡ ok (le_value t.version) =
      subst (λ n. read_uint_le n buf offset ≡ ok (le_value t.version)) h.version
        (read_uint_le-digits t.version _ r') in
    rw
      (
        le→ltb (length buf) (offset + 6) enough,
        version,
        known,
        Remains-head 0x00 _ marked,
        flag_byte t h buf rest offset r,
        flag_known t.flag,
      )
      refl

-- The flagged reader wherever the transaction remains to be read.
read_flagged_at :
    (codec : TxCodec) (t : Coinbase) (buf rest : Bytes) (offset : ℕ)
    → IsCoinbase t
    → Remains buf offset (flagged t ++ rest)
    → read_mweb_flagged_transaction codec.from_buffer codec.build buf offset false
      ≡ (codec.from_buffer (plain t) >>= λ tx. ok (tx, length (flagged t)))
read_flagged_at codec t buf rest offset h r =
    let whole : take offset buf ++ (flagged t ++ rest) ≡ buf =
      ap (λ x. take offset buf ++ x) (sym r.drops) ∙ take-append-drop offset buf in
    let size : length (take offset buf) ≡ offset = length-take offset buf ∙ omega (arith, r.ends) in
    subst
      (λ b.
        read_mweb_flagged_transaction codec.from_buffer codec.build b offset false
        ≡ (codec.from_buffer (plain t) >>= λ tx. ok (tx, length (flagged t))))
      whole
      (subst
        (λ n.
          read_mweb_flagged_transaction codec.from_buffer codec.build
            (take offset buf ++ (flagged t ++ rest)) n false
          ≡ (codec.from_buffer (plain t) >>= λ tx. ok (tx, length (flagged t))))
        size
        (read_mweb_flagged_transaction-flagged codec.from_buffer codec.build t (take offset buf)
          rest false h))

module _ (codec : TxCodec) where
  -- The bytes are a serialization of the transaction: the parser finds it and its length, whatever
  -- follows.
  abbrev pub IsWritten : codec.Tx × Bytes → Type 0
  IsWritten (tx, bytes) =
      ((rest : Bytes) → codec.from_prefix (bytes ++ rest) ≡ some tx)
      × (codec.byte_length tx ≡ length bytes)

  abbrev pub written : List (codec.Tx × Bytes) → Bytes
  written = render_all (λ x. x.1)

  -- A block body of transactions that bitcoinjs reads and, in last place, a well-formed HogEx of
  -- version 1 or 2 whose standard serialization it reads, is read as these transactions in their
  -- order, up to exactly the last byte of the HogEx, whatever follows.
  pub read_transactions-body :
      (xs : List (codec.Tx × Bytes)) (t : Coinbase) (hogex : codec.Tx) (buf rest : Bytes)
      (offset : ℕ)
      → All IsWritten xs
      → IsCoinbase t
      → either_version (ok (le_value t.version)) ≡ true
      → codec.from_buffer (plain t) ≡ ok hogex
      → Remains buf offset (written xs ++ (flagged t ++ rest))
      → read_transactions codec (suc (length xs)) buf offset
        ≡ ok (map (λ x. x.0) xs ++ hogex ∷ [], offset + length (written xs ++ flagged t), true)
  unfolding read_transactions
  read_transactions-body [] t hogex buf rest offset hs h known parse r =
      rw
        (
          has_mweb_flag-flagged t h buf rest offset known r,
          read_flagged_at codec t buf rest offset h r,
          parse,
        )
        refl
  read_transactions-body ((tx, bytes) ∷ xs) t hogex buf rest offset hs h known parse r =
      let r' = rw append_assoc at r in
      let next = Remains-skip bytes _ r' in
      let found : codec.from_prefix (drop offset buf) ≡ some tx =
        ap codec.from_prefix r'.drops ∙ hs.0.0 _ in
      let not_last : (suc (length xs) == 0) ≡ false = ground arith in
      let later = written xs ++ flagged t in
      let size : offset + length bytes + length later
          ≡ offset + length ((bytes ++ written xs) ++ flagged t) =
        rw append_assoc (omega (arith, length-append bytes later)) in
      rw
        (
          not_last,
          found,
          hs.0.1,
          read_transactions-body xs t hogex buf rest (offset + length bytes) hs.1 h known parse
              next,
        )
        (ap (λ n. ok (tx ∷ (map (λ x. x.0) xs ++ hogex ∷ []), n, true)) size)

  some-nonempty : (txs : List codec.Tx) → has_some txs ≡ true → txs ≢ []
  some-nonempty [] h = cc
  some-nonempty (tx ∷ txs) h = λ e. cc

  end_or_hogex :
      (end size : ℕ) (hogex_last : Bool)
      → (end == size || hogex_last) ≡ true
      → (end ≡ size) ⊎ (hogex_last ≡ true)
  end_or_hogex end size true h = inr refl
  end_or_hogex end size false h = inl (ground arith)

  intact :
      (txs : List codec.Tx) (root : Bytes) (size end : ℕ) (hogex_last : Bool)
      → assert_block_body_intact codec txs root size end hogex_last ≡ ok tt
      → (txs ≢ []) × (codec.merkle_root txs ≡ root) × ((end ≡ size) ⊎ (hogex_last ≡ true))
  unfolding assert_block_body_intact
  intact txs root size end hogex_last h = elim (Bool-cases (has_some txs)) [
    | inr empty ↦ cc (rw empty at h)
    | inl full ↦ elim (Bool-cases (end == size || hogex_last)) [
      | inr behind ↦ cc (rw (full, behind) at h)
      | inl ended ↦ elim (Bool-cases (text_eq (codec.merkle_root txs) root)) [
        | inr other ↦ cc (rw (full, ended, other) at h)
        | inl same ↦ (
          some-nonempty txs full,
          (text_eq_iff (codec.merkle_root txs) root).0 same,
          end_or_hogex end size hogex_last ended,
        )
      ]
    ]
  ]

  -- A block of more than a header is returned only with at least one transaction, and with the merkle root
  -- of its transactions in the header; and either the last transaction ends the buffer, or it was read as
  -- the HogEx.
  pub mweb_block_from_buffer_checked :
      (buf : Bytes) (txs : List codec.Tx)
      → mweb_block_from_buffer codec buf ≡ ok txs
      → 80 < length buf
      → (txs ≢ [])
        × (codec.merkle_root txs ≡ take 32 (drop 36 buf))
        × (end : ℕ) × (hogex_last : Bool) × (read_mweb_transactions codec buf 80
            ≡ ok (txs, end, hogex_last))
        × ((end ≡ length buf) ⊎ (hogex_last ≡ true))
  unfolding mweb_block_from_buffer
  mweb_block_from_buffer_checked buf txs h long =
      let not_short : ltb (length buf) 80 ≡ false = le→ltb (length buf) 80 (omega arith) in
      let not_header : (length buf == 80) ≡ false = ground arith in
      let h' = rw (not_short, not_header) at h in
      let ((txs', end, hogex_last), read, after) =
        >>=-eq-ok (read_mweb_transactions codec buf 80) _ h' in
      let (done, checked, given) =
        >>=-eq-ok
          (assert_block_body_intact codec txs' (take 32 (drop 36 buf)) (length buf) end hogex_last)
          (λ _. ok txs') after in
      let same : txs' ≡ txs = cc in
      let (full, root, ended) =
        intact txs' (take 32 (drop 36 buf)) (length buf) end hogex_last checked in
      (
        subst (λ x. x ≢ []) same full,
        subst (λ x. codec.merkle_root x ≡ take 32 (drop 36 buf)) same root,
        end,
        hogex_last,
        subst (λ x. read_mweb_transactions codec buf 80 ≡ ok (x, end, hogex_last)) same read,
        ended,
      )
