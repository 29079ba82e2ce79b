-- ===== src/Wire/AuxPow/Strip/Cuts.antt =====
-- What `stripAuxPowFromBlockHex` cuts out, and what it checks before it returns.
use mathlib.Core.Path.{subst}
use xchain_decoder.Prelude.{
  ℕ, ◌+◌, ◌*◌, ◌/◌, ◌%◌, ◌^◌, ◌≤◌, ◌<◌, ◌≡◌, refl, sym, ap, ap₂, ◌∙◌, ◌⊎◌, inl, inr, true, false,
  Bool, Option, none, Result, err, ==_iff, leb→le, ltb→lt, ltb→le, ◌-◌, ◌&&◌, some, [], ◌∷◌, ◌++◌,
  ok, ◌>>◌, leb, ltb, ◌==◌, length, take, drop, Bool-cases, arith, length-append,
  drop-length-append, take-length-append, append_assoc, le→leb, le→ltb, >>=-eq-ok,
}
use xchain_decoder.Prelude.Text.{Text}
use xchain_decoder.Wire.Bytes.{WireError, Bytes, IsBytes}
use xchain_decoder.Wire.Varint.Hex.{
  to_hex, from_hex, from_hex-to_hex, digit_value-hex_digit, hex_digit,
}
use xchain_decoder.Wire.AuxPow.{skip_aux_pow}
use xchain_decoder.Wire.AuxPow.Layout.{AuxPow, aux_pow, IsAuxPow}
use xchain_decoder.Wire.AuxPow.Exact.{skip_aux_pow-aux_pow}
use xchain_decoder.Wire.AuxPow.Strip.{
  StripError, require, parsed, BlockCodec, lift, version_of, has_aux_pow_bit, parse_int16, cut,
  assert_whole_block, checked, strip_aux_pow_from_block_hex,
}

to_hex-append : (xs ys : Bytes) → to_hex (xs ++ ys) ≡ to_hex xs ++ to_hex ys
to_hex-append [] ys = refl
to_hex-append (x ∷ xs) ys =
    ap (λ t. hex_digit (x / 16) ∷ hex_digit (x % 16) ∷ t) (to_hex-append xs ys)

length-to_hex : (xs : Bytes) → length (to_hex xs) ≡ length xs * 2
length-to_hex [] = refl
length-to_hex (x ∷ xs) = omega (arith, length-to_hex xs)

IsBytes-append : (xs ys : Bytes) → IsBytes xs → IsBytes ys → IsBytes (xs ++ ys)
IsBytes-append [] ys hx hy = hy
IsBytes-append (x ∷ xs) ys hx hy = (hx.0, IsBytes-append xs ys hx.1 hy)

-- The version field as it stands in the block: four bytes, the lowest first.
parse_int16-to_hex :
    (a b c d : ℕ)
    → a < 256
    → b < 256
    → c < 256
    → d < 256
    → parse_int16 (to_hex (a ∷ b ∷ c ∷ d ∷ [])) ≡ some (a * 2 ^ 24 + b * 2 ^ 16 + c * 2 ^ 8 + d)
unfolding parse_int16
parse_int16-to_hex a b c d ha hb hc hd =
    rw
      (
        digit_value-hex_digit (a / 16) (omega arith),
        digit_value-hex_digit (a % 16) (omega arith),
        digit_value-hex_digit (b / 16) (omega arith),
        digit_value-hex_digit (b % 16) (omega arith),
        digit_value-hex_digit (c / 16) (omega arith),
        digit_value-hex_digit (c % 16) (omega arith),
        digit_value-hex_digit (d / 16) (omega arith),
        digit_value-hex_digit (d % 16) (omega arith),
      )
      (ap some (omega arith))

has_aux_pow_bit-version_of :
    (a b c d : ℕ)
    → a < 256
    → b < 256
    → c < 256
    → d < 256
    → has_aux_pow_bit (version_of (some (a * 2 ^ 24 + b * 2 ^ 16 + c * 2 ^ 8 + d))) ≡ (b % 2 == 1)
unfolding has_aux_pow_bit version_of
has_aux_pow_bit-version_of a b c d ha hb hc hd =
    let read = a * 2 ^ 24 + b * 2 ^ 16 + c * 2 ^ 8 + d in
    let version = d * 2 ^ 24 + c * 2 ^ 16 + b * 2 ^ 8 + a in
    let swapped : version_of (some read) ≡ version = omega arith in
    let bit : version / 0x100 % 2 ≡ b % 2 = omega arith in rw (swapped, bit)

-- A block header in bytes: the four of the version, and the other 76.
pub record IsHeader (a b c d : ℕ) (others : Bytes) : Type 0 where
  pub version : IsBytes (a ∷ b ∷ c ∷ d ∷ [])
  pub fields : IsBytes others
  pub size : length others ≡ 76

cut-to_hex :
    (header section body : Bytes)
    → length header ≡ 80
    → cut (to_hex (header ++ (section ++ body))) ((80 + length section) * 2)
      ≡ to_hex (header ++ body)
cut-to_hex header section body size =
    let front : to_hex (header ++ (section ++ body)) ≡ to_hex header ++ to_hex (section ++ body) =
      to_hex-append header (section ++ body) in
    let whole : to_hex (header ++ (section ++ body)) ≡ to_hex (header ++ section) ++ to_hex body =
      ap to_hex (sym (append_assoc header section body)) ∙ to_hex-append (header ++ section) body in
    let digits : length (to_hex header) ≡ 160 = omega (arith, length-to_hex header) in
    let digits' : length (to_hex (header ++ section)) ≡ (80 + length section) * 2 =
      omega (arith, length-to_hex (header ++ section), length-append header section) in
    ap₂ ◌++◌ (ap₂ take (sym digits) front ∙ take-length-append (to_hex header) _)
      (ap₂ drop (sym digits') whole ∙ drop-length-append (to_hex (header ++ section)) _)
    ∙ sym (to_hex-append header body)

-- For a block whose version bit is set, with a well-formed AuxPoW section behind its header, and a
-- header reply of at most 160 digits: exactly the section is cut out, and what is left is returned
-- if it passes the checks.
pub strip-aux_pow :
    (codec : BlockCodec) (header_hex : Text) (a b c d : ℕ) (fields : Bytes) (section : AuxPow)
    (body : Bytes)
    → length header_hex ≤ 160
    → IsHeader a b c d fields
    → b % 2 ≡ 1
    → IsAuxPow section
    → IsBytes (aux_pow section)
    → IsBytes body
    → let header = a ∷ b ∷ c ∷ d ∷ fields in
      let stripped = to_hex (header ++ body) in
      strip_aux_pow_from_block_hex codec header_hex (to_hex (header ++ (aux_pow section ++ body)))
      ≡ (do assert_whole_block codec stripped; ok stripped)
unfolding strip_aux_pow_from_block_hex
strip-aux_pow codec header_hex a b c d fields section body short h bit good section_bytes
      body_bytes =
    let header = a ∷ b ∷ c ∷ d ∷ fields in
    let ba = h.version.0 in
    let bb = h.version.1.0 in
    let bc = h.version.1.1.0 in
    let bd = h.version.1.1.1.0 in
    let size : length header ≡ 80 = omega (arith, h.size) in
    let bytes =
      IsBytes-append header _ (ba, (bb, (bc, (bd, h.fields))))
        (IsBytes-append (aux_pow section) body section_bytes body_bytes) in
    let long : leb 8 (length (to_hex (header ++ (aux_pow section ++ body)))) ≡ true =
      le→leb 8 (length (to_hex (header ++ (aux_pow section ++ body)))) (omega arith) in
    let at80 : skip_aux_pow (header ++ (aux_pow section ++ body)) 80
        ≡ ok (80 + length (aux_pow section)) =
      subst
        (λ n.
          skip_aux_pow (header ++ (aux_pow section ++ body)) n ≡ ok (n + length (aux_pow section)))
        size (skip_aux_pow-aux_pow section header body good) in
    rw (
      le→ltb 160 (length header_hex) short,
      long,
      parse_int16-to_hex a b c d ba bb bc bd,
      has_aux_pow_bit-version_of a b c d ba bb bc bd,
      bit,
      from_hex-to_hex _ bytes,
      at80,
      cut-to_hex header (aux_pow section) body size,
    )

-- What `assertWholeBlock` asks of a text: whole bytes that the library parses to a block of that many
-- bytes, with a transaction in it and with the merkle root of its header.
pub record IsWhole (codec : BlockCodec) (block_hex : Text) : Type 0 where
  pub block : codec.Block
  pub even : length (from_hex block_hex) * 2 ≡ length block_hex
  pub parses : codec.from_buffer (from_hex block_hex) ≡ some block
  pub transactions : 1 ≤ codec.tx_count block
  pub all_bytes : codec.byte_length block ≡ length (from_hex block_hex)
  pub root : codec.merkle_root_matches block ≡ true

require_ok : (b : Bool) (thrown : StripError) (u : Unit {0}) → require b thrown ≡ ok u → b ≡ true
require_ok true thrown u h = refl
require_ok false thrown u h = cc

parsed_ok : {A : Type 0} (o : Option A) (a : A) → parsed o ≡ ok a → o ≡ some a
parsed_ok none a h = cc
parsed_ok (some b) a h = cc

assert_whole_block-IsWhole :
    (codec : BlockCodec) (block_hex : Text)
    → assert_whole_block codec block_hex ≡ ok tt
    → IsWhole codec block_hex
unfolding assert_whole_block
assert_whole_block-IsWhole codec block_hex h =
    let (u, even, h1) = >>=-eq-ok _ _ h in
    let (block, found, h2) = >>=-eq-ok _ _ h1 in
    let (v, some_tx, h3) = >>=-eq-ok _ _ h2 in
    let (x, size, root) = >>=-eq-ok _ _ h3 in
    record {
      block = block;
      even = (==_iff _ _).0 (require_ok _ _ u even);
      parses = parsed_ok _ block found;
      transactions = leb→le _ _ (require_ok _ _ v some_tx);
      all_bytes = (==_iff _ _).0 (require_ok _ _ x size);
      root = require_ok _ _ tt root;
    }

-- The block without the units from the end of its header up to `from`.
abbrev pub IsCutAt : Text → Text → ℕ → Type 0
IsCutAt block_hex result from = result ≡ take 160 block_hex ++ drop from block_hex

lift_ok : {A : Type 0} (r : Result WireError A) (a : A) → lift r ≡ ok a → r ≡ ok a
lift_ok (ok b) a h = cc
lift_ok (err e) a h = cc

checked_ok :
    (codec : BlockCodec) (stripped result : Text)
    → checked codec stripped ≡ ok result
    → (result ≡ stripped) × IsWhole codec result
unfolding checked
checked_ok codec stripped result h =
    let (u, passed, same) = >>=-eq-ok (assert_whole_block codec stripped) (λ _. ok stripped) h in
    let same' : stripped ≡ result = cc in
    (sym same', subst (IsWhole codec) same' (assert_whole_block-IsWhole codec stripped passed))

-- What is returned is the block unchanged; or the block without the units behind the 160 of its header, as
-- far as the node's longer header reply reaches or else up to where the AuxPoW section ends, and then it is
-- a whole block to the library, with its merkle root.
pub strip_checked :
    (codec : BlockCodec) (header_hex block_hex result : Text)
    → strip_aux_pow_from_block_hex codec header_hex block_hex ≡ ok result
    → ((result ≡ block_hex) × (length header_hex ≤ 160))
      ⊎ (((from : ℕ) × IsCutAt block_hex result from
            × (((160 < length header_hex) × (from ≡ length header_hex))
                ⊎ ((after : ℕ) × (skip_aux_pow (from_hex block_hex) 80 ≡ ok after)
                    × (from ≡ after * 2))))
          × IsWhole codec result)
unfolding strip_aux_pow_from_block_hex
strip_checked codec header_hex block_hex result h =
    elim (Bool-cases (ltb 160 (length header_hex))) [
      | inl old ↦
          let (same, whole) = checked_ok codec _ result (rw old at h) in
          let long = ltb→lt 160 (length header_hex) old in
          inr ((160 + (length header_hex - 160), same, inl (long, omega arith)), whole)
      | inr plain ↦
          elim (Bool-cases (
            leb 8 (length block_hex)
            && has_aux_pow_bit (version_of (parse_int16 (take 8 block_hex))))) [
              | inl bit ↦
                  let (after, skipped, cut_ok) =
                    >>=-eq-ok (lift (skip_aux_pow (from_hex block_hex) 80))
                      (λ after. checked codec (cut block_hex (after * 2))) (rw (plain, bit) at h) in
                  let (same, whole) = checked_ok codec _ result cut_ok in
                  inr ((after * 2, same, inr (after, lift_ok _ after skipped, refl)), whole)
              | inr unmarked ↦
                  inl (cc (rw (plain, unmarked) at h), ltb→le 160 (length header_hex) plain)
            ]
    ]
