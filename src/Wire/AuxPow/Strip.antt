-- ===== src/Wire/AuxPow/Strip.antt =====
-- `assertWholeBlock` and `stripAuxPowFromBlockHex`.
pub mod Cuts
use xchain_decoder.Prelude.{
  ℕ, zero, suc, ◌+◌, ◌-◌, ◌*◌, ◌/◌, ◌%◌, ◌^◌, ◌≡◌, Bool, true, false, not, ◌&&◌, Option, none, some,
  List, [], ◌∷◌, ◌++◌, Result, ok, err, ◌>>=◌, ◌>>◌, leb, ltb, ◌==◌, if◌then◌else◌, length, take,
  drop,
}
use xchain_decoder.Prelude.Text.{Text}
use xchain_decoder.Wire.Bytes.{Bytes, WireError}
use xchain_decoder.Wire.Varint.Hex.{from_hex, digit_value}
use xchain_decoder.Wire.AuxPow.{skip_aux_pow}

-- What the code takes from bitcoinjs-lib: `Block.fromBuffer`, which may throw, the number of parsed
-- transactions, `byteLength()`, and whether `calculateMerkleRoot` gives the header's root.
pub record BlockCodec : Type 1 where
  pub Block : Type 0
  pub from_buffer : Bytes → Option Block
  pub tx_count : Block → ℕ
  pub byte_length : Block → ℕ
  pub merkle_root_matches : Block → Bool

pub data StripError : Type 0 where
  wire : WireError → StripError
  not_whole_bytes no_parse no_transactions merkle_mismatch : StripError
  -- `buf.length - used`, negative where the block claims more than there is
  bytes_left : ℕ → ℕ → StripError

abbrev lift {ℓ} : {A : Type ℓ} → Result WireError A → Result StripError A
lift (ok a) = ok a
lift (err e) = err (wire e)

-- `if (!expected) throw …`
abbrev pub require : Bool → StripError → Result StripError (Unit {0})
require false thrown = err thrown
require true thrown = ok tt

abbrev pub parsed {ℓ} : {A : Type ℓ} → Option A → Result StripError A
parsed none = err no_parse
parsed (some b) = ok b

-- `parseInt(hex, 16)` of hexadecimal text: the longest prefix of digits, `none` for NaN. The node
-- prints neither blanks, signs nor "0x".
abbrev next_digit : Option ℕ → ℕ → (ℕ → ℕ) → ℕ
next_digit none n more = n
next_digit (some d) n more = more (16 * n + d)

parse_int16_onto : ℕ → Text → ℕ
parse_int16_onto n [] = n
parse_int16_onto n (c ∷ cs) = next_digit (digit_value c) n (λ m. parse_int16_onto m cs)

parse_int16_from : Option ℕ → Text → Option ℕ
parse_int16_from none cs = none
parse_int16_from (some d) cs = some (parse_int16_onto d cs)

pub parse_int16 : Text → Option ℕ
unfolding parse_int16_from parse_int16_onto
parse_int16 [] = none
parse_int16 (c ∷ cs) = parse_int16_from (digit_value c) cs

-- The version in its own byte order; NaN has no bits.
pub version_of : Option ℕ → ℕ
version_of none = 0
version_of (some le) =
    le % 256 * 2 ^ 24 + le / 2 ^ 8 % 256 * 2 ^ 16 + le / 2 ^ 16 % 256 * 2 ^ 8 + le / 2 ^ 24 % 256

-- `version & 0x100`
pub has_aux_pow_bit : ℕ → Bool
has_aux_pow_bit version = version / 0x100 % 2 == 1

-- The 80-byte header is 160 digits.
abbrev pub cut : Text → ℕ → Text
cut block_hex from = take 160 block_hex ++ drop from block_hex

module _ (codec : BlockCodec) where
  open codec use {from_buffer, tx_count, byte_length, merkle_root_matches}

  unfoldable pub assert_whole_block : Text → Result StripError (Unit {0})
  assert_whole_block block_hex = do
    let buf = from_hex block_hex
    require (length buf * 2 == length block_hex) not_whole_bytes
    block ← parsed (from_buffer buf)
    require (leb 1 (tx_count block)) no_transactions
    require (byte_length block == length buf) (bytes_left (length buf) (byte_length block))
    require (merkle_root_matches block) merkle_mismatch

  checked : Text → Result StripError Text
  checked stripped = do assert_whole_block stripped; ok stripped

  unfoldable pub strip_aux_pow_from_block_hex : Text → Text → Result StripError Text
  unfolding checked parse_int16 parse_int16_from parse_int16_onto version_of has_aux_pow_bit
  strip_aux_pow_from_block_hex header_hex block_hex =
      if ltb 160 (length header_hex)
      then checked (cut block_hex (160 + (length header_hex - 160)))
      else if leb 8 (length block_hex)
          && has_aux_pow_bit (version_of (parse_int16 (take 8 block_hex)))
      then (do
        after ← lift (skip_aux_pow (from_hex block_hex) 80)
        checked (cut block_hex (after * 2)))
      else ok block_hex
