-- ===== src/Wire/Varint.antt =====
-- src/chain/blockchain_connector/auxpow_codec.js: `readVarint` and `encodeVarintHex`.
pub mod Hex
pub mod RoundTrip
use xchain_decoder.Prelude.{
  ℕ, zero, suc, ◌+◌, ◌*◌, ◌/◌, ◌%◌, ◌^◌, ◌<◌, ◌≡◌, refl, Option, none, some, ◌∷◌, Result, ok, err,
  ◌>>=◌, ltb, leb, ◌==◌, if◌then◌else◌, get_elem?, arith,
}
use xchain_decoder.Prelude.Text.{Text}
use xchain_decoder.Wire.Bytes.{Bytes, WireError, varint_range, le_bytes, read_uint_le}
use Hex.{to_hex, to_base16, pad_start}

-- The gap between neighbouring doubles around `n`, from `u` up, with eleven doublings: enough below
-- 2^64.
ulp : ℕ → ℕ → ℕ → ℕ
ulp zero n u = u
ulp (suc k) n u = let wider = ulp k n (2 * u) in if ltb n (2 ^ 53 * u) then u else wider

-- The nearest multiple of `u`, ties to the even one.
round_to : ℕ → ℕ → ℕ
round_to u n =
    let low = n / u * u in
    let high = (n / u + 1) * u in
    let r = 2 * (n % u) in
    if ltb r u then low else if ltb u r then high else if n / u % 2 == 0 then low else high

-- What a JavaScript number keeps of an integer below 2^64.
unfoldable pub to_number : ℕ → ℕ
unfolding ulp round_to
to_number n = round_to (ulp 11 n 1) n

pub to_number_exact : (n : ℕ) → n < 2 ^ 53 → to_number n ≡ n
unfolding to_number
to_number_exact n h = ground arith

-- The value and the number of bytes that it takes.
read_wide_varint : Bytes → ℕ → Result WireError (ℕ × ℕ)
read_wide_varint buf offset = do
  lo ← read_uint_le 4 buf (offset + 1)
  hi ← read_uint_le 4 buf (offset + 5)
  ok (to_number (hi * 0x100000000 + lo), 9)

-- `buf[offset]` past the end is `undefined`, which fails each test before the last branch.
read_varint_from : Option ℕ → Bytes → ℕ → Result WireError (ℕ × ℕ)
read_varint_from none buf offset = read_wide_varint buf offset
read_varint_from (some first) buf offset =
    if ltb first 0xFD
    then ok (first, 1)
    else if first == 0xFD
    then (do value ← read_uint_le 2 buf (offset + 1); ok (value, 3))
    else if first == 0xFE
    then (do value ← read_uint_le 4 buf (offset + 1); ok (value, 5))
    else read_wide_varint buf offset

unfoldable pub read_varint : Bytes → ℕ → Result WireError (ℕ × ℕ)
unfolding read_varint_from read_wide_varint
read_varint buf offset = read_varint_from (get_elem? buf offset) buf offset

unfoldable pub encode_varint_hex : ℕ → Result WireError Text
encode_varint_hex value =
    if ltb value 0xFD
    then ok (pad_start 2 b'0' (to_base16 value))
    else if leb value 0xFFFF
    then ok (to_hex (0xFD ∷ le_bytes 2 value))
    else if leb value 0xFFFFFFFF
    then ok (to_hex (0xFE ∷ le_bytes 4 value))
    else err (varint_range value)
