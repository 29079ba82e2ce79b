-- ===== src/Wire/Varint/Hex.antt =====
-- `buf.toString('hex')` and `Buffer.from(hex, 'hex')`.
use xchain_decoder.Prelude.{
  ℕ, zero, suc, ◌+◌, ◌-◌, ◌*◌, ◌/◌, ◌%◌, ◌<◌, ◌≡◌, refl, ap, ◌&&◌, Option, none, some, [], ◌∷◌,
  ◌++◌, leb, ltb, if◌then◌else◌, length, arith, tests, Bool-cases, inl, inr,
}
use xchain_decoder.Prelude.Text.{Text}
use xchain_decoder.Wire.Bytes.{Bytes, IsBytes}

-- Lowercase digits, as `toString(16)` prints.
abbrev pub hex_digit : ℕ → ℕ
hex_digit d = if ltb d 10 then b'0' + d else b'a' + (d - 10)

-- Both cases are read.
pub digit_value : ℕ → Option ℕ
digit_value c =
    if leb b'0' c && leb c b'9'
    then some (c - b'0')
    else if leb b'a' c && leb c b'f'
    then some (c - b'a' + 10)
    else if leb b'A' c && leb c b'F'
    then some (c - b'A' + 10)
    else none

abbrev pub to_hex : Bytes → Text
to_hex [] = []
to_hex (b ∷ bs) = hex_digit (b / 16) ∷ hex_digit (b % 16) ∷ to_hex bs

-- `n.toString(16)` below 256: no leading zero.
pub to_base16 : ℕ → Text
to_base16 n = if ltb n 16 then hex_digit n ∷ [] else hex_digit (n / 16) ∷ hex_digit (n % 16) ∷ []

-- `s.padStart(width, c)`
padding : ℕ → ℕ → Text
padding zero c = []
padding (suc n) c = c ∷ padding n c

pub pad_start : ℕ → ℕ → Text → Text
pad_start width c s = padding (width - length s) c ++ s

-- Reading stops at the first pair that is no byte; an odd digit at the end is dropped.
abbrev pair_digits : Option ℕ → Option ℕ → Option ℕ
pair_digits (some h) (some l) = some (16 * h + l)
pair_digits _ _ = none

byte_of : ℕ → ℕ → Option ℕ
byte_of c d = pair_digits (digit_value c) (digit_value d)

abbrev cons_byte : Option ℕ → Bytes → Bytes
cons_byte none rest = []
cons_byte (some b) rest = b ∷ rest

unfoldable pub from_hex : Text → Bytes
unfolding byte_of digit_value
from_hex [] = []
from_hex (c ∷ []) = []
from_hex (c ∷ d ∷ r) = cons_byte (byte_of c d) (from_hex r)

pub digit_value-hex_digit : (d : ℕ) → d < 16 → digit_value (hex_digit d) ≡ some d
unfolding digit_value
digit_value-hex_digit d h = ground arith

byte_of-hex_digit : (b : ℕ) → b < 256 → byte_of (hex_digit (b / 16)) (hex_digit (b % 16)) ≡ some b
unfolding byte_of
byte_of-hex_digit b h =
    rw (digit_value-hex_digit (b / 16) (omega arith), digit_value-hex_digit (b % 16) (omega arith))
      (ap some (omega arith))

-- Bytes printed and read again.
pub from_hex-to_hex : (bs : Bytes) → IsBytes bs → from_hex (to_hex bs) ≡ bs
unfolding from_hex
from_hex-to_hex [] h = refl
from_hex-to_hex (b ∷ bs) h = rw (byte_of-hex_digit b h.0) (ap (◌∷◌ b) (from_hex-to_hex bs h.1))

-- A byte by `toString(16).padStart(2, '0')` is the byte by `toString('hex')`.
pub pad_start-to_base16 : (b : ℕ) → b < 256 → pad_start 2 b'0' (to_base16 b) ≡ to_hex (b ∷ [])
unfolding pad_start padding to_base16
pad_start-to_base16 b h = elim (Bool-cases (ltb b 16)) [
  | inl small ↦
      let low : b / 16 ≡ 0 = omega tests in
      let all : b % 16 ≡ b = omega tests in rw (small, low, all)
  | inr two ↦ rw two
]
