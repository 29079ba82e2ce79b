-- ===== src/Wire/Bytes.antt =====
-- Node.js `Buffer`s as lists of numbers, with the readers that the wire code calls. A read past the
-- end throws a `RangeError`, here `out_of_range`.
use native.Mathlib.Nat.{pow-suc}
use xchain_decoder.Prelude.{
  ℕ, zero, suc, ◌+◌, ◌*◌, ◌/◌, ◌%◌, ◌^◌, ◌≤◌, ◌<◌, ◌≡◌, refl, sym, ap, ◌∙◌, List, [], ◌∷◌, ◌++◌,
  Result, ok, err, leb, if◌then◌else◌, length, take, drop, All, length-append, drop-length-append,
  drop-drop, arith, le→leb, get_elem?, get_elem?-drop, some,
}

abbrev pub Bytes : Type 0
Bytes = List ℕ

abbrev pub IsBytes : Bytes → Type 0
IsBytes = All (λ b. b < 256)

-- What a structure must still hold when the buffer ends too early: the last words of the message.
pub data What : Type 0 where
  coinbase_version coinbase_prevout coinbase_sequence coinbase_value coinbase_locktime : What
  parent_hash coinbase_branch chain_branch parent_header : What
  input_count input_prevout input_script input_sequence : What
  output_count output_value output_script : What
  witness_count witness_item mweb_tag locktime : What

-- What the wire code throws.
pub data WireError : Type 0 where
  out_of_range : WireError
  too_short : What → WireError
  unsafe_integer : What → WireError
  varint_range : ℕ → WireError
  inner_mweb_part : WireError

-- The value of little-endian digits.
abbrev pub le_value : Bytes → ℕ
le_value [] = 0
le_value (b ∷ bs) = b + 256 * le_value bs

-- `n` little-endian digits of `v`, as `writeUInt16LE` and its kin store them.
abbrev pub le_bytes : ℕ → ℕ → Bytes
le_bytes zero v = []
le_bytes (suc n) v = v % 256 ∷ le_bytes n (v / 256)

-- `readUInt16LE`, `readUInt32LE` and `readBigUInt64LE` at widths 2, 4 and 8.
unfoldable pub read_uint_le : ℕ → Bytes → ℕ → Result WireError ℕ
read_uint_le n buf offset =
    if leb (offset + n) (length buf)
    then ok (le_value (take n (drop offset buf)))
    else err out_of_range

-- From `offset` on, the buffer holds exactly `rest`.
pub record Remains (buf : Bytes) (offset : ℕ) (rest : Bytes) : Type 0 where
  pub drops : drop offset buf ≡ rest
  pub ends : offset + length rest ≡ length buf

pub Remains-append : (pre rest : Bytes) → Remains (pre ++ rest) (length pre) rest
Remains-append pre rest = record {
  drops = drop-length-append pre rest;
  ends = sym (length-append pre rest);
}

pub Remains-skip :
    {buf : Bytes} {offset : ℕ} (xs ys : Bytes)
    → Remains buf offset (xs ++ ys)
    → Remains buf (offset + length xs) ys
Remains-skip {buf} {offset} xs ys r = record {
  drops =
      sym (drop-drop offset (length xs) buf)
      ∙ ap (drop (length xs)) r.drops
      ∙ drop-length-append xs ys;
  ends = omega (arith, r.ends, length-append xs ys);
}

pub length-le_bytes : (n v : ℕ) → length (le_bytes n v) ≡ n
length-le_bytes zero v = refl
length-le_bytes (suc n) v = ap suc (length-le_bytes n (v / 256))

-- Digits give back every value that fits.
pub le_value-le_bytes : (n v : ℕ) → v < 256 ^ n → le_value (le_bytes n v) ≡ v
le_value-le_bytes zero v h = omega arith
le_value-le_bytes (suc n) v h =
    let p : 256 ^ suc n ≡ 256 ^ n * 256 = pow-suc 256 n in
    omega (arith, le_value-le_bytes n (v / 256) (omega arith))

take-le_bytes : (n v : ℕ) (rest : Bytes) → take n (le_bytes n v ++ rest) ≡ le_bytes n v
take-le_bytes zero v rest = refl
take-le_bytes (suc n) v rest = ap (◌∷◌ (v % 256)) (take-le_bytes n (v / 256) rest)

pub read_uint_le-le_bytes :
    (n v : ℕ) {buf : Bytes} {offset : ℕ} (rest : Bytes)
    → v < 256 ^ n
    → Remains buf offset (le_bytes n v ++ rest)
    → read_uint_le n buf offset ≡ ok v
unfolding read_uint_le
read_uint_le-le_bytes n v {buf} {offset} rest fits r =
    let fit : offset + n ≤ length buf =
      omega (arith, r.ends, length-append (le_bytes n v) rest, length-le_bytes n v) in
    rw (le→leb _ _ fit, r.drops, take-le_bytes n v rest, le_value-le_bytes n v fits)

pub Remains-tail :
    {buf : Bytes} {offset : ℕ} (x : ℕ) (rest : Bytes)
    → Remains buf offset (x ∷ rest)
    → Remains buf (offset + 1) rest
Remains-tail x rest r = Remains-skip (x ∷ []) rest r

pub Remains-head :
    {buf : Bytes} {offset : ℕ} (x : ℕ) (rest : Bytes)
    → Remains buf offset (x ∷ rest)
    → get_elem? buf offset ≡ some x
Remains-head {buf} {offset} x rest r = get_elem?-drop offset buf ∙ ap (λ xs. get_elem? xs 0) r.drops

-- A read that succeeds stays in the buffer.
pub read_uint_le-fits :
    (n : ℕ) (buf : Bytes) (offset v : ℕ)
    → read_uint_le n buf offset ≡ ok v
    → offset + n ≤ length buf
unfolding read_uint_le
read_uint_le-fits n buf offset v h = ground arith

pub get_elem?-fits :
    (buf : Bytes) (offset x : ℕ) → get_elem? buf offset ≡ some x → offset < length buf
get_elem?-fits [] offset x h = cc
get_elem?-fits (y ∷ ys) zero x h = omega arith
get_elem?-fits (y ∷ ys) (suc i) x h = omega (arith, get_elem?-fits ys i x h)
