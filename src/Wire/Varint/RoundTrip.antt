-- ===== src/Wire/Varint/RoundTrip.antt =====
-- The varint reader against Bitcoin's CompactSize format, and against the encoder.
use native.Mathlib.Nat.{add_assoc}
use xchain_decoder.Prelude.{
  ℕ, zero, suc, ◌+◌, ◌*◌, ◌/◌, ◌%◌, ◌^◌, ◌<◌, ◌≤◌, ◌≡◌, sym, ◌∙◌, [], ◌∷◌, ◌++◌, ok, err, leb, ltb,
  if◌then◌else◌, length, arith, tests, Bool-cases, inl, inr,
}
use xchain_decoder.Prelude.Text.{Text}
use xchain_decoder.Wire.Bytes.{
  Bytes, IsBytes, varint_range, le_bytes, Remains, Remains-tail, Remains-head, Remains-skip,
  Remains-append, read_uint_le-le_bytes, read_uint_le-fits, get_elem?-fits,
}
use xchain_decoder.Wire.Varint.Hex.{to_hex, from_hex, from_hex-to_hex, pad_start-to_base16}
use xchain_decoder.Wire.Varint.{to_number_exact, read_varint, encode_varint_hex}

-- Bitcoin's CompactSize of a number below 2^64, in its shortest form.
abbrev pub compact_size : ℕ → Bytes
compact_size v =
    if ltb v 0xFD
    then v ∷ []
    else if leb v 0xFFFF
    then 0xFD ∷ le_bytes 2 v
    else if leb v 0xFFFFFFFF
    then 0xFE ∷ le_bytes 4 v
    else 0xFF ∷ (le_bytes 4 (v % 0x100000000) ++ le_bytes 4 (v / 0x100000000))

module _ {buf : Bytes} {offset : ℕ} (v : ℕ) (rest : Bytes) where
  read_direct : v < 0xFD → Remains buf offset (v ∷ rest) → read_varint buf offset ≡ ok (v, 1)
  unfolding read_varint
  read_direct h r = rw (Remains-head v rest r) (ground arith)

  read_two :
      v < 2 ^ 16
      → Remains buf offset (0xFD ∷ (le_bytes 2 v ++ rest))
      → read_varint buf offset ≡ ok (v, 3)
  unfolding read_varint
  read_two h r =
      rw (Remains-head 0xFD _ r, read_uint_le-le_bytes 2 v rest h (Remains-tail 0xFD _ r))

  read_four :
      v < 2 ^ 32
      → Remains buf offset (0xFE ∷ (le_bytes 4 v ++ rest))
      → read_varint buf offset ≡ ok (v, 5)
  unfolding read_varint
  read_four h r =
      rw (Remains-head 0xFE _ r, read_uint_le-le_bytes 4 v rest h (Remains-tail 0xFE _ r))

  read_eight :
      v < 2 ^ 53
      → Remains buf offset
          (0xFF ∷ ((le_bytes 4 (v % 0x100000000) ++ le_bytes 4 (v / 0x100000000)) ++ rest))
      → read_varint buf offset ≡ ok (v, 9)
  unfolding read_varint
  read_eight h r =
      let low = v % 0x100000000 in
      let high = v / 0x100000000 in
      let tail = Remains-tail 0xFF _ r in
      let last = rw (add_assoc offset 1 4) at (Remains-skip (le_bytes 4 low) _ tail) in
      let joined : high * 0x100000000 + low ≡ v = omega arith in
      rw (
        Remains-head 0xFF _ r,
        read_uint_le-le_bytes 4 low (le_bytes 4 high ++ rest) (omega arith) tail,
        read_uint_le-le_bytes 4 high rest (omega arith) last,
        joined,
        to_number_exact v h,
      )

-- Up to the largest integer that a JavaScript number holds exactly, `readVarint` reads the
-- CompactSize form back, wherever it stands in the buffer.
pub read_varint-compact_size :
    (v : ℕ) {buf : Bytes} {offset : ℕ} (rest : Bytes)
    → v < 2 ^ 53
    → Remains buf offset (compact_size v ++ rest)
    → read_varint buf offset ≡ ok (v, length (compact_size v))
read_varint-compact_size v {buf} {offset} rest fits r = elim (Bool-cases (ltb v 0xFD)) [
  | inl one ↦ rw one (read_direct v rest (omega tests) (rw one at r))
  | inr more ↦ elim (Bool-cases (leb v 0xFFFF)) [
    | inl two ↦ rw (more, two) (read_two v rest (omega tests) (rw (more, two) at r))
    | inr more' ↦ elim (Bool-cases (leb v 0xFFFFFFFF)) [
      | inl four ↦
          rw (more, more', four) (read_four v rest (omega tests) (rw (more, more', four) at r))
      | inr eight ↦ rw (more, more', eight) (read_eight v rest fits (rw (more, more', eight) at r))
    ]
  ]
]

-- A read that succeeds takes at least one byte, and all that it takes is in the buffer.
pub read_varint-fits :
    (buf : Bytes) (offset v n : ℕ)
    → read_varint buf offset ≡ ok (v, n)
    → (1 ≤ n) × (offset + n ≤ length buf)
unfolding read_varint
read_varint-fits buf offset v n h = grind (arith, read_uint_le-fits, get_elem?-fits)

le_bytes-IsBytes : (n v : ℕ) → IsBytes (le_bytes n v)
le_bytes-IsBytes zero v = tt
le_bytes-IsBytes (suc n) v = (omega arith, le_bytes-IsBytes n (v / 256))

-- `encodeVarintHex` prints the CompactSize form of every value up to 2^32 - 1, and throws on every
-- other one.
pub encode_varint_hex-compact_size :
    (v : ℕ)
    → encode_varint_hex v
      ≡ (if leb v 0xFFFFFFFF then ok (to_hex (compact_size v)) else err (varint_range v))
unfolding encode_varint_hex
encode_varint_hex-compact_size v = ground (arith, pad_start-to_base16 v)

compact_size-IsBytes : (v : ℕ) → v ≤ 0xFFFFFFFF → IsBytes (compact_size v)
compact_size-IsBytes v h = ground arith

encoded_size :
    (v : ℕ) (hex : Text)
    → encode_varint_hex v ≡ ok hex
    → (v ≤ 0xFFFFFFFF) × (from_hex hex ≡ compact_size v)
encoded_size v hex h = elim (Bool-cases (leb v 0xFFFFFFFF)) [
  | inl fits ↦
      let printed = sym (encode_varint_hex-compact_size v) ∙ h in
      let back = from_hex-to_hex (compact_size v) (compact_size-IsBytes v (omega tests)) in
      (omega tests, cc (rw fits at printed, back))
  | inr wide ↦ cc (rw wide at (sym (encode_varint_hex-compact_size v) ∙ h))
]

-- What `encodeVarintHex` prints, decoded from hexadecimal and put anywhere into a buffer, is read by
-- `readVarint` as the value that was encoded, and the bytes consumed are those printed.
pub read_varint-encode_varint_hex :
    (v : ℕ) (hex : Text) (pre rest : Bytes)
    → encode_varint_hex v ≡ ok hex
    → read_varint (pre ++ (from_hex hex ++ rest)) (length pre) ≡ ok (v, length (from_hex hex))
read_varint-encode_varint_hex v hex pre rest h =
    let (small, bytes) = encoded_size v hex h in
    rw bytes (read_varint-compact_size v rest (omega arith) (Remains-append pre _))
