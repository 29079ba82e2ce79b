-- ===== src/Wire/Skip.antt =====
-- Walking a buffer: each step takes a buffer and an offset, and returns the offset behind what it
-- skipped. `Skips` says that a step skips exactly the bytes of a piece, wherever the piece stands.
use xchain_decoder.Prelude.{
  ℕ, zero, suc, ◌+◌, ◌^◌, ◌<◌, ◌≡◌, ap, List, [], ◌∷◌, ◌++◌, Result, ok, err, ◌>>=◌, leb,
  if◌then◌else◌, length, All, length-append, arith, le→leb, append_assoc,
}
use xchain_decoder.Wire.Bytes.{Bytes, What, WireError, too_short, Remains, Remains-skip}
use xchain_decoder.Wire.Varint.{read_varint}
use xchain_decoder.Wire.Varint.RoundTrip.{compact_size, read_varint-compact_size}

abbrev pub Step : Type 0
Step = Bytes → ℕ → Result WireError ℕ

-- `if (offset + n > buf.length) throw …; offset += n`
unfoldable pub skip_bytes : ℕ → What → Step
skip_bytes n what buf offset =
    if leb (offset + n) (length buf) then ok (offset + n) else err (too_short what)

-- A length by `readVarint`, and that many bytes, which only the next read checks.
unfoldable pub skip_var_bytes : Step
skip_var_bytes buf offset = do
  (value, bytes) ← read_varint buf offset
  ok (offset + (bytes + value))

-- `for (let i = 0; i < n; i++) …`
unfoldable pub skip_times : ℕ → Step → Step
skip_times zero step buf offset = ok offset
skip_times (suc n) step buf offset = do next ← step buf offset; skip_times n step buf next

pub record Skips (step : Step) (piece : Bytes) : Type 0 where
  pub at :
      (buf : Bytes) (offset : ℕ) (rest : Bytes)
      → Remains buf offset (piece ++ rest)
      → step buf offset ≡ ok (offset + length piece)

pub skip_bytes-Skips : (what : What) (piece : Bytes) → Skips (skip_bytes (length piece) what) piece
unfolding skip_bytes
skip_bytes-Skips what piece = record {
  at = λ buf offset rest r. rw (
      le→leb (offset + length piece) (length buf)
        (omega (arith, r.ends, length-append piece rest)));
}

-- A byte string behind its length.
abbrev pub var_slice : Bytes → Bytes
var_slice s = compact_size (length s) ++ s

pub skip_var_bytes-Skips : (s : Bytes) → length s < 2 ^ 53 → Skips skip_var_bytes (var_slice s)
unfolding skip_var_bytes
skip_var_bytes-Skips s h = record {
  at = λ buf offset rest r. rw (
    read_varint-compact_size (length s) (s ++ rest) h (rw append_assoc at r),
    length-append (compact_size (length s)) s,
  );
}

pub Skips-then :
    {f g : Step} {xs ys : Bytes}
    → Skips f xs
    → Skips g ys
    → Skips (λ buf offset. f buf offset >>= g buf) (xs ++ ys)
Skips-then {f} {g} {xs} {ys} sf sg = record {
  at = λ buf offset rest r.
      let r' = rw append_assoc at r in
      rw
        (
          sf.at buf offset (ys ++ rest) r',
          sg.at buf (offset + length xs) rest (Remains-skip xs _ r'),
        )
        (ap ok (omega (arith, length-append xs ys)));
}

module _ {ℓ} {A : Type ℓ} (render : A → Bytes) where
  abbrev pub render_all : List A → Bytes
  render_all [] = []
  render_all (x ∷ xs) = render x ++ render_all xs

module _ {ℓ} {A : Type ℓ} (step : Step) (render : A → Bytes) where
  pub skip_times-Skips :
      (xs : List A)
      → All (λ x. Skips step (render x)) xs
      → Skips (skip_times (length xs) step) (render_all render xs)
  unfolding skip_times
  skip_times-Skips [] h = record { at = λ buf offset rest r. ap ok (omega arith) }
  skip_times-Skips (x ∷ xs) h = Skips-then h.0 (skip_times-Skips xs h.1)
