-- ===== src/Sql/Strip/Moves.antt =====
-- What the strip of line comments does with a unit.
use xchain_decoder.Prelude.{
  ℕ, ◌≡◌, ◌⊎◌, refl, Bool, true, false, Option, none, some, arith, ◌==◌, ◌&&◌, ◌||◌, if◌then◌else◌,
}
use xchain_decoder.Sql.{
  Mode, plain, quoted, block, line, Move, copy_one, copy_two, drop_one, is_quote, is_next,
  strip_move, opens_backslash_escape,
}

-- A mode's quote is one of the three.
abbrev pub Proper : Mode → Type 0
Proper plain = true ≡ true
Proper (quoted quote) = is_quote quote ≡ true
Proper block = true ≡ true
Proper line = true ≡ true

-- A dropped comment is gone when the text is read again.
abbrev pub settled : Mode → Mode
settled plain = plain
settled (quoted quote) = quoted quote
settled block = block
settled line = plain

pub data IsStripMove (mode : Mode) (move : Move) : Type 0 where
  one : (m : Mode) → Proper m → settled m ≡ m → move ≡ copy_one m → IsStripMove mode move
  two : (m : Mode) → Proper m → settled m ≡ m → move ≡ copy_two m → IsStripMove mode move
  drops : settled mode ≡ plain → move ≡ drop_one line → IsStripMove mode move

IsStripMove-if :
    (mode : Mode) (b : Bool) (x y : Move)
    → (b ≡ true → IsStripMove mode x)
    → (b ≡ false → IsStripMove mode y)
    → IsStripMove mode (if b then x else y)
IsStripMove-if mode true x y t f = t refl
IsStripMove-if mode false x y t f = f refl

pub strip_move-IsStripMove :
    (mode : Mode) (c : ℕ) (next : Option ℕ)
    → Proper mode
    → IsStripMove mode (strip_move mode c next)
strip_move-IsStripMove plain c next h =
    IsStripMove-if plain (is_quote c) (copy_one (quoted c))
      (if c == 47 && is_next 42 next
        then copy_two block
        else if (c == 45 && is_next 45 next) || c == 35
        then drop_one line
        else copy_one plain)
      (λ e. one (quoted c) e refl refl)
      (λ e.
        IsStripMove-if plain (c == 47 && is_next 42 next) (copy_two block)
          (if (c == 45 && is_next 45 next) || c == 35 then drop_one line else copy_one plain)
          (λ e. two block refl refl refl)
          (λ e.
            IsStripMove-if plain ((c == 45 && is_next 45 next) || c == 35) (drop_one line)
              (copy_one plain) (λ e. drops refl refl) (λ e. one plain refl refl refl)))
strip_move-IsStripMove (quoted quote) c next h =
    IsStripMove-if (quoted quote) (opens_backslash_escape c next quote) (copy_two (quoted quote))
      (if c == quote
        then (if is_next quote next then copy_two (quoted quote) else copy_one plain)
        else copy_one (quoted quote))
      (λ e. two (quoted quote) h refl refl)
      (λ e.
        IsStripMove-if (quoted quote) (c == quote)
          (if is_next quote next then copy_two (quoted quote) else copy_one plain)
          (copy_one (quoted quote))
          (λ e.
            IsStripMove-if (quoted quote) (is_next quote next) (copy_two (quoted quote))
              (copy_one plain) (λ e. two (quoted quote) h refl refl)
              (λ e. one plain refl refl refl))
          (λ e. one (quoted quote) h refl refl))
strip_move-IsStripMove block c next h =
    IsStripMove-if block (c == 42 && is_next 47 next) (copy_two plain) (copy_one block)
      (λ e. two plain refl refl refl) (λ e. one block refl refl refl)
strip_move-IsStripMove line c next h =
    IsStripMove-if line (c == 10) (copy_one plain) (drop_one line) (λ e. one plain refl refl refl)
      (λ e. drops refl refl)

-- What stands after a kept unit: what stood there, the end, or the end of a comment's line.
abbrev pub IsAfter : Option ℕ → Option ℕ → Type 0
IsAfter next left = (left ≡ next) ⊎ ((left ≡ none) ⊎ (left ≡ some 10))

pub copy_one-none :
    (mode m : Mode) (c d : ℕ)
    → Proper mode
    → strip_move mode c (some d) ≡ copy_one m
    → strip_move (settled mode) c none ≡ copy_one m
unfolding opens_backslash_escape
copy_one-none plain m c d h e = ground arith
copy_one-none (quoted quote) m c d h e = ground arith
copy_one-none block m c d h e = ground arith
copy_one-none line m c d h e = ground arith

pub copy_one-newline :
    (mode m : Mode) (c d : ℕ)
    → Proper mode
    → strip_move mode c (some d) ≡ copy_one m
    → strip_move (settled mode) c (some 10) ≡ copy_one m
unfolding opens_backslash_escape
copy_one-newline plain m c d h e = ground arith
copy_one-newline (quoted quote) m c d h e = ground arith
copy_one-newline block m c d h e = ground arith
copy_one-newline line m c d h e = ground arith

pub copy_one-same :
    (mode m : Mode) (c : ℕ) (next : Option ℕ)
    → strip_move mode c next ≡ copy_one m
    → strip_move (settled mode) c next ≡ copy_one m
copy_one-same plain m c next e = e
copy_one-same (quoted quote) m c next e = e
copy_one-same block m c next e = e
copy_one-same line m c next e = ground arith

pub copy_two-same :
    (mode m : Mode) (c : ℕ) (next : Option ℕ)
    → strip_move mode c next ≡ copy_two m
    → strip_move (settled mode) c next ≡ copy_two m
copy_two-same plain m c next e = e
copy_two-same (quoted quote) m c next e = e
copy_two-same block m c next e = e
copy_two-same line m c next e = ground arith
