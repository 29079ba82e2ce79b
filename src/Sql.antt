-- ===== src/Sql.antt =====
-- src/db/migration_statements.js: a migration's text without its line comments, and split into statements.
--
-- The loops' `quote` and the spans that are copied or skipped whole are a mode; one step looks at a unit
-- and the next one.
pub mod Split
pub mod Strip
pub mod Grammar
pub mod Exact
use xchain_decoder.Prelude.{
  ℕ, Bool, true, false, not, ◌&&◌, ◌||◌, Option, none, some, List, [], ◌∷◌, ◌++◌, map, ◌==◌,
  if◌then◌else◌,
}
use xchain_decoder.Prelude.Text.{Text}
use xchain_decoder.Batch.Keys.{trim}

pub data Mode : Type 0 where
  plain : Mode
  quoted : ℕ → Mode
  block : Mode
  line : Mode

-- What a step does with its unit, or with its unit and the next one.
pub data Move : Type 0 where
  copy_one : Mode → Move
  copy_two : Mode → Move
  drop_one : Mode → Move
  cut : Move

-- The rest of a step, by its move.
unfoldable pub moved : {A : Type 0} → (Mode → A) → (Mode → A) → (Mode → A) → A → Move → A
moved one two drop stop (copy_one m) = one m
moved one two drop stop (copy_two m) = two m
moved one two drop stop (drop_one m) = drop m
moved one two drop stop cut = stop

abbrev pub is_next : ℕ → Option ℕ → Bool
is_next c none = false
is_next c (some d) = d == c

abbrev is_there : Option ℕ → Bool
is_there none = false
is_there (some d) = true

-- 39, 34 and 96 are the three quotes.
abbrev pub is_quote : ℕ → Bool
is_quote c = c == 39 || c == 34 || c == 96

-- A backslash, except in a backtick span and at the end.
unfoldable pub opens_backslash_escape : ℕ → Option ℕ → ℕ → Bool
opens_backslash_escape c next quote = c == 92 && not (quote == 96) && is_there next

abbrev pub quoted_move : ℕ → ℕ → Option ℕ → Move
quoted_move quote c next =
    if opens_backslash_escape c next quote
    then copy_two (quoted quote)
    else if c == quote
    then (if is_next quote next then copy_two (quoted quote) else copy_one plain)
    else copy_one (quoted quote)

abbrev pub block_move : ℕ → Option ℕ → Move
block_move c next = if c == 42 && is_next 47 next then copy_two plain else copy_one block

-- Outside of quotes and comments: 47 42 opens a block comment, 45 45 and 35 a line comment.
abbrev pub strip_move : Mode → ℕ → Option ℕ → Move
strip_move plain c next =
    if is_quote c
    then copy_one (quoted c)
    else if c == 47 && is_next 42 next
    then copy_two block
    else if (c == 45 && is_next 45 next) || c == 35
    then drop_one line
    else copy_one plain
strip_move (quoted quote) c next = quoted_move quote c next
strip_move block c next = block_move c next
strip_move line c next = if c == 10 then copy_one plain else drop_one line

unfoldable pub strip_from : Mode → Text → Text
strip_from mode [] = []
strip_from mode (c ∷ []) = moved (λ m. c ∷ []) (λ m. c ∷ []) (λ m. []) [] (strip_move mode c none)
strip_from mode (c ∷ d ∷ sql) =
    moved (λ m. c ∷ strip_from m (d ∷ sql)) (λ m. c ∷ d ∷ strip_from m sql)
      (λ m. strip_from m (d ∷ sql)) [] (strip_move mode c (some d))

unfoldable pub strip_sql_line_comments : Text → Text
unfolding strip_from
strip_sql_line_comments sql = strip_from plain sql

-- 59 ends a statement; no line comment is left.
abbrev pub split_move : Mode → ℕ → Option ℕ → Move
split_move plain c next =
    if is_quote c
    then copy_one (quoted c)
    else if c == 47 && is_next 42 next
    then copy_two block
    else if c == 59
    then cut
    else copy_one plain
split_move (quoted quote) c next = quoted_move quote c next
split_move block c next = block_move c next
split_move line c next = copy_one line

unfoldable pub split_from : Mode → Text → Text → List Text
split_from mode current [] = current ∷ []
split_from mode current (c ∷ []) =
    moved (λ m. (current ++ c ∷ []) ∷ []) (λ m. (current ++ c ∷ []) ∷ []) (λ m. current ∷ [])
      (current ∷ [] ∷ []) (split_move mode c none)
split_from mode current (c ∷ d ∷ sql) =
    moved (λ m. split_from m (current ++ c ∷ []) (d ∷ sql))
      (λ m. split_from m (current ++ c ∷ d ∷ []) sql) (λ m. split_from m current (d ∷ sql))
      (current ∷ split_from plain [] (d ∷ sql)) (split_move mode c (some d))

-- `.filter(Boolean)`
abbrev pub nonempty : List Text → List Text
nonempty [] = []
nonempty ([] ∷ statements) = nonempty statements
nonempty ((c ∷ cs) ∷ statements) = (c ∷ cs) ∷ nonempty statements

unfoldable pub split_sql_statements : Text → List Text
unfolding split_from
split_sql_statements sql = nonempty (map trim (split_from plain [] (strip_sql_line_comments sql)))
