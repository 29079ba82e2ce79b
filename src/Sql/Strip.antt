-- ===== src/Sql/Strip.antt =====
-- What the strip of line comments leaves has no line comment.
pub mod Moves
use xchain_decoder.Prelude.{
  ℕ, ◌≡◌, ◌⊎◌, refl, sym, ap, ◌∙◌, inl, inr, Bool, true, false, Option, none, some, [], ◌∷◌, arith,
  ◌==◌, ==_iff, ◌&&◌, ◌||◌, if◌then◌else◌, Bool-cases,
}
use xchain_decoder.Prelude.Text.{Text}
use xchain_decoder.Sql.Grammar.{next_of}
use xchain_decoder.Sql.{
  moved, Mode, plain, quoted, block, line, Move, copy_one, copy_two, drop_one, is_quote, is_next,
  strip_move, opens_backslash_escape, strip_from, strip_sql_line_comments,
}
use xchain_decoder.Sql.Strip.Moves.{
  Proper, settled, IsStripMove, one, two, drops, strip_move-IsStripMove, IsAfter, copy_one-none,
  copy_one-newline, copy_one-same, copy_two-same,
}

-- A step of the strip, by its move.
pub strip-moved :
    (mode : Mode) (c d : ℕ) (sql : Text) (move : Move)
    → strip_move mode c (some d) ≡ move
    → strip_from mode (c ∷ d ∷ sql)
      ≡ moved
          (λ m. c ∷ strip_from m (d ∷ sql))
          (λ m. c ∷ d ∷ strip_from m sql)
          (λ m. strip_from m (d ∷ sql))
          []
          move
unfolding strip_from
strip-moved mode c d sql move e =
    ap
      (moved (λ m. c ∷ strip_from m (d ∷ sql)) (λ m. c ∷ d ∷ strip_from m sql)
        (λ m. strip_from m (d ∷ sql)) [])
      e

pub strip-last :
    (mode : Mode) (c : ℕ) (move : Move)
    → strip_move mode c none ≡ move
    → strip_from mode (c ∷ []) ≡ moved (λ m. c ∷ []) (λ m. c ∷ []) (λ m. []) [] move
unfolding strip_from
strip-last mode c move e = ap (moved (λ m. c ∷ []) (λ m. c ∷ []) (λ m. []) []) e

-- The rest of a comment's line is dropped up to its end.
next_of-line :
    (sql : Text)
    → (next_of (strip_from line sql) ≡ none) ⊎ (next_of (strip_from line sql) ≡ some 10)
unfolding strip_from moved
next_of-line [] = inl refl
next_of-line (c ∷ []) = elim (Bool-cases (c == 10)) [
  | inl e ↦
      inr
        (ap next_of (strip-last line c (copy_one plain) (rw e refl)) ∙ ap some ((==_iff c 10).0 e))
  | inr e ↦ inl (ap next_of (strip-last line c (drop_one line) (rw e refl)))
]
next_of-line (c ∷ d ∷ sql) = elim (Bool-cases (c == 10)) [
  | inl e ↦ inr (
      ap next_of (strip-moved line c d sql (copy_one plain) (rw e refl))
      ∙ ap some ((==_iff c 10).0 e))
  | inr e ↦
      let gone : strip_from line (c ∷ d ∷ sql) ≡ strip_from line (d ∷ sql) =
        strip-moved line c d sql (drop_one line) (rw e refl) in
      elim (next_of-line (d ∷ sql)) [
        | inl h ↦ inl (ap next_of gone ∙ h)
        | inr h ↦ inr (ap next_of gone ∙ h)
      ]
]

next_of-strip_from :
    (mode : Mode) (d : ℕ) (sql : Text)
    → Proper mode
    → IsAfter (some d) (next_of (strip_from mode (d ∷ sql)))
unfolding moved
next_of-strip_from mode d [] h = elim (strip_move-IsStripMove mode d none h) [
  | one m p s e ↦ inl (ap next_of (strip-last mode d (copy_one m) e))
  | two m p s e ↦ inl (ap next_of (strip-last mode d (copy_two m) e))
  | drops s e ↦ inr (inl (ap next_of (strip-last mode d (drop_one line) e)))
]
next_of-strip_from mode d (x ∷ sql) h = elim (strip_move-IsStripMove mode d (some x) h) [
  | one m p s e ↦ inl (ap next_of (strip-moved mode d x sql (copy_one m) e))
  | two m p s e ↦ inl (ap next_of (strip-moved mode d x sql (copy_two m) e))
  | drops s e ↦ inr (elim (next_of-line (x ∷ sql)) [
    | inl h ↦ inl (ap next_of (strip-moved mode d x sql (drop_one line) e) ∙ h)
    | inr h ↦ inr (ap next_of (strip-moved mode d x sql (drop_one line) e) ∙ h)
  ])
]

-- A copied unit is copied again in front of what is left.
copied :
    (mode m : Mode) (c : ℕ) (left : Text)
    → strip_move mode c (next_of left) ≡ copy_one m
    → strip_from mode (c ∷ left) ≡ c ∷ strip_from m left
unfolding moved strip_from
copied mode m c [] e = strip-last mode c (copy_one m) e
copied mode m c (x ∷ left) e = strip-moved mode c x left (copy_one m) e

copy_one-IsAfter :
    (mode m : Mode) (c d : ℕ) (left : Option ℕ)
    → Proper mode
    → strip_move mode c (some d) ≡ copy_one m
    → IsAfter (some d) left
    → strip_move (settled mode) c left ≡ copy_one m
copy_one-IsAfter mode m c d left h e (inl f) =
    ap (strip_move (settled mode) c) f ∙ copy_one-same mode m c (some d) e
copy_one-IsAfter mode m c d left h e (inr (inl f)) =
    ap (strip_move (settled mode) c) f ∙ copy_one-none mode m c d h e
copy_one-IsAfter mode m c d left h e (inr (inr f)) =
    ap (strip_move (settled mode) c) f ∙ copy_one-newline mode m c d h e

again_one :
    (mode m : Mode) (c d : ℕ) (sql : Text)
    → Proper mode
    → Proper m
    → settled m ≡ m
    → strip_move mode c (some d) ≡ copy_one m
    → strip_from (settled m) (strip_from m (d ∷ sql)) ≡ strip_from m (d ∷ sql)
    → strip_from (settled mode) (strip_from mode (c ∷ d ∷ sql)) ≡ strip_from mode (c ∷ d ∷ sql)
unfolding moved
again_one mode m c d sql h p s e same =
    let left = strip_from m (d ∷ sql) in
    let out : strip_from mode (c ∷ d ∷ sql) ≡ c ∷ left = strip-moved mode c d sql (copy_one m) e in
    ap (strip_from (settled mode)) out
    ∙ copied (settled mode) m c left
        (copy_one-IsAfter mode m c d (next_of left) h e (next_of-strip_from m d sql p))
    ∙ ap (λ t. c ∷ t) (ap (λ n. strip_from n left) (sym s) ∙ same)
    ∙ sym out

again_two :
    (mode m : Mode) (c d : ℕ) (sql : Text)
    → settled m ≡ m
    → strip_move mode c (some d) ≡ copy_two m
    → strip_from (settled m) (strip_from m sql) ≡ strip_from m sql
    → strip_from (settled mode) (strip_from mode (c ∷ d ∷ sql)) ≡ strip_from mode (c ∷ d ∷ sql)
unfolding moved
again_two mode m c d sql s e same =
    let left = strip_from m sql in
    let out : strip_from mode (c ∷ d ∷ sql) ≡ c ∷ d ∷ left =
      strip-moved mode c d sql (copy_two m) e in
    ap (strip_from (settled mode)) out
    ∙ strip-moved (settled mode) c d left (copy_two m) (copy_two-same mode m c (some d) e)
    ∙ ap (λ t. c ∷ d ∷ t) (ap (λ n. strip_from n left) (sym s) ∙ same)
    ∙ sym out

again_drop :
    (mode : Mode) (c d : ℕ) (sql : Text)
    → settled mode ≡ plain
    → strip_move mode c (some d) ≡ drop_one line
    → strip_from plain (strip_from line (d ∷ sql)) ≡ strip_from line (d ∷ sql)
    → strip_from (settled mode) (strip_from mode (c ∷ d ∷ sql)) ≡ strip_from mode (c ∷ d ∷ sql)
unfolding moved
again_drop mode c d sql s e same =
    let out : strip_from mode (c ∷ d ∷ sql) ≡ strip_from line (d ∷ sql) =
      strip-moved mode c d sql (drop_one line) e in
    ap (strip_from (settled mode)) out
    ∙ ap (λ n. strip_from n (strip_from line (d ∷ sql))) s
    ∙ same
    ∙ sym out

again_last :
    (mode : Mode) (c : ℕ)
    → IsStripMove mode (strip_move mode c none)
    → strip_from (settled mode) (strip_from mode (c ∷ [])) ≡ strip_from mode (c ∷ [])
unfolding moved strip_from
again_last mode c (one m p s e) =
    ap (strip_from (settled mode)) (strip-last mode c (copy_one m) e)
    ∙ strip-last (settled mode) c (copy_one m) (copy_one-same mode m c none e)
    ∙ sym (strip-last mode c (copy_one m) e)
again_last mode c (two m p s e) =
    ap (strip_from (settled mode)) (strip-last mode c (copy_two m) e)
    ∙ strip-last (settled mode) c (copy_two m) (copy_two-same mode m c none e)
    ∙ sym (strip-last mode c (copy_two m) e)
again_last mode c (drops s e) =
    ap (strip_from (settled mode)) (strip-last mode c (drop_one line) e)
    ∙ sym (strip-last mode c (drop_one line) e)

again :
    (mode : Mode) (sql : Text)
    → Proper mode
    → strip_from (settled mode) (strip_from mode sql) ≡ strip_from mode sql
unfolding strip_from
again mode [] h = refl
again mode (c ∷ []) h = again_last mode c (strip_move-IsStripMove mode c none h)
again mode (c ∷ d ∷ sql) h = elim (strip_move-IsStripMove mode c (some d) h) [
  | one m p s e ↦ again_one mode m c d sql h p s e (again m (d ∷ sql) p)
  | two m p s e ↦ again_two mode m c d sql s e (again m sql p)
  | drops s e ↦ again_drop mode c d sql s e (again line (d ∷ sql) refl)
]

-- A second strip changes nothing.
pub strip_sql_line_comments_idem :
    (sql : Text)
    → strip_sql_line_comments (strip_sql_line_comments sql) ≡ strip_sql_line_comments sql
unfolding strip_sql_line_comments
strip_sql_line_comments_idem sql = again plain sql refl
