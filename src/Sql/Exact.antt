-- ===== src/Sql/Exact.antt =====
-- The strip drops the line comments, keeps all else, and leaves no line comment.
use xchain_decoder.Prelude.{
  ℕ, ◌≤◌, ◌≡◌, ◌≢◌, ◌⊎◌, refl, inl, inr, sym, ap, ◌∙◌, true, false, Option, none, some, [], ◌∷◌,
  length, arith, ◌==◌, ==_iff, ◌&&◌, ◌||◌, if◌then◌else◌, Bool-cases,
}
use mathlib.Core.Path.{subst}
use xchain_decoder.Prelude.Text.{Text}
use xchain_decoder.Sql.{
  moved, Mode, plain, quoted, block, line, copy_one, copy_two, drop_one, is_next, strip_move,
  strip_from, strip_sql_line_comments,
}
use xchain_decoder.Sql.Grammar.{
  next_of, IsOne, bare, line_end, IsTwo, Reads, done, one, two, not-IsTwo-none, IsMove, is_one,
  is_two, is_cut, is_drop, IsMove-if, quoted_move-IsMove, block_move-IsMove, plain_move-IsMove,
}
use xchain_decoder.Sql.Strip.{strip-moved, strip-last, strip_sql_line_comments_idem}

-- `#` starts a line comment, and `--` does.
abbrev pub IsNoComment : ℕ → Option ℕ → Type 0
IsNoComment c next = (c ≢ 35) × ¬ ((c ≡ 45) × (next ≡ some 45))

-- A dropped unit starts a line comment outside of quotes and block comments, or is one of its line.
abbrev pub IsDropped : ℕ → Option ℕ → Mode → Type 0
IsDropped c next mode =
    ((mode ≡ plain) × ((c ≡ 35) ⊎ ((c ≡ 45) × (next ≡ some 45)))) ⊎ ((mode ≡ line) × (c ≢ 10))

-- `out` is `sql` less its line comments; the end of a comment's line is kept.
pub data Strips : Mode → Text → Text → Type 0 where
  ended : {mode : Mode} → Strips mode [] []
  kept_one :
      {mode m : Mode} {c : ℕ} {sql out : Text}
      → IsOne IsNoComment c (next_of sql) mode m
      → Strips m sql out
      → Strips mode (c ∷ sql) (c ∷ out)
  kept_two :
      {mode m : Mode} {c d : ℕ} {sql out : Text}
      → IsTwo c (some d) mode m
      → Strips m sql out
      → Strips mode (c ∷ d ∷ sql) (c ∷ d ∷ out)
  dropped :
      {mode : Mode} {c : ℕ} {sql out : Text}
      → IsDropped c (next_of sql) mode
      → Strips line sql out
      → Strips mode (c ∷ sql) out

comment_is :
    (c : ℕ) (next : Option ℕ)
    → ((c == 45 && is_next 45 next) || c == 35) ≡ true
    → (c ≡ 35) ⊎ ((c ≡ 45) × (next ≡ some 45))
comment_is c none e = ground arith
comment_is c (some d) e = elim (Bool-cases (c == 35)) [
  | inl hash ↦ inl ((==_iff c 35).0 hash)
  | inr other ↦ inr (ground arith, ap some (ground arith))
]

comment_is_not :
    (c : ℕ) (next : Option ℕ)
    → ((c == 45 && is_next 45 next) || c == 35) ≡ false
    → IsNoComment c next
comment_is_not c none e = (λ f. ground arith, λ (f, g). cc)
comment_is_not c (some d) e = (λ f. ground arith, λ (f, g). ground arith)

strip_move-IsMove :
    (mode : Mode) (c : ℕ) (next : Option ℕ)
    → IsMove IsNoComment ⊥ (IsDropped c next mode) mode c next (strip_move mode c next)
strip_move-IsMove plain c next =
    plain_move-IsMove IsNoComment _ _ c next
      (if (c == 45 && is_next 45 next) || c == 35 then drop_one line else copy_one plain)
      (λ q s.
        IsMove-if IsNoComment _ _ ((c == 45 && is_next 45 next) || c == 35) _ _
          (λ e. is_drop (inl (refl, comment_is c next e)) refl)
          (λ e. is_one plain (bare q s (comment_is_not c next e)) refl))
strip_move-IsMove (quoted q) c next = quoted_move-IsMove IsNoComment _ _ q c next
strip_move-IsMove block c next = block_move-IsMove IsNoComment _ _ c next
strip_move-IsMove line c next =
    IsMove-if IsNoComment _ _ (c == 10) _ _ (λ e. is_one plain (line_end ((==_iff c 10).0 e)) refl)
      (λ e. is_drop (inr (refl, λ f. cc (e, (==_iff c 10).1 f))) refl)

strip-one :
    (mode m : Mode) (c d : ℕ) (sql : Text)
    → strip_move mode c (some d) ≡ copy_one m
    → strip_from mode (c ∷ d ∷ sql) ≡ c ∷ strip_from m (d ∷ sql)
unfolding moved
strip-one mode m c d sql e = strip-moved mode c d sql (copy_one m) e

strip-two :
    (mode m : Mode) (c d : ℕ) (sql : Text)
    → strip_move mode c (some d) ≡ copy_two m
    → strip_from mode (c ∷ d ∷ sql) ≡ c ∷ d ∷ strip_from m sql
unfolding moved
strip-two mode m c d sql e = strip-moved mode c d sql (copy_two m) e

strip-drop :
    (mode : Mode) (c d : ℕ) (sql : Text)
    → strip_move mode c (some d) ≡ drop_one line
    → strip_from mode (c ∷ d ∷ sql) ≡ strip_from line (d ∷ sql)
unfolding moved
strip-drop mode c d sql e = strip-moved mode c d sql (drop_one line) e

Strips-last :
    (mode : Mode) (c : ℕ)
    → IsMove IsNoComment ⊥ (IsDropped c none mode) mode c none (strip_move mode c none)
    → Strips mode (c ∷ []) (strip_from mode (c ∷ []))
unfolding moved
Strips-last mode c (is_one m h e) = rw (strip-last mode c (copy_one m) e) (kept_one h ended)
Strips-last mode c (is_two m h e) = absurd (not-IsTwo-none h)
Strips-last mode c (is_cut h e) = absurd h
Strips-last mode c (is_drop h e) = rw (strip-last mode c (drop_one line) e) (dropped h ended)

strips : (mode : Mode) (sql : Text) → Strips mode sql (strip_from mode sql)
unfolding strip_from
strips mode [] = ended
strips mode (c ∷ []) = Strips-last mode c (strip_move-IsMove mode c none)
strips mode (c ∷ d ∷ sql) = elim (strip_move-IsMove mode c (some d)) [
  | is_one m h e ↦
      subst (Strips mode (c ∷ d ∷ sql)) (sym (strip-one mode m c d sql e))
        (kept_one h (strips m (d ∷ sql)))
  | is_two m h e ↦
      subst (Strips mode (c ∷ d ∷ sql)) (sym (strip-two mode m c d sql e))
        (kept_two h (strips m sql))
  | is_cut h e ↦ absurd h
  | is_drop h e ↦
      subst (Strips mode (c ∷ d ∷ sql)) (sym (strip-drop mode c d sql e))
        (dropped h (strips line (d ∷ sql)))
]

Strips-shorter : {mode : Mode} {sql out : Text} → Strips mode sql out → length out ≤ length sql
Strips-shorter ended = omega arith
Strips-shorter (kept_one h s) = omega (arith, Strips-shorter s)
Strips-shorter (kept_two h s) = omega (arith, Strips-shorter s)
Strips-shorter (dropped h s) = omega (arith, Strips-shorter s)

-- A text that the strip leaves as it is has no line comment.
reads-last :
    (mode : Mode) (c : ℕ)
    → IsMove IsNoComment ⊥ (IsDropped c none mode) mode c none (strip_move mode c none)
    → strip_from mode (c ∷ []) ≡ c ∷ []
    → (e : Mode) × Reads IsNoComment mode (c ∷ []) e
unfolding moved
reads-last mode c (is_one m h e) same = (m, one h done)
reads-last mode c (is_two m h e) same = absurd (not-IsTwo-none h)
reads-last mode c (is_cut h e) same = absurd h
reads-last mode c (is_drop h e) same =
    let gone : strip_from mode (c ∷ []) ≡ [] = strip-last mode c (drop_one line) e in cc

reads :
    (mode : Mode) (sql : Text)
    → strip_from mode sql ≡ sql
    → (e : Mode) × Reads IsNoComment mode sql e
reads mode [] same = (mode, done)
reads mode (c ∷ []) same = reads-last mode c (strip_move-IsMove mode c none) same
reads mode (c ∷ d ∷ sql) same = elim (strip_move-IsMove mode c (some d)) [
  | is_one m h e ↦
      let out = strip-one mode m c d sql e in
      let rest : strip_from m (d ∷ sql) ≡ d ∷ sql = cc in
      let (end, r) = reads m (d ∷ sql) rest in (end, one h r)
  | is_two m h e ↦
      let out = strip-two mode m c d sql e in
      let rest : strip_from m sql ≡ sql = cc in let (end, r) = reads m sql rest in (end, two h r)
  | is_cut h e ↦ absurd h
  | is_drop h e ↦
      let out : strip_from line (d ∷ sql) ≡ c ∷ d ∷ sql = sym (strip-drop mode c d sql e) ∙ same in
      let longer : length (strip_from line (d ∷ sql)) ≡ length (c ∷ d ∷ sql) = ap length out in
      absurd (omega (arith, longer, Strips-shorter (strips line (d ∷ sql))))
]

-- Whatever the text is, the strip drops exactly its line comments: from a `#` or a `--` that stands outside
-- of quotes and block comments up to the end of its line, which is kept like all else; and what is left, read
-- by the same rules, has no `#` and no `--` outside of quotes and block comments.
pub strip_sql_line_comments_exact :
    (sql : Text)
    → Strips plain sql (strip_sql_line_comments sql)
      × ((e : Mode) × Reads IsNoComment plain (strip_sql_line_comments sql) e)
unfolding strip_sql_line_comments
strip_sql_line_comments_exact sql =
    (strips plain sql, reads plain (strip_from plain sql) (strip_sql_line_comments_idem sql))
