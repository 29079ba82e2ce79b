-- ===== src/Sql/Split/Moves.antt =====
-- The steps of the splitter, and the pieces of a text.
use xchain_decoder.Prelude.{
  ℕ, ◌≡◌, ◌≢◌, refl, inr, sym, ap, ◌∙◌, Option, none, some, List, [], ◌∷◌, ◌++◌, ◌==◌, ==_iff,
  if◌then◌else◌,
}
use xchain_decoder.Prelude.Text.{Text, join}
use xchain_decoder.Sql.{
  moved, Mode, plain, quoted, block, line, Move, copy_one, copy_two, cut, split_move, split_from,
}
use xchain_decoder.Sql.Grammar.{
  IsOne, bare, opens, inside, closes, commented, line_end, IsTwo, starts, doubled, escaped, ends,
  Reads, IsMove, is_one, is_cut, IsMove-if, quoted_move-IsMove, block_move-IsMove,
  plain_move-IsMove,
}

-- Between statements' ends.
abbrev pub IsNoEnd : ℕ → Option ℕ → Type 0
IsNoEnd c next = c ≢ 59

abbrev pub IsText : Mode → Type 0
IsText plain = Unit
IsText (quoted q) = Unit
IsText block = Unit
IsText line = ⊥

pub IsOne-IsText :
    {mode m : Mode} {c : ℕ} {next : Option ℕ} → IsOne IsNoEnd c next mode m → IsText m
IsOne-IsText (bare q s b) = tt
IsOne-IsText (opens q) = tt
IsOne-IsText (inside a b) = tt
IsOne-IsText (closes a b) = tt
IsOne-IsText (commented a) = tt
IsOne-IsText (line_end e) = tt

pub IsTwo-IsText : {mode m : Mode} {c : ℕ} {next : Option ℕ} → IsTwo c next mode m → IsText m
IsTwo-IsText (starts e f) = tt
IsTwo-IsText (doubled e f) = tt
IsTwo-IsText (escaped e f g) = tt
IsTwo-IsText (ends e f) = tt

-- A cut is at a bare `;`, and nothing is dropped.
pub split_move-IsMove :
    (mode : Mode) (c : ℕ) (next : Option ℕ)
    → IsText mode
    → IsMove IsNoEnd ((mode ≡ plain) × (c ≡ 59)) ⊥ mode c next (split_move mode c next)
split_move-IsMove plain c next h =
    plain_move-IsMove IsNoEnd _ _ c next (if c == 59 then cut else copy_one plain) (λ q s.
      IsMove-if IsNoEnd _ _ (c == 59) _ _ (λ e. is_cut (refl, (==_iff c 59).0 e) refl)
        (λ e. is_one plain (bare q s (λ f. cc (e, (==_iff c 59).1 f))) refl))
split_move-IsMove (quoted q) c next h = quoted_move-IsMove IsNoEnd _ _ q c next
split_move-IsMove block c next h = block_move-IsMove IsNoEnd _ _ c next
split_move-IsMove line c next h = absurd h

-- A unit by itself is one at the end of a piece too.
pub IsOne-last :
    {mode m : Mode} {c d : ℕ} → IsOne IsNoEnd c (some d) mode m → IsOne IsNoEnd c none mode m
IsOne-last (bare q s b) = bare q (λ (e, f). cc) b
IsOne-last (opens q) = opens q
IsOne-last (inside a b) = inside a (λ e. inr refl)
IsOne-last (closes a b) = closes a (λ f. cc)
IsOne-last (commented a) = commented (λ (e, f). cc)
IsOne-last (line_end e) = line_end e

-- Every piece but the last ends outside of quotes and comments, and no piece has a bare `;`.
abbrev pub AreRead : Mode → Text → List Text → Type 0
AreRead mode first [] = (e : Mode) × Reads IsNoEnd mode first e
AreRead mode first (piece ∷ rest) = Reads IsNoEnd mode first plain × AreRead plain piece rest

-- The pieces of `sql` read in `mode`: the first one goes on with what was read before.
pub record IsPieces (mode : Mode) (sql first : Text) (rest : List Text) : Type 0 where
  pub whole : join 59 (first ∷ rest) ≡ sql
  pub read : AreRead mode first rest
  pub run : (current : Text) → split_from mode current sql ≡ (current ++ first) ∷ rest

pub join-cons :
    (c : ℕ) (first : Text) (rest : List Text)
    → join 59 ((c ∷ first) ∷ rest) ≡ c ∷ join 59 (first ∷ rest)
join-cons c first [] = refl
join-cons c first (x ∷ xs) = refl

pub join-head :
    (x d : ℕ) (first sql : Text) (rest : List Text) → join 59 ((x ∷ first) ∷ rest) ≡ d ∷ sql → x ≡ d
join-head x d first sql rest e =
    let h : x ∷ join 59 (first ∷ rest) ≡ d ∷ sql = sym (join-cons x first rest) ∙ e in cc

pub from-copy_one :
    (mode m : Mode) (current : Text) (c d : ℕ) (sql : Text)
    → split_move mode c (some d) ≡ copy_one m
    → split_from mode current (c ∷ d ∷ sql) ≡ split_from m (current ++ c ∷ []) (d ∷ sql)
unfolding split_from moved
from-copy_one mode m current c d sql e =
    ap
      (moved (λ m. split_from m (current ++ c ∷ []) (d ∷ sql))
        (λ m. split_from m (current ++ c ∷ d ∷ []) sql) (λ m. split_from m current (d ∷ sql))
        (current ∷ split_from plain [] (d ∷ sql)))
      e

pub from-copy_two :
    (mode m : Mode) (current : Text) (c d : ℕ) (sql : Text)
    → split_move mode c (some d) ≡ copy_two m
    → split_from mode current (c ∷ d ∷ sql) ≡ split_from m (current ++ c ∷ d ∷ []) sql
unfolding split_from moved
from-copy_two mode m current c d sql e =
    ap
      (moved (λ m. split_from m (current ++ c ∷ []) (d ∷ sql))
        (λ m. split_from m (current ++ c ∷ d ∷ []) sql) (λ m. split_from m current (d ∷ sql))
        (current ∷ split_from plain [] (d ∷ sql)))
      e

pub from-cut :
    (mode : Mode) (current : Text) (c d : ℕ) (sql : Text)
    → split_move mode c (some d) ≡ cut
    → split_from mode current (c ∷ d ∷ sql) ≡ current ∷ split_from plain [] (d ∷ sql)
unfolding split_from moved
from-cut mode current c d sql e =
    ap
      (moved (λ m. split_from m (current ++ c ∷ []) (d ∷ sql))
        (λ m. split_from m (current ++ c ∷ d ∷ []) sql) (λ m. split_from m current (d ∷ sql))
        (current ∷ split_from plain [] (d ∷ sql)))
      e

-- A unit at the end.
pub from-last :
    (mode : Mode) (current : Text) (c : ℕ) (move : Move)
    → split_move mode c none ≡ move
    → split_from mode current (c ∷ [])
      ≡ moved
          (λ m. (current ++ c ∷ []) ∷ [])
          (λ m. (current ++ c ∷ []) ∷ [])
          (λ m. current ∷ [])
          (current ∷ [] ∷ [])
          move
unfolding split_from
from-last mode current c move e =
    ap
      (moved (λ m. (current ++ c ∷ []) ∷ []) (λ m. (current ++ c ∷ []) ∷ []) (λ m. current ∷ [])
        (current ∷ [] ∷ []))
      e
