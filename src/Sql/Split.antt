-- ===== src/Sql/Split.antt =====
-- The statements of a migration are its pieces between the `;` that stand outside of quotes and comments.
pub mod Moves
use xchain_decoder.Prelude.{
  ℕ, ◌≡◌, refl, sym, ap, ◌∙◌, Option, none, some, List, [], ◌∷◌, ◌++◌, append_assoc, append-nil,
  map,
}
use mathlib.Core.Path.{subst}
use xchain_decoder.Prelude.Text.{Text, join}
use xchain_decoder.Batch.Keys.{trim}
use xchain_decoder.Sql.{
  moved, Mode, plain, copy_one, copy_two, cut, split_move, split_from, split_sql_statements,
  strip_sql_line_comments, nonempty,
}
use xchain_decoder.Sql.Grammar.{
  next_of, IsOne, IsTwo, Reads, done, one, two, not-IsTwo-none, IsMove, is_one, is_two, is_cut,
  is_drop,
}
use xchain_decoder.Sql.Split.Moves.{
  IsNoEnd, IsText, IsOne-IsText, IsTwo-IsText, split_move-IsMove, IsOne-last, AreRead, IsPieces,
  join-cons, join-head, from-copy_one, from-copy_two, from-cut, from-last,
}

-- The unit in front of the first piece stands in front of the same unit, or at the end of the piece.
AreRead-one :
    (mode m : Mode) (c d : ℕ) (first sql : Text) (rest : List Text)
    → IsOne IsNoEnd c (some d) mode m
    → join 59 (first ∷ rest) ≡ d ∷ sql
    → AreRead m first rest
    → AreRead mode (c ∷ first) rest
AreRead-one mode m c d [] sql [] h w (e, r) = (e, one (IsOne-last h) r)
AreRead-one mode m c d [] sql (p ∷ ps) h w (r, rs) = (one (IsOne-last h) r, rs)
AreRead-one mode m c d (x ∷ first) sql [] h w (e, r) =
    let same : x ≡ d = join-head x d first sql [] w in
    (e, one (subst (λ y. IsOne IsNoEnd c (some y) mode m) (sym same) h) r)
AreRead-one mode m c d (x ∷ first) sql (p ∷ ps) h w (r, rs) =
    let same : x ≡ d = join-head x d first sql (p ∷ ps) w in
    (one (subst (λ y. IsOne IsNoEnd c (some y) mode m) (sym same) h) r, rs)

AreRead-two :
    (mode m : Mode) (c d : ℕ) (first : Text) (rest : List Text)
    → IsTwo c (some d) mode m
    → AreRead m first rest
    → AreRead mode (c ∷ d ∷ first) rest
AreRead-two mode m c d first [] h (e, r) = (e, two h r)
AreRead-two mode m c d first (p ∷ ps) h (r, rs) = (two h r, rs)

IsPieces-one :
    (mode m : Mode) (c d : ℕ) (sql first : Text) (rest : List Text)
    → IsOne IsNoEnd c (some d) mode m
    → split_move mode c (some d) ≡ copy_one m
    → IsPieces m (d ∷ sql) first rest
    → IsPieces mode (c ∷ d ∷ sql) (c ∷ first) rest
IsPieces-one mode m c d sql first rest h e p = record {
  whole = join-cons c first rest ∙ ap (λ t. c ∷ t) p.whole;
  read = AreRead-one mode m c d first sql rest h p.whole p.read;
  run = λ current.
      from-copy_one mode m current c d sql e
      ∙ p.run (current ++ c ∷ [])
      ∙ ap (λ t. t ∷ rest) (append_assoc current (c ∷ []) first);
}

IsPieces-two :
    (mode m : Mode) (c d : ℕ) (sql first : Text) (rest : List Text)
    → IsTwo c (some d) mode m
    → split_move mode c (some d) ≡ copy_two m
    → IsPieces m sql first rest
    → IsPieces mode (c ∷ d ∷ sql) (c ∷ d ∷ first) rest
IsPieces-two mode m c d sql first rest h e p = record {
  whole =
      join-cons c (d ∷ first) rest
      ∙ ap (λ t. c ∷ t) (join-cons d first rest ∙ ap (λ t. d ∷ t) p.whole);
  read = AreRead-two mode m c d first rest h p.read;
  run = λ current.
      from-copy_two mode m current c d sql e
      ∙ p.run (current ++ c ∷ d ∷ [])
      ∙ ap (λ t. t ∷ rest) (append_assoc current (c ∷ d ∷ []) first);
}

IsPieces-cut :
    (mode : Mode) (c d : ℕ) (sql first : Text) (rest : List Text)
    → mode ≡ plain
    → c ≡ 59
    → split_move mode c (some d) ≡ cut
    → IsPieces plain (d ∷ sql) first rest
    → IsPieces mode (c ∷ d ∷ sql) [] (first ∷ rest)
IsPieces-cut mode c d sql first rest g f e p = record {
  whole = ap (λ y. y ∷ join 59 (first ∷ rest)) (sym f) ∙ ap (λ t. c ∷ t) p.whole;
  read = (subst (λ m. Reads IsNoEnd m [] plain) (sym g) done, p.read);
  run = λ current.
      from-cut mode current c d sql e
      ∙ ap (λ t. current ∷ t) (p.run [])
      ∙ ap (λ t. t ∷ first ∷ rest) (sym (append-nil current));
}

-- The pieces of a text, read in a mode.
abbrev PiecesOf : Mode → Text → Type 0
PiecesOf mode sql = (first : Text) × (rest : List Text) × IsPieces mode sql first rest

pieces-last :
    (mode : Mode) (c : ℕ)
    → IsMove IsNoEnd ((mode ≡ plain) × (c ≡ 59)) ⊥ mode c none (split_move mode c none)
    → PiecesOf mode (c ∷ [])
unfolding moved
pieces-last mode c (is_one m h e) = (
  c ∷ [],
  [],
  record {
    whole = refl;
    read = (m, one h done);
    run = λ current. from-last mode current c (copy_one m) e;
  },
)
pieces-last mode c (is_two m h e) = absurd (not-IsTwo-none h)
pieces-last mode c (is_cut (g, f) e) = (
  [],
  [] ∷ [],
  record {
    whole = ap (λ y. y ∷ []) (sym f);
    read = (subst (λ m. Reads IsNoEnd m [] plain) (sym g) done, (plain, done));
    run = λ current.
        from-last mode current c cut e ∙ ap (λ t. t ∷ [] ∷ []) (sym (append-nil current));
  },
)
pieces-last mode c (is_drop h e) = absurd h

pieces_of : (mode : Mode) (sql : Text) → IsText mode → PiecesOf mode sql
unfolding split_from
pieces_of mode [] h = (
  [],
  [],
  record {
    whole = refl;
    read = (mode, done);
    run = λ current. ap (λ t. t ∷ []) (sym (append-nil current));
  },
)
pieces_of mode (c ∷ []) h = pieces-last mode c (split_move-IsMove mode c none h)
pieces_of mode (c ∷ d ∷ sql) h = elim (split_move-IsMove mode c (some d) h) [
  | is_one m s e ↦
      let p = pieces_of m (d ∷ sql) (IsOne-IsText s) in
      (c ∷ p.0, p.1, IsPieces-one mode m c d sql p.0 p.1 s e p.2)
  | is_two m s e ↦
      let p = pieces_of m sql (IsTwo-IsText s) in
      (c ∷ d ∷ p.0, p.1, IsPieces-two mode m c d sql p.0 p.1 s e p.2)
  | is_cut (g, f) e ↦
      let p = pieces_of plain (d ∷ sql) tt in
      ([], p.0 ∷ p.1, IsPieces-cut mode c d sql p.0 p.1 g f e p.2)
  | is_drop b e ↦ absurd b
]

-- Whatever the text is, it has pieces such that: joined by `;` they are the text without its line comments,
-- unit for unit; read by the rules for quotes and block comments, no piece has a `;` outside of them, and
-- every piece but the last ends outside of them; and the statements are the pieces, trimmed, less the empty
-- ones, in their order.
pub split_sql_statements_exact :
    (sql : Text)
    → (first : Text) × (rest : List Text) × (join 59 (first ∷ rest) ≡ strip_sql_line_comments sql)
      × AreRead plain first rest
      × (split_sql_statements sql ≡ nonempty (map trim (first ∷ rest)))
unfolding split_sql_statements
split_sql_statements_exact sql =
    let p = pieces_of plain (strip_sql_line_comments sql) tt in
    (p.0, p.1, p.2.whole, p.2.read, ap (λ pieces. nonempty (map trim pieces)) (p.2.run []))
