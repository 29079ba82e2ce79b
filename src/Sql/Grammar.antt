-- ===== src/Sql/Grammar.antt =====
-- The quotes and comments of a migration's text, unit by unit: what a unit, or it and the next one, is.
use xchain_decoder.Prelude.{
  ℕ, ◌≡◌, ◌≢◌, ◌⊎◌, refl, inl, inr, ap, Bool, true, false, Option, none, some, [], ◌∷◌, arith, ◌==◌,
  ==_iff, ◌&&◌, if◌then◌else◌,
}
use xchain_decoder.Prelude.Text.{Text}
use xchain_decoder.Sql.{
  Mode, plain, quoted, block, line, Move, copy_one, copy_two, drop_one, cut, is_quote, is_next,
  quoted_move, block_move, opens_backslash_escape,
}

abbrev pub next_of : Text → Option ℕ
next_of [] = none
next_of (c ∷ sql) = some c

abbrev pub IsQuote : ℕ → Type 0
IsQuote c = (c ≡ 39) ⊎ ((c ≡ 34) ⊎ (c ≡ 96))

-- A unit by itself, in front of `next`: bare, where `Bare` allows it; a quote that opens or closes a string;
-- a unit of a string, which is a backslash only in a backtick string or at the end; a unit of a block
-- comment; or the end of a line comment's line.
pub data IsOne (Bare : ℕ → Option ℕ → Type 0) (c : ℕ) (next : Option ℕ) : Mode → Mode → Type 0 where
  bare :
      ¬ (IsQuote c) → ¬ ((c ≡ 47) × (next ≡ some 42)) → Bare c next → IsOne Bare c next plain plain
  opens : IsQuote c → IsOne Bare c next plain (quoted c)
  inside :
      {q : ℕ}
      → c ≢ q
      → (c ≡ 92 → (q ≡ 96) ⊎ (next ≡ none))
      → IsOne Bare c next (quoted q) (quoted q)
  closes : {q : ℕ} → c ≡ q → next ≢ some q → IsOne Bare c next (quoted q) plain
  commented : ¬ ((c ≡ 42) × (next ≡ some 47)) → IsOne Bare c next block block
  line_end : c ≡ 10 → IsOne Bare c next line plain

-- Two units that belong together: the ends of a block comment, a doubled quote, and an escaped unit.
pub data IsTwo (c : ℕ) (next : Option ℕ) : Mode → Mode → Type 0 where
  starts : c ≡ 47 → next ≡ some 42 → IsTwo c next plain block
  doubled : {q : ℕ} → c ≡ q → next ≡ some q → IsTwo c next (quoted q) (quoted q)
  escaped : {q : ℕ} → c ≡ 92 → q ≢ 96 → next ≢ none → IsTwo c next (quoted q) (quoted q)
  ends : c ≡ 42 → next ≡ some 47 → IsTwo c next block plain

-- The text read from one mode ends in another.
pub data Reads (Bare : ℕ → Option ℕ → Type 0) : Mode → Text → Mode → Type 0 where
  done : {mode : Mode} → Reads Bare mode [] mode
  one :
      {mode m e : Mode} {c : ℕ} {sql : Text}
      → IsOne Bare c (next_of sql) mode m
      → Reads Bare m sql e
      → Reads Bare mode (c ∷ sql) e
  two :
      {mode m e : Mode} {c d : ℕ} {sql : Text}
      → IsTwo c (some d) mode m
      → Reads Bare m sql e
      → Reads Bare mode (c ∷ d ∷ sql) e

pub not-IsTwo-none : {c : ℕ} {mode m : Mode} → ¬ (IsTwo c none mode m)
not-IsTwo-none (starts e f) = cc
not-IsTwo-none (doubled e f) = cc
not-IsTwo-none (escaped e f g) = g refl
not-IsTwo-none (ends e f) = cc

-- What a move of the code can be.
pub data IsMove (Bare : ℕ → Option ℕ → Type 0) (Cut Drop : Type 0) (mode : Mode) (c : ℕ)
    (next : Option ℕ) (move : Move) : Type 0 where
  is_one :
      (m : Mode)
      → IsOne Bare c next mode m
      → move ≡ copy_one m
      → IsMove Bare Cut Drop mode c next move
  is_two :
      (m : Mode) → IsTwo c next mode m → move ≡ copy_two m → IsMove Bare Cut Drop mode c next move
  is_cut : Cut → move ≡ cut → IsMove Bare Cut Drop mode c next move
  is_drop : Drop → move ≡ drop_one line → IsMove Bare Cut Drop mode c next move

module _ (Bare : ℕ → Option ℕ → Type 0) (Cut Drop : Type 0) where
  pub IsMove-if :
      {mode : Mode} {c : ℕ} {next : Option ℕ} (b : Bool) (x y : Move)
      → (b ≡ true → IsMove Bare Cut Drop mode c next x)
      → (b ≡ false → IsMove Bare Cut Drop mode c next y)
      → IsMove Bare Cut Drop mode c next (if b then x else y)
  IsMove-if true x y t f = t refl
  IsMove-if false x y t f = f refl

  next_is : (q : ℕ) (next : Option ℕ) → is_next q next ≡ true → next ≡ some q
  next_is q none e = cc
  next_is q (some d) e = ap some ((==_iff d q).0 e)

  next_is_not : (q : ℕ) (next : Option ℕ) → is_next q next ≡ false → next ≢ some q
  next_is_not q none e f = cc
  next_is_not q (some d) e f = ground arith

  escape :
      (c q : ℕ) (next : Option ℕ)
      → opens_backslash_escape c next q ≡ true
      → (c ≡ 92) × (q ≢ 96) × (next ≢ none)
  unfolding opens_backslash_escape
  escape c q none e = ground arith
  escape c q (some d) e = ground arith

  no_escape :
      (c q : ℕ) (next : Option ℕ)
      → opens_backslash_escape c next q ≡ false
      → c ≡ 92
      → (q ≡ 96) ⊎ (next ≡ none)
  unfolding opens_backslash_escape
  no_escape c q none e f = inr refl
  no_escape c q (some d) e f = inl (ground arith)

  pub quoted_move-IsMove :
      (q c : ℕ) (next : Option ℕ) → IsMove Bare Cut Drop (quoted q) c next (quoted_move q c next)
  quoted_move-IsMove q c next =
      IsMove-if (opens_backslash_escape c next q) _ _
        (λ e.
          let (back, other, there) = escape c q next e in
          is_two (quoted q) (escaped back other there) refl)
        (λ e.
          IsMove-if (c == q) _ _
            (λ f.
              IsMove-if (is_next q next) _ _
                (λ g. is_two (quoted q) (doubled ((==_iff c q).0 f) (next_is q next g)) refl)
                (λ g. is_one plain (closes ((==_iff c q).0 f) (next_is_not q next g)) refl))
            (λ f.
              is_one (quoted q) (inside (λ h. cc (f, (==_iff c q).1 h)) (no_escape c q next e))
                refl))

  pair_is :
      (a b c : ℕ) (next : Option ℕ) → (c == a && is_next b next) ≡ true → (c ≡ a) × (next ≡ some b)
  pair_is a b c none e = ground arith
  pair_is a b c (some d) e = (ground arith, ap some (ground arith))

  pair_is_not :
      (a b c : ℕ) (next : Option ℕ)
      → (c == a && is_next b next) ≡ false
      → ¬ ((c ≡ a) × (next ≡ some b))
  pair_is_not a b c none e (f, g) = cc
  pair_is_not a b c (some d) e (f, g) = ground arith

  pub block_move-IsMove :
      (c : ℕ) (next : Option ℕ) → IsMove Bare Cut Drop block c next (block_move c next)
  block_move-IsMove c next =
      IsMove-if (c == 42 && is_next 47 next) _ _
        (λ e. let (f, g) = pair_is 42 47 c next e in is_two plain (ends f g) refl)
        (λ e. is_one block (commented (pair_is_not 42 47 c next e)) refl)

  -- What both scanners do outside of quotes and comments, up to a unit that is neither.
  pub plain_move-IsMove :
      (c : ℕ) (next : Option ℕ) (rest : Move)
      → (¬ (IsQuote c) → ¬ ((c ≡ 47) × (next ≡ some 42)) → IsMove Bare Cut Drop plain c next rest)
      → IsMove Bare Cut Drop plain c next (
          if is_quote c
          then copy_one (quoted c)
          else if c == 47 && is_next 42 next
          then copy_two block
          else rest)
  plain_move-IsMove c next rest h =
      IsMove-if (is_quote c) _ _ (λ e. is_one (quoted c) (opens (quote_is c e)) refl)
        (λ e.
          IsMove-if (c == 47 && is_next 42 next) _ _
            (λ f. let (g, k) = pair_is 47 42 c next f in is_two block (starts g k) refl)
            (λ f. h (quote_is_not c e) (pair_is_not 47 42 c next f)))
    where
      quote_is : (c : ℕ) → is_quote c ≡ true → IsQuote c
      quote_is c e = ground arith

      quote_is_not : (c : ℕ) → is_quote c ≡ false → ¬ (IsQuote c)
      quote_is_not c e h = ground arith
