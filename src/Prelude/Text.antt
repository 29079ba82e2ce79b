-- ===== src/Prelude/Text.antt =====
-- JavaScript strings as lists of UTF-16 code units.
use Prim.Native.Char.{code}
use Prim.Native.String.{String}
use Prim.Native.Nat.{ℕ}
use mathlib.Core.Path.{◌≡◌, refl, sym, ap, ◌∙◌}
use mathlib.Core.Logic.{◌↔◌, ◌≢◌, inl, inr}
use mathlib.Core.Bool.{Bool, true, false, ◌&&◌}
use mathlib.Core.List.{List, [], ◌∷◌, ◌++◌, append-nil, append_assoc}
use native.Mathlib.Omega.{arith}
use xchain_decoder.Prelude.Tests.{◌==◌, if◌then◌else◌, Bool-cases, ==_iff}
use xchain_decoder.Prelude.Lists.{All}

abbrev pub Text : Type 0
Text = List ℕ

-- The code units of an ASCII literal.
abbrev pub codes : String → Text
codes (String.◌∷◌ letter letters) = code letter ∷ codes letters
codes String.[] = []

-- `===` on strings.
unfoldable pub text_eq : Text → Text → Bool
text_eq [] [] = true
text_eq (x ∷ xs) (y ∷ ys) = x == y && text_eq xs ys
text_eq _ _ = false

pub text_eq_iff : (a b : Text) → (text_eq a b ≡ true) ↔ (a ≡ b)
unfolding text_eq
text_eq_iff (x ∷ a) (y ∷ b) = ground (arith, text_eq_iff a b)
text_eq_iff _ _ = ground arith

pub text_eq_refl : (a : Text) → text_eq a a ≡ true
text_eq_refl a = (text_eq_iff a a).1 refl

-- `s.startsWith(p)`
unfoldable pub starts_with : Text → Text → Bool
starts_with [] s = true
starts_with (p ∷ ps) [] = false
starts_with (p ∷ ps) (c ∷ cs) = p == c && starts_with ps cs

pub starts_with-append : (p s : Text) → starts_with p (p ++ s) ≡ true
unfolding starts_with
starts_with-append [] s = refl
starts_with-append (p ∷ ps) s = ground (arith, starts_with-append ps s)

pub starts_with→append : (p s : Text) → starts_with p s ≡ true → (r : Text) × (s ≡ p ++ r)
unfolding starts_with
starts_with→append [] s h = (s, refl)
starts_with→append (p ∷ ps) [] h = cc
starts_with→append (p ∷ ps) (c ∷ cs) h =
    let (r, e) = starts_with→append ps cs (ground arith) in (r, ground arith)

-- `s.split(sep)` for a one-unit separator: always at least one field.
unfoldable pub split_onto : ℕ → Text → Text → List Text
split_onto sep [] field = field ∷ []
split_onto sep (c ∷ cs) field =
    let rest = split_onto sep cs [] in
    let more = split_onto sep cs (field ++ c ∷ []) in if c == sep then field ∷ rest else more

unfoldable pub split : ℕ → Text → List Text
unfolding split_onto
split sep s = split_onto sep s []

-- `fields.join(sep)`
abbrev pub join : ℕ → List Text → Text
join sep [] = []
join sep (x ∷ []) = x
join sep (x ∷ y ∷ r) = x ++ sep ∷ join sep (y ∷ r)

-- No unit of the text is the separator.
abbrev pub Free : ℕ → Text → Type 0
Free sep = All (λ c. (c == sep) ≡ false)

Free-append : (sep : ℕ) (xs ys : Text) → Free sep xs → Free sep ys → Free sep (xs ++ ys)
Free-append sep [] ys hx hy = hy
Free-append sep (x ∷ xs) ys hx hy = (hx.0, Free-append sep xs ys hx.1 hy)

==_refl : (n : ℕ) → (n == n) ≡ true
==_refl n = ground arith

split_onto-Free_one :
    (sep : ℕ) (xs field : Text) → Free sep xs → split_onto sep xs field ≡ (field ++ xs) ∷ []
unfolding split_onto
split_onto-Free_one sep [] field h = ap (λ t. t ∷ []) (sym (append-nil field))
split_onto-Free_one sep (x ∷ xs) field h =
    rw h.0 (split_onto-Free_one sep xs (field ++ x ∷ []) h.1 ∙ rw append_assoc)

split_onto-Free_sep :
    (sep : ℕ) (xs field rest : Text)
    → Free sep xs
    → split_onto sep (xs ++ sep ∷ rest) field ≡ (field ++ xs) ∷ split_onto sep rest []
unfolding split_onto
split_onto-Free_sep sep [] field rest h =
    rw (==_refl sep) (ap (λ t. t ∷ split_onto sep rest []) (sym (append-nil field)))
split_onto-Free_sep sep (x ∷ xs) field rest h =
    rw h.0 (split_onto-Free_sep sep xs (field ++ x ∷ []) rest h.1 ∙ rw append_assoc)

pub split-join :
    (sep : ℕ) (x : Text) (xs : List Text)
    → All (Free sep) (x ∷ xs)
    → split sep (join sep (x ∷ xs)) ≡ x ∷ xs
unfolding split
split-join sep x [] h = split_onto-Free_one sep x [] h.0
split-join sep x (y ∷ ys) h =
    split_onto-Free_sep sep x [] (join sep (y ∷ ys)) h.0 ∙ ap (◌∷◌ x) (split-join sep y ys h.1)

-- At least one field, none with the separator, and joined they are the text again.
pub record IsSplit (sep : ℕ) (whole : Text) (fields : List Text) : Type 0 where
  pub joined : join sep fields ≡ whole
  pub free : All (Free sep) fields
  pub some_field : fields ≢ []

join-cons :
    (sep : ℕ) (field : Text) (fields : List Text)
    → fields ≢ []
    → join sep (field ∷ fields) ≡ field ++ sep ∷ join sep fields
join-cons sep field [] h = absurd (h refl)
join-cons sep field (y ∷ ys) h = refl

IsSplit-cons :
    (sep x : ℕ) (xs field : Text) (fields : List Text)
    → Free sep field
    → x ≡ sep
    → IsSplit sep xs fields
    → IsSplit sep (field ++ x ∷ xs) (field ∷ fields)
IsSplit-cons sep x xs field fields h same s = record {
  joined = rw (join-cons sep field fields s.some_field, s.joined, same);
  free = (h, s.free);
  some_field = λ e. cc;
}

split_onto-IsSplit :
    (sep : ℕ) (xs field : Text)
    → Free sep field
    → IsSplit sep (field ++ xs) (split_onto sep xs field)
unfolding split_onto
split_onto-IsSplit sep [] field h = record {
  joined = sym (append-nil field);
  free = (h, tt);
  some_field = λ e. cc;
}
split_onto-IsSplit sep (x ∷ xs) field h = elim (Bool-cases (x == sep)) [
  | inl same ↦ rw same (
      IsSplit-cons sep x xs field (split_onto sep xs []) h ((==_iff x sep).0 same)
        (split_onto-IsSplit sep xs [] tt))
  | inr other ↦ rw other (
      rw append_assoc at (
        split_onto-IsSplit sep xs (field ++ x ∷ []) (Free-append sep field (x ∷ []) h (other, tt))))
]

pub split-IsSplit : (sep : ℕ) (s : Text) → IsSplit sep s (split sep s)
unfolding split
split-IsSplit sep s = split_onto-IsSplit sep s [] tt
