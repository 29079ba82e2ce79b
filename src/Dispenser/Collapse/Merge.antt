-- ===== src/Dispenser/Collapse/Merge.antt =====
-- What the collapse keeps of the candidates that share a key.
use xchain_decoder.Prelude.{
  ℕ, max, ◌≡◌, refl, ap, ◌∙◌, inl, inr, Option, none, some, List, [], ◌∷◌, ltb, if◌then◌else◌,
  Bool-cases, arith,
}
use xchain_decoder.Prelude.Text.{Text, text_eq, text_eq_iff}
use xchain_decoder.Prelude.Maps.{TextMap, get, set, get-set}
use xchain_decoder.Dispenser.Collapse.{
  Registration, registration, key, or_null, merge, absorbed, absorb, absorb_all,
}

-- The latest expiration of a group whose first member is the argument.
abbrev pub latest : ℕ → List Registration → ℕ
latest e [] = e
latest e (c ∷ cs) = latest (max e c.expiration) cs

-- The first oracle that is named.
abbrev pub named_oracle : Option Text → List Registration → Option Text
named_oracle (some o) cs = some o
named_oracle none [] = none
named_oracle none (c ∷ cs) = named_oracle (or_null c.oracle_address) cs

-- One registration for a group: the first address, the first oracle named, the latest expiration.
abbrev pub merged : List Registration → Option Registration
merged [] = none
merged (c ∷ cs) = some (
    registration c.address c.source_address (named_oracle (or_null c.oracle_address) cs)
      (latest c.expiration cs))

module _ (key_of : Text → Option Text) where
  -- The candidates with an address whose key is `k`, in their order.
  abbrev pub group : Text → List Registration → List Registration
  group k [] = []
  group k (c ∷ cs) =
      let rest = group k cs in
      if text_eq c.address [] then rest else (if text_eq (key key_of c) k then c ∷ rest else rest)

merge_all : Option Registration → List Registration → Option Registration
merge_all o [] = o
merge_all o (c ∷ cs) = merge_all (some (absorbed o c)) cs

if-max : (e n : ℕ) → (if ltb e n then n else e) ≡ max e n
if-max e n = ground arith

merge_all_eq :
    (a s : Text) (o : Option Text) (e : ℕ) (cs : List Registration)
    → merge_all (some (registration a s o e)) cs
      ≡ some (registration a s (named_oracle o cs) (latest e cs))
unfolding merge_all merge
merge_all_eq a s none e [] = refl
merge_all_eq a s (some o) e [] = refl
merge_all_eq a s none e (c ∷ cs) =
    merge_all_eq a s (or_null c.oracle_address) _ cs
    ∙ ap (λ n. some (registration a s (named_oracle (or_null c.oracle_address) cs) (latest n cs)))
        (if-max e c.expiration)
merge_all_eq a s (some o) e (c ∷ cs) =
    merge_all_eq a s (some o) _ cs
    ∙ ap (λ n. some (registration a s (some o) (latest n cs))) (if-max e c.expiration)

merge_all-nil : (cs : List Registration) → merge_all none cs ≡ merged cs
unfolding merge_all
merge_all-nil [] = refl
merge_all-nil (c ∷ cs) =
    merge_all_eq c.address c.source_address (or_null c.oracle_address) c.expiration cs

module _ (key_of : Text → Option Text) where
  get-absorb_all :
      (k : Text) (m : TextMap Registration) (cs : List Registration)
      → get k (absorb_all key_of m cs) ≡ merge_all (get k m) (group key_of k cs)
  unfolding absorb_all absorb merge_all
  get-absorb_all k m [] = refl
  get-absorb_all k m (c ∷ cs) = elim (Bool-cases (text_eq c.address [])) [
    | inl skipped ↦ rw (skipped) (get-absorb_all k m cs)
    | inr used ↦
        let now = absorbed (get (key key_of c) m) c in
        let next = get-absorb_all k (set (key key_of c) now m) cs in
        let there_now = get-set (key key_of c) k now m in
        elim (Bool-cases (text_eq (key key_of c) k)) [
          | inl same ↦
              let e = (text_eq_iff (key key_of c) k).0 same in
              let found : get k (set (key key_of c) now m) ≡ some now = rw same at there_now in
              rw (used, same)
                (next
                  ∙ ap (λ o. merge_all o (group key_of k cs)) found
                  ∙ ap (λ j. merge_all (some (absorbed (get j m) c)) (group key_of k cs)) e)
          | inr other ↦
              let found : get k (set (key key_of c) now m) ≡ get k m = rw other at there_now in
              rw (used, other) (next ∙ ap (λ o. merge_all o (group key_of k cs)) found)
        ]
  ]

  -- What the map holds for a key is the merger of the candidates with that key, and nothing if there is
  -- none.
  pub get-absorb_all-nil :
      (k : Text) (cs : List Registration)
      → get k (absorb_all key_of [] cs) ≡ merged (group key_of k cs)
  unfolding get
  get-absorb_all-nil k cs = get-absorb_all k [] cs ∙ merge_all-nil (group key_of k cs)
