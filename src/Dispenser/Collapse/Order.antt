-- ===== src/Dispenser/Collapse/Order.antt =====
-- In which order the collapse returns the keys' registrations.
use mathlib.Core.Path.{subst}
use xchain_decoder.Prelude.{
  ap₂, ◌≡◌, refl, sym, ap, ◌∙◌, true, false, Option, some, List, [], ◌∷◌, ◌++◌, append-nil,
  append_assoc, map, any, if◌then◌else◌, Bool-cases, inl, inr, arith,
}
use xchain_decoder.Prelude.Text.{Text, text_eq, text_eq_iff, text_eq_refl}
use xchain_decoder.Prelude.Maps.{TextMap, get, set}
use xchain_decoder.Dispenser.Collapse.{
  Registration, key, absorbed, absorb, absorb_all, collapse_registrations_by_key,
}
use xchain_decoder.Dispenser.Collapse.Merge.{group, merged, get-absorb_all-nil}

abbrev pub without : Text → List Text → List Text
without k [] = []
without k (j ∷ js) = let rest = without k js in if text_eq j k then rest else j ∷ rest

-- A list of keys in the order of their first appearances.
unfoldable pub distinct : List Text → List Text
distinct [] = []
distinct (k ∷ ks) = k ∷ without k (distinct ks)

abbrev pub used_keys : (Text → Option Text) → List Registration → List Text
used_keys key_of [] = []
used_keys key_of (c ∷ cs) =
    let rest = used_keys key_of cs in if text_eq c.address [] then rest else key key_of c ∷ rest

without_all : List Text → List Text → List Text
without_all [] xs = xs
without_all (j ∷ js) xs = without_all js (without j xs)

without_comm : (j k : Text) (xs : List Text) → without j (without k xs) ≡ without k (without j xs)
without_comm j k [] = refl
without_comm j k (x ∷ xs) = ground (arith, without_comm j k xs)

without_idem : (k : Text) (xs : List Text) → without k (without k xs) ≡ without k xs
without_idem k [] = refl
without_idem k (x ∷ xs) = ground (arith, without_idem k xs)

without_all-without :
    (k : Text) (js xs : List Text) → without_all js (without k xs) ≡ without k (without_all js xs)
unfolding without_all
without_all-without k [] xs = refl
without_all-without k (j ∷ js) xs =
    ap (without_all js) (without_comm j k xs) ∙ without_all-without k js (without j xs)

without_all-append :
    (k : Text) (js xs : List Text) → without_all (js ++ k ∷ []) xs ≡ without k (without_all js xs)
unfolding without_all
without_all-append k [] xs = refl
without_all-append k (j ∷ js) xs = without_all-append k js (without j xs)

text_eq_sym : (a b : Text) → text_eq a b ≡ text_eq b a
text_eq_sym a b = ground (arith, text_eq_iff a b, text_eq_iff b a)

without_all-member :
    (k : Text) (js xs : List Text)
    → any (text_eq k) js ≡ true
    → without_all js (k ∷ without k xs) ≡ without_all js xs
unfolding without_all
without_all-member k [] xs h = cc
without_all-member k (j ∷ js) xs h = elim (Bool-cases (text_eq k j)) [
  | inl same ↦
      let e = (text_eq_iff k j).0 same in
      rw same (
        ap (without_all js) (
          ap (λ i. without i (without k xs)) (sym e)
          ∙ without_idem k xs
          ∙ ap (λ i. without i xs) e))
  | inr other ↦ rw other (
      ap (λ ys. without_all js (k ∷ ys)) (without_comm j k xs)
      ∙ without_all-member k js (without j xs) (rw other at h))
]

without_all-nil : (js : List Text) → without_all js [] ≡ []
unfolding without_all
without_all-nil [] = refl
without_all-nil (j ∷ js) = without_all-nil js

without_all-new :
    (k : Text) (js xs : List Text)
    → any (text_eq k) js ≡ false
    → without_all js (k ∷ xs) ≡ k ∷ without_all js xs
unfolding without_all
without_all-new k [] xs h = refl
without_all-new k (j ∷ js) xs h = ground (arith, without_all-new k js (without j xs))

abbrev keys {ℓ} : {V : Type ℓ} → TextMap V → List Text
keys m = map (λ e. e.0) m

module _ {ℓ} {V : Type ℓ} where
  keys-set :
      (k : Text) (v : V) (m : TextMap V)
      → keys (set k v m) ≡ (if any (text_eq k) (keys m) then keys m else keys m ++ k ∷ [])
  unfolding set
  keys-set k v [] = refl
  keys-set k v ((j, w) ∷ m) = elim (Bool-cases (text_eq j k)) [
    | inl same ↦ rw (same, text_eq_sym k j, same) refl
    | inr other ↦ elim (Bool-cases (any (text_eq k) (keys m))) [
      | inl old ↦ rw (other, text_eq_sym k j, other, old) (ap (◌∷◌ j) (rw old at (keys-set k v m)))
      | inr new ↦ rw (other, text_eq_sym k j, other, new) (ap (◌∷◌ j) (rw new at (keys-set k v m)))
    ]
  ]

module _ (key_of : Text → Option Text) where
  keys-absorb_all :
      (m : TextMap Registration) (cs : List Registration)
      → keys (absorb_all key_of m cs)
        ≡ keys m ++ without_all (keys m) (distinct (used_keys key_of cs))
  unfolding absorb_all absorb distinct without_all
  keys-absorb_all m [] = sym (ap (◌++◌ (keys m)) (without_all-nil (keys m)) ∙ append-nil (keys m))
  keys-absorb_all m (c ∷ cs) = elim (Bool-cases (text_eq c.address [])) [
    | inl skipped ↦ rw skipped (keys-absorb_all m cs)
    | inr used ↦
        let k = key key_of c in
        let next = keys-absorb_all (set k (absorbed (get k m) c) m) cs in
        let now = keys-set k (absorbed (get k m) c) m in
        let later = distinct (used_keys key_of cs) in
        elim (Bool-cases (any (text_eq k) (keys m))) [
          | inl old ↦ rw used (
              next
              ∙ ap (λ ks. ks ++ without_all ks later) (rw old at now)
              ∙ ap (◌++◌ (keys m)) (sym (without_all-member k (keys m) later old)))
          | inr new ↦ rw used (
              next
              ∙ ap (λ ks. ks ++ without_all ks later) (rw new at now)
              ∙ ap (◌++◌ (keys m ++ k ∷ [])) (without_all-append k (keys m) later)
              ∙ append_assoc (keys m) (k ∷ []) (without k (without_all (keys m) later))
              ∙ ap (λ ks. keys m ++ k ∷ ks) (sym (without_all-without k (keys m) later))
              ∙ ap (◌++◌ (keys m)) (sym (without_all-new k (keys m) (without k later) new)))
        ]
  ]

-- No key stands in the list twice.
abbrev pub IsDistinct : List Text → Type 0
IsDistinct [] = Unit
IsDistinct (k ∷ ks) = (any (text_eq k) ks ≡ false) × IsDistinct ks

any-without :
    (j k : Text) (ks : List Text)
    → any (text_eq j) ks ≡ false
    → any (text_eq j) (without k ks) ≡ false
any-without j k [] h = refl
any-without j k (i ∷ ks) h = ground (arith, any-without j k ks)

any-without-same : (k : Text) (ks : List Text) → any (text_eq k) (without k ks) ≡ false
any-without-same k [] = refl
any-without-same k (i ∷ ks) = ground (arith, any-without-same k ks, text_eq_sym i k)

without-IsDistinct : (k : Text) (ks : List Text) → IsDistinct ks → IsDistinct (without k ks)
without-IsDistinct k [] h = tt
without-IsDistinct k (i ∷ ks) h = elim (Bool-cases (text_eq i k)) [
  | inl same ↦ rw same (without-IsDistinct k ks h.1)
  | inr other ↦ rw other (any-without i k ks h.0, without-IsDistinct k ks h.1)
]

pub distinct-IsDistinct : (ks : List Text) → IsDistinct (distinct ks)
unfolding distinct
distinct-IsDistinct [] = tt
distinct-IsDistinct (k ∷ ks) =
    (any-without-same k (distinct ks), without-IsDistinct k (distinct ks) (distinct-IsDistinct ks))

module _ {ℓ} {V : Type ℓ} where
  map-get_skip :
      (j : Text) (v : V) (m : TextMap V) (ks : List Text)
      → any (text_eq j) ks ≡ false
      → map (λ k. get k ((j, v) ∷ m)) ks ≡ map (λ k. get k m) ks
  unfolding get
  map-get_skip j v m [] h = refl
  map-get_skip j v m (k ∷ ks) h = elim (Bool-cases (text_eq j k)) [
    | inl same ↦ cc (rw same at h)
    | inr other ↦ rw other (ap (◌∷◌ (get k m)) (map-get_skip j v m ks (rw other at h)))
  ]

  values_eq :
      (m : TextMap V)
      → IsDistinct (keys m)
      → map some (map (λ e. e.1) m) ≡ map (λ k. get k m) (keys m)
  unfolding get
  values_eq [] h = refl
  values_eq ((j, v) ∷ m) h =
      rw (text_eq_refl j)
        (ap (◌∷◌ (some v)) (values_eq m h.1 ∙ sym (map-get_skip j v m (keys m) h.0)))

map_ext {ℓ κ} :
    {A : Type ℓ} {B : Type κ} (f g : A → B) (xs : List A)
    → ((x : A) → f x ≡ g x)
    → map f xs ≡ map g xs
map_ext f g [] h = refl
map_ext f g (x ∷ xs) h = ap₂ (λ y ys. y ∷ ys) (h x) (map_ext f g xs h)

-- The collapse is a grouping: it returns one registration for every key that a candidate with an
-- address selects, in the order of the keys' first appearances, and the registration of a key has the
-- first address and source of the candidates with that key, the first oracle that one of them names, and
-- their latest expiration.
pub collapse_registrations_by_key_groups :
    (key_of : Text → Option Text) (candidates : List Registration)
    → map some (collapse_registrations_by_key key_of candidates)
      ≡ map (λ k. merged (group key_of k candidates)) (distinct (used_keys key_of candidates))
unfolding collapse_registrations_by_key
collapse_registrations_by_key_groups key_of candidates =
    let m = absorb_all key_of [] candidates in
    let order : keys m ≡ distinct (used_keys key_of candidates) =
      unfold without_all in keys-absorb_all key_of [] candidates in
    values_eq m (subst IsDistinct (sym order) (distinct-IsDistinct (used_keys key_of candidates)))
    ∙ map_ext (λ k. get k m) (λ k. merged (group key_of k candidates)) (keys m)
        (λ k. get-absorb_all-nil key_of k candidates)
    ∙ ap (map (λ k. merged (group key_of k candidates))) order
