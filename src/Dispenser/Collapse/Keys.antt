-- ===== src/Dispenser/Collapse/Keys.antt =====
-- What the collapse means for one candidate, and the keys of `dispenserAddressKey`.
use mathlib.Core.Path.{subst}
use xchain_decoder.Prelude.{
  ℕ, ◌≤◌, max, ◌≡◌, refl, sym, ap, ◌∙◌, ◌⊎◌, ◌↔◌, inl, inr, true, false, Option, none, some, List,
  [], ◌∷◌, ◌++◌, map, drop, In, here, there, not-In-nil, Bool-cases, arith,
}
use xchain_decoder.Prelude.Text.{Text, text_eq, text_eq_iff, codes, starts_with}
use xchain_decoder.Dispenser.Collapse.{
  Registration, key, selected, address_key, collapse_registrations_by_key, dispenser_address_key,
}
use xchain_decoder.Dispenser.Collapse.Merge.{group, merged, latest}
use xchain_decoder.Dispenser.Collapse.Order.{
  without, distinct, used_keys, collapse_registrations_by_key_groups,
}

-- What the table of addresses makes of an address: an id, or the address as it is.
abbrev pub identity : Option Text → Text → Text ⊎ Text
identity none address = inr address
identity (some id) address = inl id

address_key_iff :
    (i j : Option Text) (a b : Text)
    → (address_key i a ≡ address_key j b) ↔ (identity i a ≡ identity j b)
unfolding starts_with
address_key_iff none none a b =
    (λ e. ap inr (ap (drop 8) e), λ h. let e : a ≡ b = cc in ap (λ x. codes "address:" ++ x) e)
address_key_iff none (some j) a b =
    (λ e. let apart : true ≡ false = ap (starts_with (codes "address:")) e in cc, λ h. cc)
address_key_iff (some i) none a b =
    (λ e. let apart : false ≡ true = ap (starts_with (codes "address:")) e in cc, λ h. cc)
address_key_iff (some i) (some j) a b =
    (λ e. ap inl (ap (drop 11) e), λ h. let e : i ≡ j = cc in ap (λ x. codes "address-id:" ++ x) e)

-- Two addresses get one key exactly if the table has them under one id, or has neither and they are the
-- same: a key of an id is never the key of an address.
pub dispenser_address_key_iff :
    (address_id_of : Text → Option Text) (a b : Text)
    → (dispenser_address_key address_id_of a ≡ dispenser_address_key address_id_of b)
      ↔ (identity (address_id_of a) a ≡ identity (address_id_of b) b)
unfolding dispenser_address_key
dispenser_address_key_iff address_id_of a b =
    address_key_iff (address_id_of a) (address_id_of b) a b

latest-le : (e : ℕ) (cs : List Registration) → e ≤ latest e cs
latest-le e [] = omega arith
latest-le e (c ∷ cs) = omega (arith, latest-le (max e c.expiration) cs)

latest-member :
    (e : ℕ) (c : Registration) (cs : List Registration) → In c cs → c.expiration ≤ latest e cs
latest-member e c [] m = absurd (not-In-nil m)
latest-member e c (d ∷ ds) (here same) =
    let le : d.expiration ≤ latest (max e d.expiration) ds =
      omega (arith, latest-le (max e d.expiration) ds) in
    subst (λ r. r.expiration ≤ latest (max e d.expiration) ds) (sym same) le
latest-member e c (d ∷ ds) (there m) = latest-member (max e d.expiration) c ds m

module _ (key_of : Text → Option Text) where
  group-member :
      (k : Text) (c : Registration) (cs : List Registration)
      → text_eq c.address [] ≡ false
      → key key_of c ≡ k
      → In c cs
      → In c (group key_of k cs)
  group-member k c [] used e m = absurd (not-In-nil m)
  group-member k c (d ∷ ds) used e (here same) =
      let used' = subst (λ r. text_eq r.address [] ≡ false) same used in
      let e' = subst (λ r. key key_of r ≡ k) same e in
      rw (used', (text_eq_iff (key key_of d) k).1 e') (here same)
  group-member k c (d ∷ ds) used e (there m) =
      let tail = group-member k c ds used e m in
      elim (Bool-cases (text_eq d.address [])) [
        | inl skipped ↦ rw skipped tail
        | inr kept ↦ elim (Bool-cases (text_eq (key key_of d) k)) [
          | inl same ↦ rw (kept, same) (there tail)
          | inr other ↦ rw (kept, other) tail
        ]
      ]

  used_keys-member :
      (c : Registration) (cs : List Registration)
      → text_eq c.address [] ≡ false
      → In c cs
      → In (key key_of c) (used_keys key_of cs)
  used_keys-member c [] used m = absurd (not-In-nil m)
  used_keys-member c (d ∷ ds) used (here same) =
      let used' = subst (λ r. text_eq r.address [] ≡ false) same used in
      rw used' (here (ap (key key_of) same))
  used_keys-member c (d ∷ ds) used (there m) =
      let tail = used_keys-member c ds used m in
      elim (Bool-cases (text_eq d.address [])) [
        | inl skipped ↦ rw skipped tail
        | inr kept ↦ rw kept (there tail)
      ]

without-member : (k j : Text) (ks : List Text) → text_eq j k ≡ false → In j ks → In j (without k ks)
without-member k j [] h m = absurd (not-In-nil m)
without-member k j (i ∷ ks) h (here same) = rw (ap (λ x. text_eq x k) (sym same), h) (here same)
without-member k j (i ∷ ks) h (there m) = elim (Bool-cases (text_eq i k)) [
  | inl gone ↦ rw gone (without-member k j ks h m)
  | inr kept ↦ rw kept (there (without-member k j ks h m))
]

distinct-member : (j : Text) (ks : List Text) → In j ks → In j (distinct ks)
unfolding distinct
distinct-member j [] m = absurd (not-In-nil m)
distinct-member j (k ∷ ks) (here e) = here e
distinct-member j (k ∷ ks) (there m) = elim (Bool-cases (text_eq j k)) [
  | inl same ↦ here ((text_eq_iff j k).0 same)
  | inr other ↦ there (without-member k j (distinct ks) other (distinct-member j ks m))
]

In-map-some : (r : Registration) (xs : List Registration) → In (some r) (map some xs) → In r xs
In-map-some r [] m = absurd (not-In-nil m)
In-map-some r (x ∷ xs) (here e) = here cc
In-map-some r (x ∷ xs) (there m) = there (In-map-some r xs m)

In-map_intro {ℓ κ} :
    {A : Type ℓ} {B : Type κ} (f : A → B) (x : A) (xs : List A) → In x xs → In (f x) (map f xs)
In-map_intro f x [] m = absurd (not-In-nil m)
In-map_intro f x (y ∷ ys) (here e) = here (ap f e)
In-map_intro f x (y ∷ ys) (there m) = there (In-map_intro f x ys m)

-- A candidate that the collapse counts.
abbrev pub Counted : Registration → List Registration → Type 0
Counted c cs = (text_eq c.address [] ≡ false) × In c cs

module _ (key_of : Text → Option Text) where
  group-Counted :
      (k : Text) (c : Registration) (cs : List Registration)
      → In c (group key_of k cs)
      → Counted c cs × (key key_of c ≡ k)
  group-Counted k c [] m = absurd (not-In-nil m)
  group-Counted k c (d ∷ ds) m =
      let later : In c (group key_of k ds) → Counted c (d ∷ ds) × (key key_of c ≡ k) =
        λ m'. let ((used, place), e) = group-Counted k c ds m' in ((used, there place), e) in
      elim (Bool-cases (text_eq d.address [])) [
        | inl skipped ↦ later (rw skipped at m)
        | inr used ↦ elim (Bool-cases (text_eq (key key_of d) k)) [
          | inl same ↦ elim (rw (used, same) at m) [
            | here e ↦ (
              (subst (λ r. text_eq r.address [] ≡ false) (sym e) used, here e),
              ap (key key_of) e ∙ (text_eq_iff (key key_of d) k).0 same,
            )
            | there m' ↦ later m'
          ]
          | inr other ↦ later (rw (used, other) at m)
        ]
      ]

-- What a group of which `c` is a member becomes: it has the address of a member, and it is open at
-- least as long as `c`.
merged-latest :
    (c : Registration) (cs : List Registration)
    → In c cs
    → (r : Registration) × (first : Registration) × (merged cs ≡ some r)
      × In first cs
      × (r.address ≡ first.address)
      × (c.expiration ≤ r.expiration)
merged-latest c [] m = absurd (not-In-nil m)
merged-latest c (d ∷ ds) (here same) = (
  _,
  d,
  refl,
  here refl,
  refl,
  subst (λ r. r.expiration ≤ latest d.expiration ds) (sym same) (latest-le d.expiration ds),
)
merged-latest c (d ∷ ds) (there m) =
    (_, d, refl, here refl, refl, latest-member d.expiration c ds m)

-- Every candidate that has an address is held open: a registration comes out whose address is such
-- a candidate's and selects the same key, and which does not expire before the candidate.
pub collapse_registrations_by_key_open :
    (key_of : Text → Option Text) (c : Registration) (candidates : List Registration)
    → Counted c candidates
    → (r : Registration) × (first : Registration) × In r
        (collapse_registrations_by_key key_of candidates)
      × Counted first candidates
      × (r.address ≡ first.address)
      × (key key_of r ≡ key key_of c)
      × (c.expiration ≤ r.expiration)
collapse_registrations_by_key_open key_of c cs (used, m) =
    let k = key key_of c in
    let (r, first, e, member, address, le) =
      merged-latest c (group key_of k cs) (group-member key_of k c cs used refl m) in
    let (counted, same_key) = group-Counted key_of k first cs member in
    let place =
      In-map_intro (λ k. merged (group key_of k cs)) k _
        (distinct-member k _ (used_keys-member key_of c cs used m)) in
    let listed =
      subst (λ o. In o (map (λ k. merged (group key_of k cs)) (distinct (used_keys key_of cs)))) e
        place in
    (
      r,
      first,
      In-map-some r _
          (subst (In (some r)) (sym (collapse_registrations_by_key_groups key_of cs)) listed),
      counted,
      address,
      ap (λ a. selected (key_of a) a) address ∙ same_key,
      le,
    )
