-- ===== src/Dispenser/Collapse/Resolved.antt =====
-- The collapse by the ids of the table of addresses.
use mathlib.Core.Path.{subst}
use xchain_decoder.Prelude.{
  ◌≤◌, ◌≡◌, ◌≢◌, refl, sym, ap, ◌∙◌, ◌⊎◌, inl, inr, false, Option, none, some, List, [], ◌∷◌, ltb,
  length, In, here, there, not-In-nil, Bool-cases, Option-cases,
}
use xchain_decoder.Prelude.Text.{Text, text_eq, text_eq_iff}
use xchain_decoder.Prelude.Maps.{TextMap, get, set, get-set}
use xchain_decoder.Dispenser.Collapse.{
  Registration, key, selected, address_keys, address_key, no_key, raw_addresses,
  collapse_registrations_by_address_id, dispenser_address_key,
}
use xchain_decoder.Dispenser.Collapse.Keys.{Counted, collapse_registrations_by_key_open}

-- `a` has its key already, or it is the address of a candidate still to come.
abbrev Pending : (Text → Option Text) → Text → List Registration → TextMap Text → Type 0
Pending address_id_of a cs keys =
    (get a keys ≡ some (dispenser_address_key address_id_of a))
    ⊎ ((get a keys ≡ none) × (c : Registration) × Counted c cs × (c.address ≡ a))

Pending-tail :
    (address_id_of : Text → Option Text) (a : Text) (d : Registration) (ds : List Registration)
    (keys : TextMap Text)
    → ¬ ((text_eq d.address [] ≡ false) × (d.address ≡ a) × (get a keys ≡ none))
    → Pending address_id_of a (d ∷ ds) keys
    → Pending address_id_of a ds keys
Pending-tail address_id_of a d ds keys apart (inl e) = inl e
Pending-tail address_id_of a d ds keys apart (inr (e, c, (used, here same), at_a)) = absurd (
    apart (
      subst (λ r. text_eq r.address [] ≡ false) same used,
      subst (λ r. r.address ≡ a) same at_a,
      e,
    ))
Pending-tail address_id_of a d ds keys apart (inr (e, c, (used, there m), at_a)) =
    inr (e, c, (used, m), at_a)

address_keys-get :
    (address_id_of : Text → Option Text) (a : Text) (cs : List Registration) (keys : TextMap Text)
    → Pending address_id_of a cs keys
    → get a (address_keys address_id_of cs keys) ≡ some (dispenser_address_key address_id_of a)
unfolding address_keys
address_keys-get address_id_of a [] keys (inl e) = e
address_keys-get address_id_of a [] keys (inr (e, c, (used, m), same)) = absurd (not-In-nil m)
address_keys-get address_id_of a (d ∷ ds) keys h = elim (Bool-cases (text_eq d.address [])) [
  | inl skipped ↦ rw skipped (
      address_keys-get address_id_of a ds keys
        (Pending-tail address_id_of a d ds keys (λ x. cc (skipped, x.0)) h))
  | inr used ↦ elim (Option-cases (get d.address keys)) [
    | inr (k, known) ↦
        rw (used, known)
          (address_keys-get address_id_of a ds keys (
            Pending-tail address_id_of a d ds keys
              (λ (x, y, z). let e = sym known ∙ ap (λ b. get b keys) y ∙ z in cc) h))
    | inl fresh ↦
        rw (used, fresh)
          (let keys' = set d.address (dispenser_address_key address_id_of d.address) keys in
            let now = get-set d.address a (dispenser_address_key address_id_of d.address) keys in
            elim (Bool-cases (text_eq d.address a)) [
              | inl same ↦
                  let e = (text_eq_iff d.address a).0 same in
                  let found : get a keys' ≡ some (dispenser_address_key address_id_of d.address) =
                    rw same at now in
                  address_keys-get address_id_of a ds keys'
                    (inl (found ∙ ap (λ b. some (dispenser_address_key address_id_of b)) e))
              | inr other ↦
                  let found : get a keys' ≡ get a keys = rw other at now in
                  let same_address : d.address ≢ a =
                    λ e. cc (other, (text_eq_iff d.address a).1 e) in
                  let tail =
                    Pending-tail address_id_of a d ds keys (λ (x, y, z). same_address y) h in
                  address_keys-get address_id_of a ds keys' (elim tail [
                    | inl e ↦ inl (found ∙ e)
                    | inr p ↦ inr (found ∙ p.0, p.1, p.2, p.3)
                  ])
            ])
  ]
]

selected-address_key :
    (o : Option Text) (a : Text) → selected (some (address_key o a)) a ≡ address_key o a
unfolding selected
selected-address_key none a = refl
selected-address_key (some i) a = refl

-- The collapse by ids holds every candidate that has an address open: a registration comes out
-- whose address has the same key in the table of addresses, and which does not expire before the
-- candidate.
pub collapse_registrations_by_address_id_open :
    (address_id_of : Text → Option Text) (c : Registration) (candidates : List Registration)
    → Counted c candidates
    → (r : Registration) × In r (collapse_registrations_by_address_id address_id_of candidates)
      × (dispenser_address_key address_id_of r.address
          ≡ dispenser_address_key address_id_of c.address)
      × (c.expiration ≤ r.expiration)
unfolding collapse_registrations_by_address_id
collapse_registrations_by_address_id_open address_id_of c cs counted =
    let keys = address_keys address_id_of cs [] in
    let resolved : (d : Registration)
        → Counted d cs
        → key (λ a. get a keys) d ≡ dispenser_address_key address_id_of d.address =
      λ d counted.
        let found =
          address_keys-get address_id_of d.address cs []
            (inr (unfold get in refl, d, counted, refl)) in
        ap (λ k. selected k d.address) found
        ∙ (unfold dispenser_address_key in
            selected-address_key (address_id_of d.address) d.address) in
    elim (Bool-cases (ltb (length (raw_addresses cs [])) 2)) [
      | inl single ↦
          let (r, first, place, counted', address, same, le) =
            collapse_registrations_by_key_open no_key c cs counted in
          rw single
            (r, place, ap (dispenser_address_key address_id_of) (unfold selected in same), le)
      | inr several ↦
          let (r, first, place, counted', address, same, le) =
            collapse_registrations_by_key_open (λ a. get a keys) c cs counted in
          rw several (
            r,
            place,
            ap (dispenser_address_key address_id_of) address
                ∙ sym (resolved first counted')
                ∙ ap (λ a. selected (get a keys) a) (sym address)
                ∙ same
                ∙ resolved c counted,
            le,
          )
    ]
