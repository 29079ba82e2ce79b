-- ===== src/Dispenser/Oracle/Cache.antt =====
-- The cache of `resolveOracleFeeAddressesForCommands`.
use mathlib.Core.Path.{subst}
use xchain_decoder.Prelude.{
  ◌≡◌, refl, sym, ap, ◌∙◌, inl, inr, ◌⊎◌, Bool, true, false, not, none, some, List, [], ◌∷◌, ◌++◌,
  any, if◌then◌else◌, In, here, there, not-In-nil, Bool-cases, arith,
}
use xchain_decoder.Prelude.Text.{
  Text, text_eq, text_eq_iff, starts_with, starts_with→append, split, split_onto, codes,
}
use xchain_decoder.Activation.{BlockTime}
use xchain_decoder.Batch.Keys.{trim_start, is_space}
use xchain_decoder.Dispenser.Oracle.{
  OpenDispensers, Resolution, cache_key, joined, parse_int_10, signed, unsigned, digits_onto,
  resolve_edit, resolve_oracle_fee_addresses, resolve_commands,
  resolve_oracle_fee_addresses_for_commands, is_oracle_fee_capture_active,
}

-- An edit resolves from the source alone.
abbrev edit_prefix : Text
edit_prefix = codes "DISPENSER|2|"

In-append_left {ℓ} : {A : Type ℓ} (x : A) (xs ys : List A) → In x xs → In x (xs ++ ys)
In-append_left x [] ys m = absurd (not-In-nil m)
In-append_left x (z ∷ xs) ys (here e) = here e
In-append_left x (z ∷ xs) ys (there m) = there (In-append_left x xs ys m)

In-append_right {ℓ} : {A : Type ℓ} (x : A) (xs ys : List A) → In x ys → In x (xs ++ ys)
In-append_right x [] ys m = m
In-append_right x (z ∷ xs) ys m = there (In-append_right x xs ys m)

In-append_cases {ℓ} : {A : Type ℓ} (x : A) (xs ys : List A) → In x (xs ++ ys) → In x xs ⊎ In x ys
In-append_cases x [] ys m = inr m
In-append_cases x (z ∷ xs) ys (here e) = inl (here e)
In-append_cases x (z ∷ xs) ys (there m) = elim (In-append_cases x xs ys m) [
  | inl l ↦ inl (there l)
  | inr r ↦ inr r
]

any-append_one :
    (k j : Text) (ks : List Text)
    → any (text_eq k) ks ≡ false
    → text_eq k j ≡ false
    → any (text_eq k) (ks ++ j ∷ []) ≡ false
any-append_one k j [] h h' = ground arith
any-append_one k j (i ∷ ks) h h' = ground (arith, any-append_one k j ks)

joined_some :
    (rows : OpenDispensers) (network source : Text) (time : BlockTime) (x y : Resolution)
    (addresses : List Text)
    → (joined rows network source time x y).1 ≡ some addresses
    → (l : List Text) × (r : List Text) × (x.1 ≡ some l) × (y.1 ≡ some r) × (addresses ≡ l ++ r)
joined_some rows network source time (n, none) y addresses h = cc
joined_some rows network source time (n, some l) (m, none) addresses h = cc
joined_some rows network source time (n, some l) (m, some r) addresses h = (l, r, refl, refl, cc)

module _ (rows : OpenDispensers) (network source : Text) (time : BlockTime) where
  resolve-edit_prefix :
      (rest : Text)
      → resolve_oracle_fee_addresses rows network source time (edit_prefix ++ rest) ≡ (
          if not (is_oracle_fee_capture_active network time)
          then (0, some [])
          else resolve_edit rows network source time)
  unfolding resolve_oracle_fee_addresses starts_with split split_onto parse_int_10 signed unsigned
      digits_onto trim_start is_space
  resolve-edit_prefix rest = refl

  abbrev resolve : Text → Resolution
  resolve command = resolve_oracle_fee_addresses rows network source time command

  abbrev cached : Text → Text
  cached command = cache_key rows network source time command

  resolve_edit_command :
      (c : Text) → starts_with edit_prefix c ≡ true → resolve c ≡ resolve edit_prefix
  resolve_edit_command c h =
      let (rest, whole) = starts_with→append edit_prefix c h in
      ap resolve whole ∙ resolve-edit_prefix rest ∙ sym (resolve-edit_prefix [])

  -- A command resolves as its key does, and so two commands with one key resolve alike.
  resolve-cached : (c : Text) → resolve (cached c) ≡ resolve c
  resolve-cached c = elim (Bool-cases (starts_with edit_prefix c)) [
    | inl edit ↦ rw edit (sym (resolve_edit_command c edit))
    | inr other ↦ rw other
  ]

  same_key : (c d : Text) → cached c ≡ cached d → resolve c ≡ resolve d
  same_key c d e = sym (resolve-cached c) ∙ ap resolve e ∙ resolve-cached d

  abbrev is_dispenser : Text → Bool
  is_dispenser command = starts_with (codes "DISPENSER|") command

  abbrev run : List Text → List Text → Resolution
  run commands resolved = resolve_commands rows network source time commands resolved

  complete_from :
      (commands resolved addresses found : List Text) (c a : Text)
      → (run commands resolved).1 ≡ some addresses
      → In c commands
      → is_dispenser c ≡ true
      → any (text_eq (cached c)) resolved ≡ false
      → (resolve c).1 ≡ some found
      → In a found
      → In a addresses
  unfolding resolve_commands
  complete_from [] resolved addresses found c a h m dispenser fresh e ma = absurd (not-In-nil m)
  complete_from (d ∷ ds) resolved addresses found c a h m dispenser fresh e ma =
      let tail : In c ds → (run ds resolved).1 ≡ some addresses → In a addresses =
        λ m' h'. complete_from ds resolved addresses found c a h' m' dispenser fresh e ma in
      elim (Bool-cases (is_dispenser d)) [
        | inr plain ↦ elim m [
          | here same ↦ cc (plain, dispenser, ap is_dispenser same)
          | there m' ↦ tail m' (rw plain at h)
        ]
        | inl active ↦ elim (Bool-cases (any (text_eq (cached d)) resolved)) [
          | inl seen ↦ elim m [
            | here same ↦ cc (seen, fresh, ap (λ x. any (text_eq (cached x)) resolved) same)
            | there m' ↦ tail m' (rw (active, seen) at h)
          ]
          | inr new ↦
              let (l, r, el, er, whole) =
                joined_some rows network source time (resolve d)
                  (run ds (resolved ++ cached d ∷ [])) addresses (rw (active, new) at h) in
              rw whole (elim (Bool-cases (text_eq (cached c) (cached d))) [
                | inl same ↦
                    let alike = same_key c d ((text_eq_iff (cached c) (cached d)).0 same) in
                    let lists : found ≡ l = cc (e, el, ap (λ x. x.1) alike) in
                    In-append_left a l r (subst (In a) lists ma)
                | inr other ↦ elim m [
                  | here same ↦ cc (other, (text_eq_iff (cached c) (cached d)).1 (ap cached same))
                  | there m' ↦ In-append_right a l r (
                      complete_from ds (resolved ++ cached d ∷ []) r found c a er m' dispenser
                        (any-append_one (cached c) (cached d) resolved fresh other) e ma)
                ]
              ])
        ]
      ]

  sound_from :
      (commands resolved addresses : List Text) (a : Text)
      → (run commands resolved).1 ≡ some addresses
      → In a addresses
      → (c : Text) × (found : List Text) × In c commands × ((resolve c).1 ≡ some found) × In a found
  unfolding resolve_commands
  sound_from [] resolved addresses a h ma =
      let none_found : addresses ≡ [] = cc in absurd (not-In-nil (subst (In a) none_found ma))
  sound_from (d ∷ ds) resolved addresses a h ma =
      let tail : (resolved' others : List Text)
          → (run ds resolved').1 ≡ some others
          → In a others
          → (c : Text) × (found : List Text) × In c (d ∷ ds)
            × ((resolve c).1 ≡ some found)
            × In a found =
        λ resolved' others h' ma'.
          let (c, found, m, e, place) = sound_from ds resolved' others a h' ma' in
          (c, found, there m, e, place) in
      elim (Bool-cases (is_dispenser d)) [
        | inr plain ↦ tail resolved addresses (rw plain at h) ma
        | inl active ↦ elim (Bool-cases (any (text_eq (cached d)) resolved)) [
          | inl seen ↦ tail resolved addresses (rw (active, seen) at h) ma
          | inr new ↦
              let (l, r, el, er, whole) =
                joined_some rows network source time (resolve d)
                  (run ds (resolved ++ cached d ∷ [])) addresses (rw (active, new) at h) in
              elim (In-append_cases a l r (subst (In a) whole ma)) [
                | inl first ↦ (d, l, here refl, el, first)
                | inr later ↦ tail (resolved ++ cached d ∷ []) r er later
              ]
        ]
      ]

  -- Where the resolution of all commands succeeds, every address that a DISPENSER command of the
  -- list resolves to by itself is in the result.
  pub resolve_oracle_fee_addresses_complete :
      (commands addresses found : List Text) (command address : Text)
      → (resolve_oracle_fee_addresses_for_commands rows network source time commands).1
        ≡ some addresses
      → In command commands
      → starts_with (codes "DISPENSER|") command ≡ true
      → (resolve_oracle_fee_addresses rows network source time command).1 ≡ some found
      → In address found
      → In address addresses
  unfolding resolve_oracle_fee_addresses_for_commands
  resolve_oracle_fee_addresses_complete commands addresses found command address h m dispenser e
        place =
      complete_from commands [] addresses found command address h m dispenser refl e place

  -- Every address that comes out is one that a command of the list resolves to.
  pub resolve_oracle_fee_addresses_sound :
      (commands addresses : List Text) (address : Text)
      → (resolve_oracle_fee_addresses_for_commands rows network source time commands).1
        ≡ some addresses
      → In address addresses
      → (command : Text) × (found : List Text) × In command commands
        × ((resolve_oracle_fee_addresses rows network source time command).1 ≡ some found)
        × In address found
  unfolding resolve_oracle_fee_addresses_for_commands
  resolve_oracle_fee_addresses_sound commands addresses address h place =
      sound_from commands [] addresses address h place
