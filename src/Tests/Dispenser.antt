-- ===== src/Tests/Dispenser.antt =====
-- Registrations that share a key, and the grace around a mark.
use xchain_decoder.Prelude.{
  ◌+◌, ◌≤◌, ◌≡◌, ◌↔◌, refl, true, Option, none, some, List, [], ◌∷◌, map, if◌then◌else◌, ◌==◌, In,
  here, there, arith,
}
use xchain_decoder.Prelude.Integers.{ℤ, pos, ◌≤ℤ◌, ◌-ℤ◌}
use xchain_decoder.Prelude.Text.{Text, codes, text_eq}
use xchain_decoder.Activation.{is_active}
use xchain_decoder.Prelude.Maps.{get, set}
use xchain_decoder.Dispenser.Collapse.{
  absorb, absorb_all, selected, merge, lower, Registration, registration, key,
  collapse_registrations_by_key, collapse_registrations_by_address_id, dispenser_address_key,
}
use xchain_decoder.Dispenser.Collapse.Merge.{merged, group}
use xchain_decoder.Dispenser.Collapse.Order.{
  distinct, used_keys, collapse_registrations_by_key_groups,
}
use xchain_decoder.Dispenser.Collapse.Keys.{
  identity, dispenser_address_key_iff, Counted, collapse_registrations_by_key_open,
}
use xchain_decoder.Dispenser.Collapse.Resolved.{collapse_registrations_by_address_id_open}
use xchain_decoder.Dispenser.Grace.{
  is_dispenser_purge_grace_active, is_dispenser_cancel_grace_parent_floor_active,
  is_dispenser_cancel_grace_active, cancel_grace_floor, purge_grace_floor,
}
use xchain_decoder.Dispenser.Grace.Laws.{
  cancel_grace_floor_covers, purge_grace_floor_exact, cancel_grace_floor-le-purge,
}

abbrev early : Registration
early = registration (codes "a") (codes "s") none 10

abbrev other : Registration
other = registration (codes "b") (codes "s") (some (codes "o")) 5

abbrev late : Registration
late = registration (codes "A") (codes "s") (some (codes "p")) 20

abbrev creates : List Registration
creates = early ∷ other ∷ late ∷ []

-- The table holds both spellings of one address.
abbrev in_table : Text → Option Text
in_table [] = none
in_table (c ∷ cs) = if c == b'b' then none else some (codes "1")

late-Counted : Counted late creates
unfolding text_eq
late-Counted = (refl, there (there (here refl)))

collapse_registrations_by_key_groups_example :
    map some (collapse_registrations_by_key (λ a. some (map lower a)) creates)
    ≡ map
        (λ k. merged (group (λ a. some (map lower a)) k creates))
        (distinct (used_keys (λ a. some (map lower a)) creates))
collapse_registrations_by_key_groups_example =
    collapse_registrations_by_key_groups (λ a. some (map lower a)) creates

collapse_run :
    collapse_registrations_by_key (λ a. some (map lower a)) creates
    ≡ registration (codes "a") (codes "s") (some (codes "p")) 20 ∷ other ∷ []
unfolding collapse_registrations_by_key absorb_all absorb selected merge get set text_eq
collapse_run = refl

collapse_registrations_by_key_open_example :
    (r : Registration) × (first : Registration) × In r
      (collapse_registrations_by_key (λ a. some (map lower a)) creates)
    × Counted first creates
    × (r.address ≡ first.address)
    × (key (λ a. some (map lower a)) r ≡ key (λ a. some (map lower a)) late)
    × (20 ≤ r.expiration)
collapse_registrations_by_key_open_example =
    collapse_registrations_by_key_open (λ a. some (map lower a)) late creates late-Counted

collapse_registrations_by_address_id_open_example :
    (r : Registration) × In r (collapse_registrations_by_address_id in_table creates)
    × (dispenser_address_key in_table r.address ≡ dispenser_address_key in_table (codes "A"))
    × (20 ≤ r.expiration)
collapse_registrations_by_address_id_open_example =
    collapse_registrations_by_address_id_open in_table late creates late-Counted

dispenser_address_key_iff_run :
    (dispenser_address_key in_table (codes "a") ≡ dispenser_address_key in_table (codes "A"))
    ↔ (identity (in_table (codes "a")) (codes "a") ≡ identity (in_table (codes "A")) (codes "A"))
dispenser_address_key_iff_run = dispenser_address_key_iff in_table (codes "a") (codes "A")

grace_active : is_dispenser_cancel_grace_active (codes "regtest") (some 10000) ≡ true
unfolding is_dispenser_cancel_grace_active is_active get text_eq
grace_active = refl

cancel_grace_floor_covers_example :
    (floor : ℤ) × (cancel_grace_floor (codes "regtest") (some 10000) (some 9900) ≡ some floor)
    × (floor ≤ℤ pos 7000)
cancel_grace_floor_covers_example =
    cancel_grace_floor_covers (codes "regtest") 10000 (some 9900) 7000 grace_active (omega arith)

purge_run : purge_grace_floor (codes "regtest") (some 10000) ≡ some (pos 6400)
unfolding purge_grace_floor is_dispenser_purge_grace_active is_active get text_eq ◌-ℤ◌
purge_run = refl

cancel_run : cancel_grace_floor (codes "regtest") (some 10000) (some 9900) ≡ some (pos 6300)
unfolding cancel_grace_floor is_dispenser_cancel_grace_active
    is_dispenser_cancel_grace_parent_floor_active is_active get text_eq ◌-ℤ◌
cancel_run = refl

purge_grace_floor_exact_run : (pos 6400 ≤ℤ pos 7000) ↔ (10000 ≤ 7000 + 3600)
purge_grace_floor_exact_run =
    purge_grace_floor_exact (codes "regtest") 10000 (pos 6400) 7000 purge_run

cancel_grace_floor-le-purge_run : pos 6300 ≤ℤ pos 6400
cancel_grace_floor-le-purge_run =
    cancel_grace_floor-le-purge (codes "regtest") 10000 (some 9900) (pos 6300) (pos 6400) cancel_run
      purge_run
