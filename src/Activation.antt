-- ===== src/Activation.antt =====
-- Flag days: src/protocol/constants/activation.js, the weighting instants of
-- src/protocol/indexer_batch_limits.js, and the tests that read them.
use xchain_decoder.Prelude.{
  ℕ, ◌≤◌, ◌≡◌, ◌↔◌, Bool, true, false, Option, none, some, [], ◌∷◌, leb, leb→le, refl, arith,
}
use xchain_decoder.Prelude.Text.{Text, codes}
use xchain_decoder.Prelude.Maps.{TextMap, get}

-- Network name to block time. `none` is `null`, a network that is not armed; a missing name is not
-- armed either.
abbrev pub Schedule : Type 0
Schedule = TextMap (Option ℕ)

abbrev pub for_networks : Option ℕ → Option ℕ → Option ℕ → Schedule
for_networks mainnet testnet regtest =
    (codes "mainnet", mainnet) ∷ (codes "testnet", testnet) ∷ (codes "regtest", regtest) ∷ []

-- A block time as the code reads it: `none` is what `Number` does not make finite.
abbrev pub BlockTime : Type 0
BlockTime = Option ℕ

abbrev pub reached : Option (Option ℕ) → BlockTime → Bool
reached (some (some activation)) (some t) = leb activation t
reached _ _ = false

-- The body that every gate has: `typeof activation !== 'number'`, `Number.isFinite`, `>=`.
unfoldable pub is_active : Schedule → Text → BlockTime → Bool
is_active schedule network time = reached (get network schedule) time

abbrev pub batch_subcommand_output_capture_activation : Schedule
batch_subcommand_output_capture_activation = for_networks (some 1786838400) (some 0) (some 0)

abbrev pub cost_weighting_activation : Schedule
cost_weighting_activation = for_networks (some 0) (some 0) (some 0)

abbrev pub dispenser_expiry_realign_activation : Schedule
dispenser_expiry_realign_activation = for_networks (some 0) (some 0) (some 0)

abbrev pub dispenser_cancel_grace_activation : Schedule
dispenser_cancel_grace_activation = for_networks (some 0) (some 0) (some 0)

abbrev pub dispenser_purge_grace_activation : Schedule
dispenser_purge_grace_activation = for_networks (some 9999999999) (some 1792454400) (some 0)

abbrev pub dispenser_cancel_grace_parent_floor_activation : Schedule
dispenser_cancel_grace_parent_floor_activation =
    for_networks (some 9999999999) (some 1792454400) (some 0)

abbrev pub dispenser_address_id_collapse_activation : Schedule
dispenser_address_id_collapse_activation = for_networks (some 9999999999) (some 1792454400) (some 0)

abbrev pub oracle_fee_output_activation : Schedule
oracle_fee_output_activation = for_networks (some 1786060800) (some 0) (some 0)

abbrev pub oracle_fee_set_capture_activation : Schedule
oracle_fee_set_capture_activation = for_networks (some 1786060800) (some 0) (some 0)

abbrev pub exact_integer_expiration_activation : Schedule
exact_integer_expiration_activation = for_networks none (some 1792605600) (some 0)

reached_iff :
    (entry : Option (Option ℕ)) (time : BlockTime)
    → (reached entry time ≡ true) ↔ (
        (activation : ℕ) × (t : ℕ) × (entry ≡ some (some activation))
        × (time ≡ some t)
        × (activation ≤ t))
reached_iff (some (some activation)) (some t) =
    (λ h. (activation, t, refl, refl, leb→le activation t h), λ (a, t', e, e', le). ground arith)
reached_iff (some (some activation)) none = (λ h. cc, λ (a, t', e, e', le). cc)
reached_iff (some none) time = (λ h. cc, λ (a, t', e, e', le). cc)
reached_iff none time = (λ h. cc, λ (a, t', e, e', le). cc)

-- A gate is open exactly when the network has an instant and the block's time is at or after it:
-- an unknown network, a disarmed one and an unreadable time all keep it shut.
pub is_active_iff :
    (schedule : Schedule) (network : Text) (time : BlockTime)
    → (is_active schedule network time ≡ true) ↔ (
        (activation : ℕ) × (t : ℕ) × (get network schedule ≡ some (some activation))
        × (time ≡ some t)
        × (activation ≤ t))
unfolding is_active
is_active_iff schedule network time = reached_iff (get network schedule) time
