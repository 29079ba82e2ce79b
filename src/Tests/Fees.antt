-- ===== src/Tests/Fees.antt =====
-- Oracle fees, expirations and the node's chain.

use xchain_decoder.Prelude.{
  ℕ, ◌*◌, ◌^◌, ◌≤◌, ◌<◌, ◌≡◌, ◌≢◌, ◌↔◌, ◌⊎◌, refl, true, none, some, List, [], ◌∷◌, In, here, there,
  arith,
}
use xchain_decoder.Prelude.Text.{Text, codes, text_eq, starts_with, split, split_onto}
use xchain_decoder.Prelude.Maps.{get}
use xchain_decoder.Activation.{is_active}
use xchain_decoder.Batch.Keys.{trim, trim_start, is_space}
use xchain_decoder.Dispenser.Oracle.{
  OpenDispensers, resolve_oracle_fee_addresses, resolve_oracle_fee_addresses_for_commands,
  resolve_commands, resolve_edit, is_oracle_fee_capture_active, is_oracle_fee_set_capture_active,
  parse_int_10, signed, unsigned, digits_onto,
}
use xchain_decoder.Dispenser.Oracle.Cache.{
  resolve_oracle_fee_addresses_complete, resolve_oracle_fee_addresses_sound,
}
use xchain_decoder.Dispenser.Expiration.{
  max_safe_dispenser_expiration, u64_max, exact_token, exact_unsigned_decimal, exact_of,
  is_dispenser_wide_expiration_active, normalize_dispenser_expiration, shifted_down, shifted_up,
  value,
}
use xchain_decoder.Dispenser.Expiration.Exact.{shifted_down_iff, shifted_up-value}
use xchain_decoder.Dispenser.Expiration.Normal.{normalize_dispenser_expiration_cases}
use xchain_decoder.Chain.{
  object_members, chain_to_network, chain_tier_mismatch, chain_genesis_mismatch,
}
use xchain_decoder.Chain.Laws.{IsSameText, chain_tier_mismatch_iff, chain_genesis_mismatch_iff}

abbrev two_rows : OpenDispensers
two_rows = record {
  oracle_addresses = λ source. some (some (codes "o") ∷ none ∷ some (codes "p") ∷ []);
  oracle_address = λ source. some none;
}

abbrev refills : List Text
refills = codes "DISPENSER|2|7" ∷ codes "SEND|0" ∷ codes "DISPENSER|2|8" ∷ []

abbrev both : List Text
both = codes "o" ∷ codes "p" ∷ []

refills_run :
    (resolve_oracle_fee_addresses_for_commands two_rows
      (codes "regtest")
      (codes "s")
      (some 7)
      refills).1
    ≡ some both
unfolding resolve_oracle_fee_addresses_for_commands resolve_commands resolve_oracle_fee_addresses
    resolve_edit is_oracle_fee_capture_active is_oracle_fee_set_capture_active is_active get text_eq
    starts_with split split_onto parse_int_10 signed unsigned digits_onto trim_start is_space
refills_run = refl

second_refill :
    (resolve_oracle_fee_addresses two_rows
      (codes "regtest")
      (codes "s")
      (some 7)
      (codes "DISPENSER|2|8")).1
    ≡ some both
unfolding resolve_oracle_fee_addresses resolve_edit is_oracle_fee_capture_active
    is_oracle_fee_set_capture_active is_active get text_eq starts_with split split_onto parse_int_10
    signed unsigned digits_onto trim_start is_space
second_refill = refl

is_refill : starts_with (codes "DISPENSER|") (codes "DISPENSER|2|8") ≡ true
unfolding starts_with
is_refill = refl

resolve_oracle_fee_addresses_complete_example : In (codes "p") both
resolve_oracle_fee_addresses_complete_example =
    resolve_oracle_fee_addresses_complete two_rows (codes "regtest") (codes "s") (some 7) refills
      both both (codes "DISPENSER|2|8") (codes "p") refills_run (there (there (here refl)))
      is_refill second_refill (there (here refl))

resolve_oracle_fee_addresses_sound_example :
    (command : Text) × (found : List Text) × In command refills
    × ((resolve_oracle_fee_addresses two_rows (codes "regtest") (codes "s") (some 7) command).1
        ≡ some found)
    × In (codes "p") found
resolve_oracle_fee_addresses_sound_example =
    resolve_oracle_fee_addresses_sound two_rows (codes "regtest") (codes "s") (some 7) refills both
      (codes "p") refills_run (there (here refl))

shifted_down_iff_example :
    (shifted_down (codes "1200") 2 ≡ some 12) ↔ (12 * 10 ^ 2 ≡ value (codes "1200"))
shifted_down_iff_example = shifted_down_iff (codes "1200") 2 12 (ground arith)

shifted_up_run : shifted_up (codes "12") 2 ≡ some 1200
unfolding shifted_up
shifted_up_run = refl

shifted_up-value_run : 1200 ≡ value (codes "12") * 10 ^ 2
shifted_up-value_run = shifted_up-value (codes "12") 2 1200 shifted_up_run

exact_run : exact_unsigned_decimal (codes " +12.50e2 ") ≡ some 1250
unfolding exact_unsigned_decimal exact_of shifted_down shifted_up trim trim_start is_space
exact_run = refl

-- 2^53 has no exact place in the safe range.
wide_run :
    normalize_dispenser_expiration
      (some (codes "9007199254740992"))
      (codes "regtest")
      (some 7)
      (some 9007199254740992)
    ≡ some max_safe_dispenser_expiration
unfolding normalize_dispenser_expiration is_dispenser_wide_expiration_active is_active get text_eq
    exact_unsigned_decimal exact_of shifted_down shifted_up trim trim_start is_space
wide_run = refl

normalize_dispenser_expiration_cases_example :
    ((some 9007199254740992 ≡ some max_safe_dispenser_expiration)
      × (max_safe_dispenser_expiration ≤ max_safe_dispenser_expiration))
    ⊎ ((is_dispenser_wide_expiration_active (codes "regtest") (some 7) ≡ true)
        × (max_safe_dispenser_expiration ≡ max_safe_dispenser_expiration)
        × (x : ℕ) × (exact_token (some (codes "9007199254740992")) ≡ some x)
        × (max_safe_dispenser_expiration < x)
        × (x ≤ u64_max))
normalize_dispenser_expiration_cases_example =
    normalize_dispenser_expiration_cases (some (codes "9007199254740992")) (codes "regtest")
      (some 7) (some 9007199254740992) max_safe_dispenser_expiration wide_run

chain_tier_mismatch_iff_example :
    ((reason : Text) × (chain_tier_mismatch (codes "mainnet") (some (codes "toString"))
        ≡ some reason))
    ↔ ((chain : Text) × (some (codes "toString") ≡ some chain)
        × (((mapped : Text) × (get chain chain_to_network ≡ some mapped)
              × (mapped ≢ codes "mainnet"))
            ⊎ ((get chain chain_to_network ≡ none)
                × ((member : Text) × (get chain object_members ≡ some member)))))
chain_tier_mismatch_iff_example =
    chain_tier_mismatch_iff (codes "mainnet") (some (codes "toString"))

chain_genesis_mismatch_iff_example :
    ((reason : Text) × (chain_genesis_mismatch (some (codes "00AB")) (some (codes "00ab"))
        ≡ some reason))
    ↔ ((one : Text) × (other : Text) × (some (codes "00AB") ≡ some one)
        × (some (codes "00ab") ≡ some other)
        × (one ≢ [])
        × (other ≢ [])
        × ¬ (IsSameText one other))
chain_genesis_mismatch_iff_example =
    chain_genesis_mismatch_iff (some (codes "00AB")) (some (codes "00ab"))
