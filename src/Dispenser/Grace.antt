-- ===== src/Dispenser/Grace.antt =====
-- src/protocol/dispenser_cancel_grace.js and the gate of src/protocol/dispenser_expiry_realign.js: how long
-- a dispenser that was soft-expired or purged stays an address whose payments are captured.
pub mod Laws
use xchain_decoder.Prelude.{ℕ, Bool, true, false, Option, none, some, min, if◌then◌else◌}
use xchain_decoder.Prelude.Integers.{ℤ, ◌-ℤ◌}
use xchain_decoder.Prelude.Text.{Text}
use xchain_decoder.Activation.{
  BlockTime, is_active, dispenser_cancel_grace_activation,
  dispenser_cancel_grace_parent_floor_activation, dispenser_purge_grace_activation,
  dispenser_expiry_realign_activation,
}

abbrev pub dispenser_cancel_grace_seconds : ℕ
dispenser_cancel_grace_seconds = 3600

unfoldable pub is_dispenser_cancel_grace_active : Text → BlockTime → Bool
unfolding is_active
is_dispenser_cancel_grace_active network time =
    is_active dispenser_cancel_grace_activation network time

unfoldable pub is_dispenser_cancel_grace_parent_floor_active : Text → BlockTime → Bool
unfolding is_active
is_dispenser_cancel_grace_parent_floor_active network time =
    is_active dispenser_cancel_grace_parent_floor_activation network time

unfoldable pub is_dispenser_purge_grace_active : Text → BlockTime → Bool
unfolding is_active
is_dispenser_purge_grace_active network time =
    is_active dispenser_purge_grace_activation network time

-- Whether the soft-expire runs behind the transactions of a block instead of before them.
unfoldable pub is_dispenser_expiry_realign_active : Text → BlockTime → Bool
unfolding is_active
is_dispenser_expiry_realign_active network time =
    is_active dispenser_expiry_realign_activation network time

-- `Math.min(block, parent)` where the parent's protocol time is known.
abbrev pub earlier : ℕ → BlockTime → ℕ
earlier block none = block
earlier block (some parent) = min block parent

unfoldable pub cancel_grace_floor : Text → BlockTime → BlockTime → Option ℤ
unfolding is_dispenser_cancel_grace_active is_dispenser_cancel_grace_parent_floor_active
cancel_grace_floor network none parent_protocol_time = none
cancel_grace_floor network (some block) parent_protocol_time =
    let anchor =
      if is_dispenser_cancel_grace_parent_floor_active network (some block)
      then earlier block parent_protocol_time
      else block in
    if is_dispenser_cancel_grace_active network (some block)
    then some (anchor -ℤ dispenser_cancel_grace_seconds)
    else none

unfoldable pub purge_grace_floor : Text → BlockTime → Option ℤ
unfolding is_dispenser_purge_grace_active
purge_grace_floor network none = none
purge_grace_floor network (some block) =
    if is_dispenser_purge_grace_active network (some block)
    then some (block -ℤ dispenser_cancel_grace_seconds)
    else none
