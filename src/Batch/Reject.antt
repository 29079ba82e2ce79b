-- ===== src/Batch/Reject.antt =====
-- src/protocol/batch_sub_command_capture/batch_cost.js: the mirror of the indexer's whole-batch
-- rejection.
pub mod Weight
pub mod Tally
pub mod Verdict
pub mod Order
use xchain_decoder.Prelude.{
  ℕ, ◌+◌, Bool, true, false, ◌||◌, Option, none, some, List, [], ◌∷◌, ◌++◌, ltb, leb, if◌then◌else◌,
  length, any, ◌&&◌,
}
use xchain_decoder.Prelude.Text.{Text, text_eq, codes}
use xchain_decoder.Prelude.Maps.{TextMap, get, set}
use xchain_decoder.Activation.{BlockTime, is_active, cost_weighting_activation}
use xchain_decoder.Batch.Limits.{
  command_limit, action_limits, gated_action_limits, weight_budget, command_weights,
}
use xchain_decoder.Batch.Names.{
  sub_command_action_name, expand_alias_name, has_provably_rejected_sub_command,
}
use xchain_decoder.Batch.Keys.{
  sub_command_tick, sub_command_limit_key, max_identical_mint_ticks, or_zero,
}

unfoldable pub is_batch_cost_weighting_active : Text → BlockTime → Bool
unfolding is_active
is_batch_cost_weighting_active network time = is_active cost_weighting_activation network time

-- A name that the table does not carry weighs 1, and so does an entry below 1.
abbrev table_weight : Option ℕ → ℕ
table_weight none = 1
table_weight (some weight) = if leb 1 weight then weight else 1

unfoldable pub sub_command_cost_weight : Text → TextMap Text → ℕ
sub_command_cost_weight command aliases =
    let action = expand_alias_name (sub_command_action_name command) aliases in
    if text_eq action (codes "DEPLOY") then 1 else table_weight (get action command_weights)

unfoldable pub batch_cost_weight : List Text → TextMap Text → ℕ
batch_cost_weight [] aliases = 0
batch_cost_weight (command ∷ commands) aliases =
    sub_command_cost_weight command aliases + batch_cost_weight commands aliases

-- The loop over the commands: how often each key occurs, and the ticks of the MINTs.
unfoldable pub tally_keys : List Text → TextMap Text → TextMap ℕ → TextMap ℕ
tally_keys [] aliases tally = tally
tally_keys (command ∷ commands) aliases tally =
    let key = sub_command_limit_key command aliases in
    tally_keys commands aliases (set key (or_zero (get key tally) + 1) tally)

unfoldable pub mint_ticks : List Text → TextMap Text → List Text
mint_ticks [] aliases = []
mint_ticks (command ∷ commands) aliases =
    let rest = mint_ticks commands aliases in
    if text_eq (sub_command_limit_key command aliases) (codes "MINT")
    then sub_command_tick (codes "MINT") command ∷ rest
    else rest

-- `Object.assign({}, ACTION_LIMITS, GATED_ACTION_LIMITS)`: the two tables share no key.
abbrev caps : TextMap ℕ
caps = action_limits ++ gated_action_limits

pub exceeds : TextMap ℕ → List Text → Text × ℕ → Bool
exceeds tally ticks (action, cap) = ltb cap (
    if text_eq action (codes "MINT")
    then max_identical_mint_ticks ticks
    else or_zero (get action tally))

unfoldable pub has_provably_rejected_batch : List Text → TextMap Text → Text → BlockTime → Bool
unfolding exceeds
has_provably_rejected_batch commands aliases network time =
    let weights_active = is_batch_cost_weighting_active network time in
    let tally = tally_keys commands aliases [] in
    let ticks = mint_ticks commands aliases in
    ltb (if weights_active then weight_budget else command_limit) (length commands)
    || has_provably_rejected_sub_command commands
    || any (exceeds tally ticks) caps
    || (weights_active && ltb weight_budget (batch_cost_weight commands aliases))
