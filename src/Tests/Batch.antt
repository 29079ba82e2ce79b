-- ===== src/Tests/Batch.antt =====
-- Batches, their commands and their verdicts.
use mathlib.Core.List.{Permᴰ}
use xchain_decoder.Prelude.{
  ◌≤◌, ◌≡◌, ◌≢◌, ◌↔◌, refl, inr, true, false, some, List, [], ◌∷◌, ◌++◌, map, if◌then◌else◌, All,
  In, here, arith,
}
use xchain_decoder.Prelude.Text.{Text, codes, Free, join, text_eq, starts_with}
use xchain_decoder.Prelude.Maps.{get, set}
use xchain_decoder.Activation.{is_active}
use xchain_decoder.Batch.Limits.{action_aliases}
use xchain_decoder.Batch.Split.{batch_prefix, batch_sub_commands}
use xchain_decoder.Batch.Split.Laws.{batch_sub_commands-join, batch_sub_commands_exact}
use xchain_decoder.Batch.Names.{
  has_provably_rejected_sub_command, sub_command_action_name, expand_alias_name,
  expand_sub_command_alias,
}
use xchain_decoder.Batch.Names.Laws.{
  IsAliasOf, IsParams, expand_sub_command_alias_exact, given, expand_sub_command_alias-append,
  expand_sub_command_alias_idem, action_aliases-AreFree, action_aliases-IsCanonical,
}
use xchain_decoder.Batch.Keys.{sub_command_limit_key, max_identical_mint_ticks}
use xchain_decoder.Batch.Keys.Mints.{count, max_identical_mint_ticks_max}
use xchain_decoder.Batch.Reject.{
  is_batch_cost_weighting_active, sub_command_cost_weight, tally_keys, mint_ticks,
  batch_cost_weight, has_provably_rejected_batch,
}
use xchain_decoder.Batch.Reject.Weight.{length-le-batch_cost_weight}
use xchain_decoder.Batch.Reject.Verdict.{IsRejected, has_provably_rejected_batch_iff}
use xchain_decoder.Batch.Reject.Order.{has_provably_rejected_batch-Perm}
use xchain_decoder.Batch.Capture.{is_batch_sub_command_capture_active, capture_commands}
use xchain_decoder.Batch.Capture.Laws.{
  capture_commands_legacy, capture_commands-batch, capture_commands_dispatched,
}

abbrev first : Text
first = codes "TRANSFER|0|TICK|5"

abbrev second : Text
second = codes "DISPENSER|0|BTC"

abbrev both : List Text
both = first ∷ second ∷ []

both-Free : All (Free b';') both
both-Free = ground arith

abbrev batch : Text
batch = batch_prefix (codes "0") ++ join b';' both

batch_sub_commands-join_run : batch_sub_commands batch ≡ some both
batch_sub_commands-join_run = batch_sub_commands-join first (second ∷ []) both-Free

batch_sub_commands_exact_example :
    (batch ≡ batch_prefix (codes "0") ++ join b';' both) × All (Free b';') both
batch_sub_commands_exact_example =
    batch_sub_commands_exact batch both batch_sub_commands-join_run (λ e. cc)

expand_sub_command_alias-append_run :
    expand_sub_command_alias (codes "TRANSFER" ++ codes "|0|TICK|5") action_aliases
    ≡ expand_alias_name (codes "TRANSFER") action_aliases ++ codes "|0|TICK|5"
expand_sub_command_alias-append_run =
    expand_sub_command_alias-append (codes "TRANSFER") (codes "|0|TICK|5") action_aliases
      (ground arith) (given (codes "0|TICK|5"))

expand_sub_command_alias_idem_run :
    expand_sub_command_alias (expand_sub_command_alias first action_aliases) action_aliases
    ≡ expand_sub_command_alias first action_aliases
expand_sub_command_alias_idem_run =
    expand_sub_command_alias_idem first action_aliases action_aliases-AreFree
      action_aliases-IsCanonical

expand_sub_command_alias_exact_example :
    (name : Text) × (params : Text) × (canonical : Text) × (first ≡ name ++ params)
    × Free b'|' name
    × IsParams params
    × IsAliasOf action_aliases name canonical
    × (expand_sub_command_alias first action_aliases ≡ canonical ++ params)
expand_sub_command_alias_exact_example = expand_sub_command_alias_exact first action_aliases

max_identical_mint_ticks_max_example :
    ((k : Text)
      → count k (codes "A" ∷ codes "B" ∷ codes "A" ∷ [])
        ≤ max_identical_mint_ticks (codes "A" ∷ codes "B" ∷ codes "A" ∷ []))
    × ((k : Text) × (max_identical_mint_ticks (codes "A" ∷ codes "B" ∷ codes "A" ∷ [])
          ≡ count k (codes "A" ∷ codes "B" ∷ codes "A" ∷ [])))
max_identical_mint_ticks_max_example =
    max_identical_mint_ticks_max (codes "A" ∷ codes "B" ∷ codes "A" ∷ [])

length-le-batch_cost_weight_run : 2 ≤ batch_cost_weight both action_aliases
length-le-batch_cost_weight_run = length-le-batch_cost_weight both action_aliases

has_provably_rejected_batch_iff_example :
    (has_provably_rejected_batch ([] ∷ both) action_aliases (codes "regtest") (some 7) ≡ true)
    ↔ IsRejected ([] ∷ both) action_aliases (codes "regtest") (some 7)
has_provably_rejected_batch_iff_example =
    has_provably_rejected_batch_iff ([] ∷ both) action_aliases (codes "regtest") (some 7)

capture_open : is_batch_sub_command_capture_active (codes "regtest") (some 7) ≡ true
unfolding is_batch_sub_command_capture_active is_active get text_eq
capture_open = refl

capture_commands-batch_example : capture_commands batch (codes "regtest") (some 7) ≡ (
    if has_provably_rejected_batch both action_aliases (codes "regtest") (some 7)
    then []
    else map (λ c. expand_sub_command_alias c action_aliases) both)
capture_commands-batch_example =
    capture_commands-batch first (second ∷ []) (codes "regtest") (some 7) both-Free capture_open

capture_commands_legacy_run : capture_commands second (codes "regtest") (some 7) ≡ second ∷ []
unfolding starts_with
capture_commands_legacy_run = capture_commands_legacy second (codes "regtest") (some 7) (inr refl)

not_rejected : has_provably_rejected_batch both action_aliases (codes "regtest") (some 7) ≡ false
unfolding has_provably_rejected_batch get set text_eq is_batch_cost_weighting_active
    has_provably_rejected_sub_command sub_command_action_name tally_keys mint_ticks
    sub_command_limit_key expand_alias_name is_active batch_cost_weight sub_command_cost_weight
    max_identical_mint_ticks
not_rejected = refl

first_captured : In (codes "SEND|0|TICK|5") (capture_commands batch (codes "regtest") (some 7))
unfolding expand_sub_command_alias sub_command_action_name expand_alias_name get text_eq
first_captured = rw (capture_commands-batch_example, not_rejected) (here refl)

capture_commands_dispatched_example :
    (sub_command_action_name (codes "SEND|0|TICK|5") ≢ [])
    × (expand_alias_name (sub_command_action_name (codes "SEND|0|TICK|5")) action_aliases
        ≡ sub_command_action_name (codes "SEND|0|TICK|5"))
    × (¬ IsRejected both action_aliases (codes "regtest") (some 7))
capture_commands_dispatched_example =
    capture_commands_dispatched first (second ∷ []) (codes "regtest") (some 7)
      (codes "SEND|0|TICK|5") both-Free capture_open first_captured

has_provably_rejected_batch-Perm_example :
    has_provably_rejected_batch (first ∷ second ∷ []) action_aliases (codes "regtest") (some 7)
    ≡ has_provably_rejected_batch (second ∷ first ∷ []) action_aliases (codes "regtest") (some 7)
has_provably_rejected_batch-Perm_example =
    has_provably_rejected_batch-Perm (first ∷ second ∷ []) (second ∷ first ∷ []) action_aliases
      (codes "regtest") (some 7) ∣ Permᴰ.swap refl refl ∣₁
