-- ===== src/Batch/Reject/Weight.antt =====
-- The weight of a batch against the number of its commands.
use xchain_decoder.Prelude.{ℕ, ◌≤◌, Option, List, [], ◌∷◌, length, arith}
use xchain_decoder.Prelude.Text.{Text}
use xchain_decoder.Prelude.Maps.{TextMap}
use xchain_decoder.Batch.Reject.{table_weight, sub_command_cost_weight, batch_cost_weight}

table_weight_positive : (o : Option ℕ) → 1 ≤ table_weight o
table_weight_positive o = ground arith

sub_command_cost_weight_positive :
    (command : Text) (aliases : TextMap Text) → 1 ≤ sub_command_cost_weight command aliases
unfolding sub_command_cost_weight
sub_command_cost_weight_positive command aliases = grind (arith, table_weight_positive)

-- A batch weighs at least as much as it has commands.
pub length-le-batch_cost_weight :
    (commands : List Text) (aliases : TextMap Text)
    → length commands ≤ batch_cost_weight commands aliases
unfolding batch_cost_weight
length-le-batch_cost_weight [] aliases = omega arith
length-le-batch_cost_weight (command ∷ commands) aliases = omega (
  arith,
  sub_command_cost_weight_positive command aliases,
  length-le-batch_cost_weight commands aliases,
)
