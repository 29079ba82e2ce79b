-- ===== src/Batch/Capture.antt =====
-- `captureCommands` of src/protocol/batch_sub_command_capture.js: the commands over which outputs are
-- captured.
pub mod Laws
use xchain_decoder.Prelude.{Bool, Option, none, some, List, [], ◌∷◌, map, if◌then◌else◌}
use xchain_decoder.Prelude.Text.{Text}
use xchain_decoder.Activation.{BlockTime, is_active, batch_subcommand_output_capture_activation}
use xchain_decoder.Batch.Limits.{action_aliases}
use xchain_decoder.Batch.Split.{batch_sub_commands}
use xchain_decoder.Batch.Names.{expand_sub_command_alias}
use xchain_decoder.Batch.Reject.{has_provably_rejected_batch}

unfoldable pub is_batch_sub_command_capture_active : Text → BlockTime → Bool
unfolding is_active
is_batch_sub_command_capture_active network time =
    is_active batch_subcommand_output_capture_activation network time

captured : Text → Option (List Text) → Text → BlockTime → List Text
captured decoded_data none network time = decoded_data ∷ []
captured decoded_data (some commands) network time =
    if has_provably_rejected_batch commands action_aliases network time
    then []
    else map (λ command. expand_sub_command_alias command action_aliases) commands

unfoldable pub capture_commands : Text → Text → BlockTime → List Text
unfolding captured
capture_commands decoded_data network time =
    if is_batch_sub_command_capture_active network time
    then captured decoded_data (batch_sub_commands decoded_data) network time
    else decoded_data ∷ []
