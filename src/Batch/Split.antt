-- ===== src/Batch/Split.antt =====
-- `batchSubCommands`: the list of sub-commands of a BATCH string.
pub mod Laws
use xchain_decoder.Prelude.{
  ℕ, Bool, Option, none, some, List, [], ◌∷◌, ◌++◌, if◌then◌else◌, not, length, drop,
}
use xchain_decoder.Prelude.Text.{Text, starts_with, split, codes}

-- The registered FORMAT versions, as they are spelled.
abbrev pub batch_sub_command_formats : List Text
batch_sub_command_formats = codes "0" ∷ []

abbrev pub batch_prefix : Text → Text
batch_prefix format = codes "BATCH|" ++ (format ++ codes "|")

scan_formats : List Text → Text → List Text
scan_formats [] data' = []
scan_formats (format ∷ formats) data' =
    let prefix = batch_prefix format in
    let rest = scan_formats formats data' in
    if starts_with prefix data' then split b';' (drop (length prefix) data') else rest

-- `none` where the string is no BATCH at all, an empty list where its sub-commands never run.
unfoldable pub batch_sub_commands : Text → Option (List Text)
unfolding scan_formats
batch_sub_commands decoded_data =
    if not (starts_with (codes "BATCH|") decoded_data)
    then none
    else some (scan_formats batch_sub_command_formats decoded_data)
