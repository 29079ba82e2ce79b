-- ===== src/Batch/Names.antt =====
-- Sub-command names and their aliases: `subCommandActionName`, `expandAliasName` and
-- `expandSubCommandAlias`.
pub mod Laws
use xchain_decoder.Prelude.{
  ℕ, Bool, true, false, Option, none, some, List, [], ◌∷◌, ◌++◌, ◌==◌, if◌then◌else◌, length, drop,
  any,
}
use xchain_decoder.Prelude.Text.{Text, text_eq, codes}
use xchain_decoder.Prelude.Maps.{TextMap, get}

-- Every unit before the first '|', or all of them.
unfoldable pub sub_command_action_name : Text → Text
sub_command_action_name [] = []
sub_command_action_name (c ∷ cs) = if c == b'|' then [] else c ∷ sub_command_action_name cs

-- An own entry that is a non-empty string replaces the name.
abbrev usable : Option Text → Text → Text
usable none name = name
usable (some []) name = name
usable (some (c ∷ cs)) name = c ∷ cs

unfoldable pub expand_alias_name : Text → TextMap Text → Text
expand_alias_name [] aliases = []
expand_alias_name (c ∷ cs) aliases = usable (get (c ∷ cs) aliases) (c ∷ cs)

abbrev rewrite_name : Text → Text → TextMap Text → Text
rewrite_name command [] aliases = command
rewrite_name command (c ∷ cs) aliases =
    let name = c ∷ cs in
    let canonical = expand_alias_name name aliases in
    if text_eq canonical name then command else canonical ++ drop (length name) command

unfoldable pub expand_sub_command_alias : Text → TextMap Text → Text
expand_sub_command_alias command aliases =
    rewrite_name command (sub_command_action_name command) aliases

-- A '' name takes the whole batch down.
unfoldable pub has_provably_rejected_sub_command : List Text → Bool
has_provably_rejected_sub_command commands =
    any (λ command. text_eq (sub_command_action_name command) []) commands
