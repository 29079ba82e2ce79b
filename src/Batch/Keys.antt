-- ===== src/Batch/Keys.antt =====
-- `isNumeric`, `isLegacyActionFormat`, `subCommandTick`, `subCommandLimitKey` and
-- `maxIdenticalMintTicks`.
pub mod Mints
use xchain_decoder.Prelude.{
  ℕ, ◌+◌, Bool, true, false, not, ◌&&◌, ◌||◌, Option, none, some, List, [], ◌∷◌, ◌==◌, ltb, leb,
  if◌then◌else◌, length, any, max,
}
use mathlib.Core.List.{tail, reverse}
use xchain_decoder.Prelude.Text.{Text, text_eq, split, starts_with, codes}
use xchain_decoder.Prelude.Maps.{TextMap, get, set}
use xchain_decoder.Batch.Limits.{child_issue_key}
use xchain_decoder.Batch.Names.{sub_command_action_name, expand_alias_name}

abbrev pub is_digit : ℕ → Bool
is_digit c = leb b'0' c && leb c b'9'

-- JavaScript's white space and line ends.
unfoldable pub is_space : ℕ → Bool
is_space c =
    (leb 9 c && leb c 13)
    || c == 0x20
    || c == 0xA0
    || c == 0x1680
    || (leb 0x2000 c && leb c 0x200A)
    || c == 0x2028
    || c == 0x2029
    || c == 0x202F
    || c == 0x205F
    || c == 0x3000
    || c == 0xFEFF

-- A blank, a sign or a point in front of a digit, or a blank or a point behind one.
numeric_pair : ℕ → ℕ → Bool
numeric_pair c d =
    (is_digit c && is_digit d)
    || ((is_space c || c == b'+' || c == b'-' || c == b'.') && is_digit d)
    || (is_digit c && (is_space d || d == b'.'))

-- `!isNaN(parseFloat(value)) && isFinite(value)` on strings of at most two units, the only ones that
-- are asked about.
is_numeric : Text → Bool
is_numeric [] = false
is_numeric (c ∷ []) = is_digit c
is_numeric (c ∷ d ∷ _) = numeric_pair c d

-- `undefined` prints as nine letters.
unfoldable pub is_legacy_action_format : List Text → Bool
unfolding is_numeric numeric_pair is_space
is_legacy_action_format [] = true
is_legacy_action_format (version ∷ params) = ltb 2 (length version) || not (is_numeric version)

-- `params[1]`, once a legacy command has had 0 put in front of its params.
second_param : Bool → List Text → Option Text
second_param legacy [] = none
second_param true (version ∷ params) = some version
second_param false (version ∷ []) = none
second_param false (version ∷ tick ∷ params) = some tick

unfoldable pub trim_start : Text → Text
trim_start [] = []
trim_start (c ∷ cs) = if is_space c then trim_start cs else c ∷ cs

unfoldable pub trim : Text → Text
unfolding trim_start is_space
trim s = reverse (trim_start (reverse (trim_start s)))

-- `String(command).split('|').slice(1)`
abbrev params_of : Text → List Text
params_of command = tail (split b'|' command)

takes_version : Text → Bool
takes_version action =
    text_eq action (codes "ISSUE") || text_eq action (codes "MINT") || text_eq action (codes "SEND")

abbrev trimmed : Option Text → Text
trimmed none = []
trimmed (some tick) = trim tick

unfoldable pub sub_command_tick : Text → Text → Text
unfolding takes_version is_legacy_action_format second_param trim
sub_command_tick action command =
    let params = params_of command in
    trimmed (second_param (takes_version action && is_legacy_action_format params) params)

-- A dotted TICK is a child issuance, but not a `^<id>` reference.
issue_key : Text → Option Text → Text
issue_key action none = action
issue_key action (some tick) =
    if starts_with (codes "^") tick
    then action
    else if any (λ c. c == b'.') tick
    then child_issue_key
    else action

-- The code returns `null` for what is no string, and no command is.
unfoldable pub sub_command_limit_key : Text → TextMap Text → Text
unfolding issue_key is_legacy_action_format second_param
sub_command_limit_key command aliases =
    let action = expand_alias_name (sub_command_action_name command) aliases in
    let params = params_of command in
    if not (text_eq action (codes "ISSUE"))
    then action
    else issue_key action (second_param (is_legacy_action_format params) params)

-- `counts.get(key) || 0`
abbrev pub or_zero : Option ℕ → ℕ
or_zero none = 0
or_zero (some n) = n

count_ticks : List Text → TextMap ℕ → ℕ → ℕ
count_ticks [] counts most = most
count_ticks (tick ∷ ticks) counts most =
    let count = or_zero (get tick counts) + 1 in
    count_ticks ticks (set tick count counts) (if ltb most count then count else most)

unfoldable pub max_identical_mint_ticks : List Text → ℕ
unfolding count_ticks
max_identical_mint_ticks ticks = count_ticks ticks [] 0
