-- ===== src/Dispenser/Oracle.antt =====
-- src/protocol/oracle_fee_output.js, and the resolution of oracle addresses in
-- src/XChainDecoder/dispenser_and_oracle_fees.js: which outputs count as oracle fees of a transaction.
pub mod Cache
use xchain_decoder.Prelude.{
  ℕ, zero, suc, ◌+◌, ◌*◌, ◌-◌, Bool, true, false, not, ◌&&◌, Option, none, some, List, [], ◌∷◌,
  ◌++◌, any, leb, if◌then◌else◌, ◌==◌, length, get_elem?,
}
use xchain_decoder.Prelude.Integers.{ℤ, pos, negsuc}
use xchain_decoder.Prelude.Text.{Text, text_eq, starts_with, split, codes}
use xchain_decoder.Activation.{
  BlockTime, is_active, oracle_fee_output_activation, oracle_fee_set_capture_activation,
}
use xchain_decoder.Batch.Keys.{is_digit, trim_start}

abbrev pub v0_give_coin_index : ℕ
v0_give_coin_index = 2

abbrev pub v0_get_coin_index : ℕ
v0_get_coin_index = 7

abbrev pub v0_get_address_index : ℕ
v0_get_address_index = 10

abbrev pub oracle_address_index : ℕ
oracle_address_index = 13

abbrev pub v0_expiration_index : ℕ
v0_expiration_index = 14

abbrev pub v0_required_field_count : ℕ
v0_required_field_count = 10

abbrev pub v2_expiration_index : ℕ
v2_expiration_index = 4

unfoldable pub is_oracle_fee_capture_active : Text → BlockTime → Bool
unfolding is_active
is_oracle_fee_capture_active network time = is_active oracle_fee_output_activation network time

unfoldable pub is_oracle_fee_set_capture_active : Text → BlockTime → Bool
unfolding is_active
is_oracle_fee_set_capture_active network time =
    is_active oracle_fee_set_capture_activation network time

-- A token that is missing, empty or begins with '^' names no oracle.
abbrev pub plain_token : Option Text → Option Text
plain_token none = none
plain_token (some []) = none
plain_token (some (c ∷ cs)) = if c == b'^' then none else some (c ∷ cs)

abbrev pub compacted : Option Text → Bool
compacted none = false
compacted (some []) = false
compacted (some (c ∷ cs)) = c == b'^'

unfoldable pub oracle_address_from_create : List Text → Option Text
oracle_address_from_create fields = plain_token (get_elem? fields oracle_address_index)

unfoldable pub is_compacted_oracle_address : List Text → Bool
is_compacted_oracle_address fields = compacted (get_elem? fields oracle_address_index)

-- `parseInt(token, 10)`: leading white space, a sign, and the longest run of digits; `none` is NaN.
unfoldable pub digits_onto : ℕ → Text → ℕ
digits_onto n [] = n
digits_onto n (c ∷ cs) =
    let more = digits_onto (10 * n + (c - b'0')) cs in if is_digit c then more else n

unfoldable pub unsigned : Text → Option ℕ
unfolding digits_onto
unsigned [] = none
unsigned (c ∷ cs) = if is_digit c then some (digits_onto 0 (c ∷ cs)) else none

abbrev pub negated : ℕ → ℤ
negated zero = pos 0
negated (suc n) = negsuc n

abbrev pub as_integer : (ℕ → ℤ) → Option ℕ → Option ℤ
as_integer sign none = none
as_integer sign (some n) = some (sign n)

unfoldable pub signed : Text → Option ℤ
unfolding unsigned
signed [] = none
signed (c ∷ cs) =
    if c == b'-'
    then as_integer negated (unsigned cs)
    else as_integer pos (if c == b'+' then unsigned cs else unsigned (c ∷ cs))

-- `undefined` prints as letters, which are no number.
unfoldable pub parse_int_10 : Option Text → Option ℤ
unfolding signed
parse_int_10 none = none
parse_int_10 (some token) = signed (trim_start token)

-- The rows of the open dispensers of a source, `none` for a fault of the database: all the oracle
-- addresses, `null` among them, and the one that ranks first.
pub record OpenDispensers : Type 0 where
  pub oracle_addresses : Text → Option (List (Option Text))
  pub oracle_address : Text → Option (Option Text)

-- `typeof nextAddress === 'string' && nextAddress.length > 0`
abbrev pub named : List (Option Text) → List Text
named [] = []
named (none ∷ addresses) = named addresses
named (some [] ∷ addresses) = named addresses
named (some (c ∷ cs) ∷ addresses) = (c ∷ cs) ∷ named addresses

-- How often `parseErrors` is raised, and the addresses, or `none` for `false`.
abbrev pub Resolution : Type 0
Resolution = ℕ × Option (List Text)

abbrev pub one_or_none : Option (Option Text) → Option (List Text)
one_or_none none = none
one_or_none (some address) = some (named (address ∷ []))

abbrev pub all_named : Option (List (Option Text)) → Option (List Text)
all_named none = none
all_named (some addresses) = some (named addresses)

unfoldable pub resolve_create : List Text → Resolution
unfolding is_compacted_oracle_address oracle_address_from_create
resolve_create fields =
    if is_compacted_oracle_address fields
    then (1, some [])
    else (0, some (named (oracle_address_from_create fields ∷ [])))

module _ (rows : OpenDispensers) (network source : Text) (time : BlockTime) where
  unfoldable pub resolve_edit : Resolution
  unfolding is_oracle_fee_set_capture_active
  resolve_edit =
      if text_eq source []
      then (0, some [])
      else if is_oracle_fee_set_capture_active network time
      then (0, all_named (rows.oracle_addresses source))
      else (0, one_or_none (rows.oracle_address source))

  abbrev pub resolve_format : Option ℤ → List Text → Resolution
  resolve_format (some (pos zero)) fields = resolve_create fields
  resolve_format (some (pos (suc (suc zero)))) fields = resolve_edit
  resolve_format _ fields = (0, some [])

  unfoldable pub resolve_oracle_fee_addresses : Text → Resolution
  unfolding is_oracle_fee_capture_active parse_int_10
  resolve_oracle_fee_addresses decoded_data =
      let fields = split b'|' decoded_data in
      if not (starts_with (codes "DISPENSER|") decoded_data)
      then (0, some [])
      else if not (is_oracle_fee_capture_active network time)
      then (0, some [])
      else resolve_format (parse_int_10 (get_elem? fields 1)) fields

  abbrev pub cache_key : Text → Text
  cache_key command =
      if starts_with (codes "DISPENSER|2|") command then codes "DISPENSER|2|" else command

  -- The first `false` ends the loop.
  abbrev pub joined : Resolution → Resolution → Resolution
  joined (errors, none) rest = (errors, none)
  joined (errors, some addresses) (more, none) = (errors + more, none)
  joined (errors, some addresses) (more, some others) = (errors + more, some (addresses ++ others))

  unfoldable pub resolve_commands : List Text → List Text → Resolution
  resolve_commands [] resolved = (0, some [])
  resolve_commands (command ∷ commands) resolved =
      let skipped = resolve_commands commands resolved in
      let next = resolve_commands commands (resolved ++ cache_key command ∷ []) in
      if not (starts_with (codes "DISPENSER|") command)
      then skipped
      else if any (text_eq (cache_key command)) resolved
      then skipped
      else joined (resolve_oracle_fee_addresses command) next

  unfoldable pub resolve_oracle_fee_addresses_for_commands : List Text → Resolution
  resolve_oracle_fee_addresses_for_commands commands = resolve_commands commands []

-- `giveCoin === this.coinTick && getCoin === this.coinTick`
abbrev pub is_coin : Text → Option Text → Bool
is_coin coin_tick none = false
is_coin coin_tick (some coin) = text_eq coin coin_tick

unfoldable pub dispenser_opens_for_this_chain : Text → Option Text → Option Text → Bool
dispenser_opens_for_this_chain coin_tick give_coin get_coin =
    is_coin coin_tick give_coin && is_coin coin_tick get_coin

unfoldable pub has_required_dispenser_create_fields : List Text → Bool
has_required_dispenser_create_fields fields = leb v0_required_field_count (length fields)
