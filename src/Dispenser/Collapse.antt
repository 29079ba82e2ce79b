-- ===== src/Dispenser/Collapse.antt =====
-- src/protocol/dispenser_registration_collapse.js, and its callers in
-- src/protocol/batch_sub_command_capture.js: the creates of one transaction, one registration per key.
pub mod Merge
pub mod Order
pub mod Keys
pub mod Resolved
use xchain_decoder.Prelude.{
  ℕ, ◌+◌, ◌≤◌, Bool, true, false, Option, none, some, List, [], ◌∷◌, ◌++◌, map, any, ltb, leb, ◌&&◌,
  if◌then◌else◌, length, drop, arith,
}
use xchain_decoder.Prelude.Text.{Text, text_eq, codes}
use xchain_decoder.Prelude.Maps.{TextMap, get, set}
use xchain_decoder.Activation.{BlockTime, is_active, dispenser_address_id_collapse_activation}

-- A candidate, and what the registry gets. Its oracle is `none` for `null` and for `undefined`.
pub record Registration : Type 0 where
  pub address : Text
  pub source_address : Text
  pub oracle_address : Option Text
  pub expiration : ℕ

abbrev pub registration : Text → Text → Option Text → ℕ → Registration
registration a s o e = record {
  address = a;
  source_address = s;
  oracle_address = o;
  expiration = e;
}

-- `address || null`: an empty string is falsy.
abbrev pub or_null : Option Text → Option Text
or_null none = none
or_null (some []) = none
or_null (some (c ∷ cs)) = some (c ∷ cs)

-- The selected key, or the address where `keyOf` is absent or selects nothing.
unfoldable pub selected : Option Text → Text → Text
selected none address = address
selected (some []) address = address
selected (some (c ∷ cs)) address = c ∷ cs

abbrev pub opened : Registration → Registration
opened c = registration c.address c.source_address (or_null c.oracle_address) c.expiration

-- `!existing.oracleAddress && candidate.oracleAddress`
abbrev pub first_oracle : Option Text → Option Text → Option Text
first_oracle none next = or_null next
first_oracle (some o) next = some o

unfoldable pub merge : Registration → Registration → Registration
merge existing c =
    registration existing.address existing.source_address
      (first_oracle existing.oracle_address c.oracle_address)
      (if ltb existing.expiration c.expiration then c.expiration else existing.expiration)

abbrev pub absorbed : Option Registration → Registration → Registration
absorbed none c = opened c
absorbed (some existing) c = merge existing c

module _ (key_of : Text → Option Text) where
  abbrev pub key : Registration → Text
  key c = selected (key_of c.address) c.address

  -- One turn of the loop; a candidate without an address is passed over.
  unfoldable pub absorb : TextMap Registration → Registration → TextMap Registration
  absorb collapsed c =
      if text_eq c.address []
      then collapsed
      else set (key c) (absorbed (get (key c) collapsed) c) collapsed

  unfoldable pub absorb_all : TextMap Registration → List Registration → TextMap Registration
  absorb_all collapsed [] = collapsed
  absorb_all collapsed (c ∷ cs) = absorb_all (absorb collapsed c) cs

  unfoldable pub collapse_registrations_by_key : List Registration → List Registration
  unfolding absorb_all
  collapse_registrations_by_key candidates = map (λ e. e.1) (absorb_all [] candidates)

-- `keyOf` is `null`.
abbrev pub no_key : Text → Option Text
no_key address = none

-- The key of a resolved address. `address_id_of` is the lookup of the table index_addresses, with the
-- id in decimal digits.
abbrev pub address_key : Option Text → Text → Text
address_key none address = codes "address:" ++ address
address_key (some id) address = codes "address-id:" ++ id

unfoldable pub dispenser_address_key : (Text → Option Text) → Text → Text
dispenser_address_key address_id_of address = address_key (address_id_of address) address

-- The distinct addresses: `rawAddresses`, a `Set`.
unfoldable pub raw_addresses : List Registration → List Text → List Text
raw_addresses [] seen = seen
raw_addresses (c ∷ cs) seen =
    let same = raw_addresses cs seen in
    let more = raw_addresses cs (seen ++ c.address ∷ []) in
    if text_eq c.address [] then same else (if any (text_eq c.address) seen then same else more)

-- `keys`: every address is resolved once.
unfoldable pub address_keys : (Text → Option Text) → List Registration → TextMap Text → TextMap Text
address_keys address_id_of [] keys = keys
address_keys address_id_of (c ∷ cs) keys =
    let same = address_keys address_id_of cs keys in
    let more =
      address_keys address_id_of cs
        (set c.address (dispenser_address_key address_id_of c.address) keys) in
    if text_eq c.address [] then same else elim (get c.address keys) [ none ↦ more | some k ↦ same ]

unfoldable pub collapse_registrations_by_address_id :
    (Text → Option Text) → List Registration → List Registration
unfolding collapse_registrations_by_key address_keys raw_addresses
collapse_registrations_by_address_id address_id_of candidates =
    let keys = address_keys address_id_of candidates [] in
    if ltb (length (raw_addresses candidates [])) 2
    then collapse_registrations_by_key no_key candidates
    else collapse_registrations_by_key (λ address. get address keys) candidates

abbrev pub lower : ℕ → ℕ
lower c = if leb 65 c && leb c 90 then c + 32 else c

-- `.replace(/ +$/, '')`
unfoldable pub without_trailing_spaces : Text → Text
without_trailing_spaces [] = []
without_trailing_spaces (c ∷ cs) = elim (without_trailing_spaces cs) [
  | [] ↦ if text_eq (c ∷ []) (codes " ") then [] else c ∷ []
  | d ∷ ds ↦ c ∷ d ∷ ds
]

unfoldable pub legacy_dispenser_address_key : Text → Text
legacy_dispenser_address_key address = without_trailing_spaces (map lower address)

unfoldable pub is_dispenser_address_id_collapse_active : Text → BlockTime → Bool
unfolding is_active
is_dispenser_address_id_collapse_active network time =
    is_active dispenser_address_id_collapse_activation network time

-- `none` for `addressIdOf` is a caller without a table.
unfoldable pub collapse_dispenser_registrations :
    List Registration → Text → BlockTime → Option (Text → Option Text) → List Registration
unfolding collapse_registrations_by_key collapse_registrations_by_address_id
collapse_dispenser_registrations candidates network time (some address_id_of) =
    if is_dispenser_address_id_collapse_active network time
    then collapse_registrations_by_address_id address_id_of candidates
    else collapse_registrations_by_key no_key candidates
collapse_dispenser_registrations candidates network time none =
    if is_dispenser_address_id_collapse_active network time
    then collapse_registrations_by_key (λ address. some (legacy_dispenser_address_key address))
        candidates
    else collapse_registrations_by_key no_key candidates
