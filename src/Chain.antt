-- ===== src/Chain.antt =====
-- src/protocol/chain_identity.js: whether the node serves the chain that is configured. A reported value
-- is `none` where the code finds no string. The table is an object literal, so a name that every object
-- inherits finds the inherited member. Hashes are ASCII.
pub mod Laws
use xchain_decoder.Prelude.{
  ℕ, ◌+◌, Bool, true, false, ◌&&◌, Option, none, some, List, [], ◌∷◌, ◌++◌, map, leb, if◌then◌else◌,
}
use xchain_decoder.Prelude.Text.{Text, text_eq, codes}
use xchain_decoder.Prelude.Maps.{TextMap, get}

abbrev pub chain_to_network : TextMap Text
chain_to_network =
    (codes "main", codes "mainnet")
    ∷ (codes "test", codes "testnet")
    ∷ (codes "testnet3", codes "testnet")
    ∷ (codes "testnet4", codes "testnet")
    ∷ (codes "regtest", codes "regtest")
    ∷ (codes "signet", codes "signet")
    ∷ []

-- What an object literal inherits, each member as it prints.
abbrev pub object_members : TextMap Text
object_members =
    (codes "constructor", codes "function Object() { [native code] }")
    ∷ (codes "__defineGetter__", codes "function __defineGetter__() { [native code] }")
    ∷ (codes "__defineSetter__", codes "function __defineSetter__() { [native code] }")
    ∷ (codes "hasOwnProperty", codes "function hasOwnProperty() { [native code] }")
    ∷ (codes "__lookupGetter__", codes "function __lookupGetter__() { [native code] }")
    ∷ (codes "__lookupSetter__", codes "function __lookupSetter__() { [native code] }")
    ∷ (codes "isPrototypeOf", codes "function isPrototypeOf() { [native code] }")
    ∷ (codes "propertyIsEnumerable", codes "function propertyIsEnumerable() { [native code] }")
    ∷ (codes "toString", codes "function toString() { [native code] }")
    ∷ (codes "valueOf", codes "function valueOf() { [native code] }")
    ∷ (codes "toLocaleString", codes "function toLocaleString() { [native code] }")
    ∷ (codes "__proto__", codes "[object Object]")
    ∷ []

abbrev pub tier_reason : Text → Text → Text → Text
tier_reason consensus_network chain mapped =
    codes "node reports chain=\""
    ++ chain
    ++ codes "\" ("
    ++ mapped
    ++ codes ") but this decoder is configured for "
    ++ consensus_network

-- A missing or empty entry is falsy; an inherited member is truthy and no text, so it equals no network.
abbrev pub differing_tier : Text → Text → Option Text → Option Text → Option Text
differing_tier consensus_network chain none none = none
differing_tier consensus_network chain none (some member) =
    some (tier_reason consensus_network chain member)
differing_tier consensus_network chain (some []) inherited = none
differing_tier consensus_network chain (some (c ∷ cs)) inherited =
    if text_eq (c ∷ cs) consensus_network
    then none
    else some (tier_reason consensus_network chain (c ∷ cs))

unfoldable pub chain_tier_mismatch : Text → Option Text → Option Text
chain_tier_mismatch consensus_network none = none
chain_tier_mismatch consensus_network (some []) = none
chain_tier_mismatch consensus_network (some (c ∷ cs)) =
    differing_tier consensus_network (c ∷ cs) (get (c ∷ cs) chain_to_network)
      (get (c ∷ cs) object_members)

unfoldable pub chain_field_missing : Option Text → Bool
chain_field_missing none = true
chain_field_missing (some []) = true
chain_field_missing (some (c ∷ cs)) = false

-- `toLowerCase`
abbrev pub lower : ℕ → ℕ
lower c = if leb 65 c && leb c 90 then c + 32 else c

abbrev pub lowered : Text → Text
lowered [] = []
lowered (c ∷ cs) = lower c ∷ lowered cs

abbrev pub differing_genesis : Text → Text → Option Text
differing_genesis pinned reported =
    if text_eq (lowered pinned) (lowered reported)
    then none
    else some (
        codes "node block-0 hash is "
        ++ reported
        ++ codes ", but this decoder is pinned to "
        ++ pinned
        ++ codes ", so the endpoint is serving a different chain")

unfoldable pub chain_genesis_mismatch : Option Text → Option Text → Option Text
chain_genesis_mismatch (some (p ∷ ps)) (some (r ∷ rs)) = differing_genesis (p ∷ ps) (r ∷ rs)
chain_genesis_mismatch _ _ = none

unfoldable pub chain_genesis_unpinned : Option Text → Bool
chain_genesis_unpinned none = true
chain_genesis_unpinned (some []) = true
chain_genesis_unpinned (some (c ∷ cs)) = false
