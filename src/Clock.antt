-- ===== src/Clock.antt =====
-- src/protocol/protocol_time.js: the instant at which a block's gates are read.
pub mod Median
pub mod Bounds
use xchain_decoder.Prelude.{
  ℕ, zero, suc, ◌/◌, Bool, true, false, Option, none, some, List, [], ◌∷◌, take, get_elem?, length,
  min, leb, if◌then◌else◌,
}
use xchain_decoder.Prelude.Text.{Text, codes}
use xchain_decoder.Prelude.Maps.{TextMap, get}
use xchain_decoder.Activation.{BlockTime}

abbrev pub median_time_span : ℕ
median_time_span = 11

abbrev pub protocol_time_mtp_networks : TextMap Bool
protocol_time_mtp_networks =
    (codes "mainnet", false) ∷ (codes "testnet", true) ∷ (codes "regtest", false) ∷ []

abbrev pub is_true : Option Bool → Bool
is_true (some true) = true
is_true _ = false

unfoldable pub is_protocol_time_mtp_active : Text → Bool
is_protocol_time_mtp_active network = is_true (get network protocol_time_mtp_networks)

-- `.map(Number)` and `.filter`: what is finite and above 0. `none` is every other number.
abbrev pub positive_times : List BlockTime → List ℕ
positive_times [] = []
positive_times (none ∷ times) = positive_times times
positive_times (some zero ∷ times) = positive_times times
positive_times (some (suc t) ∷ times) = suc t ∷ positive_times times

-- `times.sort((a, b) => a - b)`
abbrev pub insert : ℕ → List ℕ → List ℕ
insert t [] = t ∷ []
insert t (u ∷ us) = let rest = insert t us in if leb t u then t ∷ u ∷ us else u ∷ rest

unfoldable pub sort : List ℕ → List ℕ
sort [] = []
sort (t ∷ ts) = insert t (sort ts)

-- The times that take part: the newest of the list, which has them newest first.
abbrev pub window : List BlockTime → List ℕ
window times = positive_times (take median_time_span times)

-- `none` for the argument is what is no array, for the result `null`.
unfoldable pub median_time_past : Option (List BlockTime) → Option ℕ
unfolding sort
median_time_past none = none
median_time_past (some times) = get_elem? (sort (window times)) (length (window times) / 2)

-- `mtp === null ? raw : Math.min(mtp, raw)`
abbrev pub not_after : ℕ → Option ℕ → ℕ
not_after raw none = raw
not_after raw (some mtp) = min mtp raw

-- A raw time that is `false`, `null`, `undefined` or not finite is returned as it is: `none`.
unfoldable pub protocol_time : Text → BlockTime → Option (List BlockTime) → BlockTime
unfolding is_protocol_time_mtp_active median_time_past
protocol_time network none previous = none
protocol_time network (some raw) previous =
    if is_protocol_time_mtp_active network
    then some (not_after raw (median_time_past previous))
    else some raw
