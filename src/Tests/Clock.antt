-- ===== src/Tests/Clock.antt =====
-- Protocol time over a few stamps, and a gate.
use xchain_decoder.Prelude.{
  ℕ, ◌/◌, ◌≤◌, ◌<◌, ◌≡◌, ◌↔◌, refl, true, none, some, List, [], ◌∷◌, length, arith,
}
use xchain_decoder.Prelude.Text.{codes, text_eq}
use xchain_decoder.Prelude.Maps.{get}
use xchain_decoder.Activation.{
  BlockTime, is_active, is_active_iff, batch_subcommand_output_capture_activation,
}
use xchain_decoder.Clock.{window, median_time_past, protocol_time, is_protocol_time_mtp_active}
use xchain_decoder.Clock.Median.{count_below, count_up_to, median_time_past_rank}
use xchain_decoder.Clock.Bounds.{protocol_time-le-raw, protocol_time_majority}

-- Newest first; one stamp is unreadable and one far ahead.
abbrev stamps : List BlockTime
stamps = some 900 ∷ some 100 ∷ none ∷ some 120 ∷ []

median_run : median_time_past (some stamps) ≡ some 120
unfolding median_time_past
median_run = refl

median_time_past_rank_example :
    (m : ℕ) × (median_time_past (some stamps) ≡ some m)
    × (count_below m (window stamps) ≤ length (window stamps) / 2)
    × (length (window stamps) / 2 < count_up_to m (window stamps))
median_time_past_rank_example = median_time_past_rank stamps (omega arith)

protocol_time-le-raw_run :
    (t : ℕ) × (protocol_time (codes "testnet") (some 800) (some stamps) ≡ some t) × (t ≤ 800)
protocol_time-le-raw_run = protocol_time-le-raw (codes "testnet") 800 (some stamps)

testnet_active : is_protocol_time_mtp_active (codes "testnet") ≡ true
unfolding is_protocol_time_mtp_active get text_eq
testnet_active = refl

protocol_time_majority_example :
    (t : ℕ) × (protocol_time (codes "testnet") (some 800) (some stamps) ≡ some t) × (t ≤ 150)
protocol_time_majority_example =
    protocol_time_majority (codes "testnet") 800 150 stamps testnet_active (omega arith)

is_active_iff_run :
    (is_active batch_subcommand_output_capture_activation (codes "regtest") (some 7) ≡ true) ↔ (
      (activation : ℕ) × (t : ℕ) × (get (codes "regtest") batch_subcommand_output_capture_activation
        ≡ some (some activation))
      × (some 7 ≡ some t)
      × (activation ≤ t))
is_active_iff_run =
    is_active_iff batch_subcommand_output_capture_activation (codes "regtest") (some 7)
