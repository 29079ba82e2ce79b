-- ===== src/Clock/Bounds.antt =====
-- `protocolTime` against the stamps of the blocks.
use xchain_decoder.Prelude.{
  ℕ, suc, ◌/◌, ◌≤◌, ◌<◌, ◌≡◌, refl, inl, inr, true, Option, none, some, List, [], ◌∷◌, length, min,
  leb, leb→le, leb→lt, Bool-cases, arith,
}
use xchain_decoder.Prelude.Text.{Text}
use xchain_decoder.Activation.{BlockTime}
use xchain_decoder.Clock.{
  window, median_time_past, protocol_time, is_protocol_time_mtp_active, not_after,
}
use xchain_decoder.Clock.Median.{count_below, count_up_to, median_time_past_rank}

not_after-le : (raw : ℕ) (mtp : Option ℕ) → not_after raw mtp ≤ raw
not_after-le raw none = omega arith
not_after-le raw (some mtp) = omega arith

-- A readable stamp gives a protocol time, which is never after the stamp.
pub protocol_time-le-raw :
    (network : Text) (raw : ℕ) (previous : Option (List BlockTime))
    → (t : ℕ) × (protocol_time network (some raw) previous ≡ some t) × (t ≤ raw)
unfolding protocol_time
protocol_time-le-raw network raw previous =
    elim (Bool-cases (is_protocol_time_mtp_active network)) [
      | inl mtp ↦ (
        not_after raw (median_time_past previous),
        rw mtp refl,
        not_after-le raw (median_time_past previous),
      )
      | inr raw_stamp ↦ (raw, rw raw_stamp refl, omega arith)
    ]

count_below_mono : (a b : ℕ) (ts : List ℕ) → a ≤ b → count_below a ts ≤ count_below b ts
count_below_mono a b [] h = omega arith
count_below_mono a b (t ∷ ts) h = ground (arith, count_below_mono a b ts h)

count_below-le-length : (m : ℕ) (ts : List ℕ) → count_below m ts ≤ length ts
count_below-le-length m [] = omega arith
count_below-le-length m (t ∷ ts) = ground (arith, count_below-le-length m ts)

-- Where protocol time is the median, stamps in the future do not move it past the majority: if more than
-- half of the window's times are not after an instant, protocol time is not after it either, whatever
-- the block's own stamp is.
pub protocol_time_majority :
    (network : Text) (raw bound : ℕ) (previous : List BlockTime)
    → is_protocol_time_mtp_active network ≡ true
    → length (window previous) / 2 < count_up_to bound (window previous)
    → (t : ℕ) × (protocol_time network (some raw) (some previous) ≡ some t) × (t ≤ bound)
unfolding protocol_time
protocol_time_majority network raw bound previous mtp h =
    let within = count_below-le-length (suc bound) (window previous) in
    let (m, found, below, up_to) = median_time_past_rank previous (omega arith) in
    (
      min m raw,
      rw (mtp, found) refl,
      elim (Bool-cases (leb m bound)) [
        | inl le ↦ let le' = leb→le m bound le in omega arith
        | inr lt ↦
            let lt' = leb→lt m bound lt in
            let more = count_below_mono (suc bound) m (window previous) lt' in absurd (omega arith)
      ],
    )
