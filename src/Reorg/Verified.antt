-- ===== src/Reorg/Verified.antt =====
-- The walk to its end, and `verifyReorg` around it.
use xchain_decoder.Prelude.{
  ℕ, zero, suc, ◌*◌, Bool, true, false, Option, none, some, [], length, take,
}
use xchain_decoder.Reorg.{World, HaltReason, still_running, Decoder, Run, return}
use xchain_decoder.Prelude.{◌≡◌, ◌≢◌, ◌≤◌, refl, arith}
use xchain_decoder.Reorg.Store.{max_height}
use xchain_decoder.Reorg.Depth.{safe_depth_for}
use xchain_decoder.Reorg.Triple.{Post, Triple, bind_rule, throw_rule, read_rule, Triple_mono}
use xchain_decoder.Reorg.Rollback.{IsRolledBack}
use xchain_decoder.Reorg.Store.{heights_above_tip, scan_limit, reorg_rows}
use xchain_decoder.Reorg.Depth.{is_set}
use xchain_decoder.Reorg.Walk.{Next, finished, again, walk_reorg}
use mathlib.Core.Option
use xchain_decoder.Prelude.{take}
use xchain_decoder.Reorg.Rounds.{In, AfterRound, IsReconciled}
use xchain_decoder.Reorg.Classify.{walk_round_rule}
use xchain_decoder.Reorg.HaltedFinish.{Condemned, finish_halted_walk_rule}

-- The depth that the tables show as rolled back and not stored again: what `countReorgDeletesAboveTip` counts.
abbrev pub depth_above : Decoder → Option ℕ
depth_above s =
    Option.map length
      (heights_above_tip (max_height s.blocks) (take scan_limit (reorg_rows s.events)) [])

pub IsRolledBack-mono :
    (w : World) (start : Decoder) (prior_depth low high : ℕ) (s : Decoder)
    → low ≤ high
    → IsRolledBack w start prior_depth low s
    → IsRolledBack w start prior_depth high s
IsRolledBack-mono w start prior_depth low high s h r = record {
  taken = r.taken;
  ordered = r.ordered;
  reorged_away = r.reorged_away;
  within = omega (arith, r.within);
  marked = r.marked;
  later = r.later;
}

module _ (w : World) (start : Decoder) (prior_depth : ℕ) where
  abbrev pub InTwoWindows : Decoder → Type 0
  InTwoWindows = IsRolledBack w start prior_depth (2 * safe_depth_for w)

  -- A walk that was not halted stayed within one window and reconciled the table.
  abbrev pub IsWalked : Decoder → Type 0
  IsWalked u =
      InTwoWindows u
      × (u.halt_error ≡ none → In w start prior_depth u × IsReconciled w start prior_depth u)

  wider : (u : Decoder) → In w start prior_depth u → InTwoWindows u
  wider u p =
      IsRolledBack-mono w start prior_depth (safe_depth_for w) (2 * safe_depth_for w) u
        (omega arith) p

  next_rule :
      (fuel : ℕ)
      → ((tip : Option ℕ) (retries : ℕ)
          → Triple
              (In w start prior_depth)
              (walk_reorg w prior_depth fuel tip retries)
              (λ done. IsWalked)
              InTwoWindows)
      → (next : Next)
      → Triple
          (AfterRound w start prior_depth next)
          (elim next [
            | finished ↦ return tt
            | again tip retries ↦ walk_reorg w prior_depth fuel tip retries
          ])
          (λ done. IsWalked)
          InTwoWindows
  unfolding return
  next_rule fuel ih finished = λ s (p, e). (wider s p, λ h. (p, e refl))
  next_rule fuel ih (again tip retries) = λ s (p, e). ih tip retries s p

  set_cases :
      (P : Decoder → Type 0) (b : Bool) (m n : Run (Unit {0})) (Q : Unit {0} → Decoder → Type 0)
      (E : Decoder → Type 0) (s : Decoder)
      → (b ≡ true → Post Q E (m s))
      → (b ≡ false → Post Q E (n s))
      → Post Q E ((let either : Run (Unit {0}) = elim b [ true ↦ m | false ↦ n ] in either) s)
  set_cases P true m n Q E s t f = t refl
  set_cases P false m n Q E s t f = f refl

  set-nonempty : (h : Option HaltReason) → is_set h ≡ true → h ≢ none
  set-nonempty none e = cc
  set-nonempty (some reason) e = λ f. cc

  pub walk_reorg_rule :
      (fuel : ℕ) (tip : Option ℕ) (retries : ℕ)
      → Triple
          (In w start prior_depth)
          (walk_reorg w prior_depth fuel tip retries)
          (λ done. IsWalked)
          InTwoWindows
  unfolding walk_reorg
  walk_reorg_rule zero tip retries =
      throw_rule (In w start prior_depth) still_running (λ done. IsWalked) InTwoWindows wider
  walk_reorg_rule (suc fuel) tip retries =
      read_rule (In w start prior_depth) _ (λ done. IsWalked) InTwoWindows
        (λ s p.
          set_cases (In w start prior_depth) (is_set s.halt_error) _ _ (λ done. IsWalked)
            InTwoWindows s
            (λ set.
              Triple_mono (Condemned w start prior_depth) _ (λ done. Condemned w start prior_depth)
                (λ done. IsWalked) (Condemned w start prior_depth) InTwoWindows
                (finish_halted_walk_rule w start prior_depth tip)
                (λ done u (q, halts). (q, λ e. absurd (halts e))) (λ u q. q.0) s
                (wider s p, set-nonempty s.halt_error set))
            (λ unset.
              bind_rule (In w start prior_depth) _ _ (AfterRound w start prior_depth)
                (λ done. IsWalked) InTwoWindows
                (Triple_mono (In w start prior_depth) _ (AfterRound w start prior_depth)
                  (AfterRound w start prior_depth) (In w start prior_depth) InTwoWindows
                  (walk_round_rule w start prior_depth tip retries) (λ a u h. h) wider)
                (next_rule fuel (walk_reorg_rule fuel)) s p))
