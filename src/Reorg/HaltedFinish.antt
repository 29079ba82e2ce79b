-- ===== src/Reorg/HaltedFinish.antt =====
-- The halted walk as a whole.
use xchain_decoder.Prelude.{ℕ, suc, ◌+◌, ◌-◌, ◌*◌, Option, none, some, length}
use xchain_decoder.Reorg.{World, HaltStop, held_at_tip, Decoder}
use xchain_decoder.Prelude.{◌≡◌, refl, ◌∙◌, arith}
use xchain_decoder.Reorg.Depth.{safe_depth_for}
use xchain_decoder.Reorg.Triple.{Triple, bind_rule, if_rule, read_rule, Triple_mono}
use xchain_decoder.Reorg.Quiet.{IsStable, Quiet, Quiet-Keeps}
use xchain_decoder.Reorg.HaltedWalk.{
  HaltedRead, stopped, found, finish_read, finish_halted_walk, holds_tip, stop,
}
use xchain_decoder.Reorg.Quiet.{Quiet-modify}
use xchain_decoder.Reorg.HaltedRead.{Outcome, read_halted_walk_rule}
use xchain_decoder.Reorg.HaltedDelete.{IsHalted, IsHalted-IsStable, delete_proven_blocks_rule}

Quiet-stop : (why : Option HaltStop) → Quiet (stop why)
Quiet-stop why = Quiet-modify _ (λ s. (refl, refl, omega arith, refl, λ h. h))

module _ (w : World) (start : Decoder) (prior_depth : ℕ) where
  abbrev pub Condemned : Decoder → Type 0
  Condemned = IsHalted w start prior_depth (2 * safe_depth_for w)

  Condemned-IsStable : IsStable Condemned
  Condemned-IsStable = IsHalted-IsStable w start prior_depth (2 * safe_depth_for w)

  -- As the reading began.
  abbrev Since : Decoder → Decoder → Type 0
  Since s u = Condemned u × (u.blocks ≡ s.blocks) × (u.blocks_deleted ≡ s.blocks_deleted)

  Since-IsStable : (s : Decoder) → IsStable (Since s)
  Since-IsStable s u v (b, d, c, r, h) (p, e, f) =
      (Condemned-IsStable u v (b, d, c, r, h) p, b ∙ e, d ∙ f)

  abbrev ReadSince : Decoder → HaltedRead → Decoder → Type 0
  ReadSince s =
      Outcome w (Since s) (Since-IsStable s) s.blocks (λ u p. p.1)
        (suc (2 * safe_depth_for w - (prior_depth + length s.blocks_deleted)))

  finish_read_rule :
      (tip : Option ℕ) (s : Decoder) (read : HaltedRead)
      → Triple (ReadSince s read) (finish_read w tip read) (λ done. Condemned) Condemned
  finish_read_rule tip s (stopped why) =
      λ u p. Quiet-Keeps Condemned _ Condemned-IsStable (Quiet-stop (some why)) u p.0
  finish_read_rule tip s (found stored_tip doomed fork_point) =
      if_rule (ReadSince s (found stored_tip doomed fork_point))
        (holds_tip tip stored_tip fork_point) _ _ (λ done. Condemned) Condemned
        (λ holds u p.
          Quiet-Keeps Condemned _ Condemned-IsStable (Quiet-stop (some held_at_tip)) u p.0.0)
        (λ free.
          bind_rule (ReadSince s (found stored_tip doomed fork_point)) _ _ (λ why. Condemned)
            (λ done. Condemned) Condemned
            (λ u ((p, b, d), (rest, e), short).
              delete_proven_blocks_rule w start prior_depth (2 * safe_depth_for w) doomed rest u
                (p, b ∙ e, rw d (omega (arith, rw d at p.0.within))))
            (λ why. Quiet-Keeps Condemned _ Condemned-IsStable (Quiet-stop why)))

  pub finish_halted_walk_rule :
      (node_tip : Option ℕ)
      → Triple Condemned (finish_halted_walk w node_tip prior_depth) (λ done. Condemned) Condemned
  unfolding finish_halted_walk
  finish_halted_walk_rule node_tip =
      bind_rule Condemned _ _ (λ done. Condemned) (λ done. Condemned) Condemned
        (Quiet-Keeps Condemned _ Condemned-IsStable (Quiet-stop none))
        (λ done.
          read_rule Condemned _ (λ done. Condemned) Condemned
            (λ s p.
              bind_rule (Since s) _ _ (ReadSince s) (λ done. Condemned) Condemned
                (Triple_mono (Since s) _ (ReadSince s) (ReadSince s) (Since s) Condemned
                  (read_halted_walk_rule w (Since s) (Since-IsStable s) s.blocks (λ u p. p.1)
                    node_tip (2 * safe_depth_for w) (prior_depth + length s.blocks_deleted)
                    p.0.ordered)
                  (λ a u h. h) (λ u p. p.0))
                (finish_read_rule node_tip s) s (p, refl, refl)))
