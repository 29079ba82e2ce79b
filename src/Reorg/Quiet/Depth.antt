-- ===== src/Reorg/Quiet/Depth.antt =====
-- The checks before a delete are quiet.
use xchain_decoder.Prelude.{ℕ, zero, suc, Option, none, some}
use xchain_decoder.Prelude.Text.{Text}
use xchain_decoder.Reorg.{
  Block, World, Proof, proven, unproven, HaltReason, halted_before, halt, wait, Run, return, throw,
}
use xchain_decoder.Reorg.Depth.{
  raise_safe_depth_halt, assert_within_safe_depth, require_reorg_proof,
  require_above_tip_fork_proof, refusal_class, or_wait, refuse_or_halt_deep_gap,
  read_prior_rollback_depth, retry_count, refuse_halted_rollback,
}
use xchain_decoder.Prelude.{refl, arith}
use xchain_decoder.Reorg.Quiet.{
  Quiet, quiet, Quiet-bind, Quiet-throw, Quiet-get_state, Quiet-attempt, Quiet-if, Quiet-modify,
  Quiet-halt_reorg, Quiet-count_reorg_deletes_above_tip, Quiet-prove_fork_reorged_away,
  Quiet-get_block_by_index,
}

pub Quiet-refuse_halted_rollback : (w : World) → Quiet (refuse_halted_rollback w)
unfolding refuse_halted_rollback
Quiet-refuse_halted_rollback w =
    Quiet-bind _ _ (Quiet-modify _ (λ s. (refl, refl, omega arith, refl, λ h. h)))
      (λ done. Quiet-throw halted_before)

Quiet-or_retry :
    (depth : Option ℕ) (m : Run ℕ) → Quiet m → Quiet (elim depth [ some n ↦ return n | none ↦ m ])
Quiet-or_retry none m q = q
Quiet-or_retry (some n) m q = search quiet

Quiet-retry_count : (w : World) (attempts : ℕ) → Quiet (retry_count w attempts)
Quiet-retry_count w zero = search quiet
Quiet-retry_count w (suc attempts) =
    Quiet-bind _ _ (Quiet-attempt _ (Quiet-count_reorg_deletes_above_tip w))
      (λ depth. Quiet-or_retry depth _ (Quiet-retry_count w attempts))

pub Quiet-read_prior_rollback_depth : (w : World) → Quiet (read_prior_rollback_depth w)
unfolding read_prior_rollback_depth
Quiet-read_prior_rollback_depth w = Quiet-retry_count w 3

pub Quiet-raise_safe_depth_halt :
    (w : World) (reason : HaltReason) → Quiet (raise_safe_depth_halt w reason)
unfolding raise_safe_depth_halt
Quiet-raise_safe_depth_halt w reason = Quiet-bind _ _ (Quiet-halt_reorg w reason) (λ done.
    Quiet-bind _ _ Quiet-get_state (λ s.
      Quiet-if s.reorg_halt_marker_persisted _ _
        (Quiet-modify _ (λ u. (refl, refl, omega arith, refl, λ h. cc)))
        (Quiet-throw (halt reason))))

pub Quiet-assert_within_safe_depth :
    (w : World) (prior_depth : ℕ) → Quiet (assert_within_safe_depth w prior_depth)
unfolding assert_within_safe_depth
Quiet-assert_within_safe_depth w prior_depth = search (quiet, Quiet-raise_safe_depth_halt)

Quiet-unless_proven :
    (block : Block) (proof : Proof)
    → Quiet (elim proof [
      | proven ↦ return tt
      | unproven why ↦ throw {A = Unit {0}} (wait (refusal_class why) block)
    ])
Quiet-unless_proven block proven = search quiet
Quiet-unless_proven block (unproven why) = search quiet

pub Quiet-require_reorg_proof :
    (w : World) (block : Block) (node_tip : Option ℕ) → Quiet (require_reorg_proof w block node_tip)
unfolding require_reorg_proof
Quiet-require_reorg_proof w block node_tip =
    search (quiet, Quiet-prove_fork_reorged_away, Quiet-unless_proven)

Quiet-or_wait : (block : Block) (t : Option Text) → Quiet (or_wait block t)
Quiet-or_wait block none = search quiet
Quiet-or_wait block (some t) = search quiet

pub Quiet-require_above_tip_fork_proof :
    (w : World) (block : Block) (node_tip : ℕ)
    → Quiet (require_above_tip_fork_proof w block node_tip)
unfolding require_above_tip_fork_proof
Quiet-require_above_tip_fork_proof w block node_tip =
    search (quiet, Quiet-or_wait, Quiet-get_block_by_index, Quiet-require_reorg_proof) depth 12

pub Quiet-refuse_or_halt_deep_gap :
    (w : World) (block : Block) (node_tip prior_depth : ℕ)
    → Quiet (refuse_or_halt_deep_gap w block node_tip prior_depth)
unfolding refuse_or_halt_deep_gap
Quiet-refuse_or_halt_deep_gap w block node_tip prior_depth =
    search (quiet, Quiet-require_above_tip_fork_proof, Quiet-raise_safe_depth_halt)
