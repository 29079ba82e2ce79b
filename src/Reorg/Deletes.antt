-- ===== src/Reorg/Deletes.antt =====
-- A delete of the walk, in either branch, keeps what a rollback satisfies.
use xchain_decoder.Prelude.{ℕ, false, Option, none, some, List, ◌∷◌}
use xchain_decoder.Reorg.{Block, World, HaltReason, Decoder, Run, return, modify, ◌>>◌}
use xchain_decoder.Prelude.{◌≡◌, refl, inl, inr, Bool-cases}
use xchain_decoder.Reorg.Store.{delete_block_by_index}
use xchain_decoder.Reorg.Depth.{safe_depth_for, is_set}
use xchain_decoder.Reorg.HaltedWalk.{push_deleted}
use xchain_decoder.Reorg.Walk.{
  try_delete, count_failure, unless_halted, delete_forked_block, delete_above_tip_block,
}
use xchain_decoder.Reorg.Triple.{
  Triple, bind_rule, return_rule, modify_rule, read_rule, Triple_mono, attempt_rule,
}
use xchain_decoder.Reorg.Quiet.{IsStable, Quiet, Quiet-Keeps, Quiet-halt_reorg, quiet}
use xchain_decoder.Reorg.Quiet.Depth.{Quiet-refuse_or_halt_deep_gap}
use xchain_decoder.Reorg.Rollback.{
  WasReorgedAway, WasReorgedAway-later, IsRolledBack, IsRolledBack-IsStable, IsDoomed,
  IsHalfDeleted, AfterAttempt, delete_rule,
}
use xchain_decoder.Reorg.Evidence.{HasRoom, require_reorg_proof_rule, assert_within_safe_depth_rule}

Quiet-count_failure : (w : World) (retry_count : ℕ) → Quiet (count_failure w retry_count)
Quiet-count_failure w retry_count = search (quiet, Quiet-halt_reorg)

not-is_set : (h : Option HaltReason) → is_set h ≡ false → h ≡ none
not-is_set none e = refl
not-is_set (some reason) e = cc

module _ (w : World) (start : Decoder) (prior_depth : ℕ) where
  abbrev pub InWalk : Decoder → Type 0
  InWalk = IsRolledBack w start prior_depth (safe_depth_for w)

  InWalk-IsStable : IsStable InWalk
  InWalk-IsStable = IsRolledBack-IsStable w start prior_depth (safe_depth_for w)

  try_delete_rule :
      (b : Block) (retry_count : ℕ)
      → Triple
          (IsDoomed w start prior_depth (safe_depth_for w) b)
          (try_delete w b retry_count)
          (λ retries. InWalk)
          InWalk
  unfolding try_delete
  try_delete_rule b retry_count =
      let Doomed = IsDoomed w start prior_depth (safe_depth_for w) b in
      bind_rule Doomed _ _ (AfterAttempt w start prior_depth (safe_depth_for w) b)
        (λ retries. InWalk) InWalk
        (λ s d.
          Triple_mono Doomed _ (AfterAttempt w start prior_depth (safe_depth_for w) b)
            (AfterAttempt w start prior_depth (safe_depth_for w) b) Doomed InWalk
            (attempt_rule Doomed (delete_block_by_index w b)
              (λ done. IsHalfDeleted w start prior_depth (safe_depth_for w) b) InWalk
              (AfterAttempt w start prior_depth (safe_depth_for w) b)
              (delete_rule w start prior_depth (safe_depth_for w) b) (λ a u h. h) (λ u h. h))
            (λ a u h. h) (λ u d. d.so_far) s d)
        settle
    where
      settle :
          (done : Option (Unit {0}))
          → Triple
              (AfterAttempt w start prior_depth (safe_depth_for w) b done)
              (elim done [
                | some _ ↦ modify (push_deleted b) >> return 0
                | none ↦ count_failure w retry_count
              ])
              (λ retries. InWalk)
              InWalk
      settle none = Quiet-Keeps InWalk _ InWalk-IsStable (Quiet-count_failure w retry_count)
      settle (some done) =
          bind_rule (IsHalfDeleted w start prior_depth (safe_depth_for w) b) _ _ (λ done. InWalk)
            (λ retries. InWalk) InWalk
            (modify_rule (IsHalfDeleted w start prior_depth (safe_depth_for w) b) (push_deleted b)
              InWalk InWalk (λ s h. h))
            (λ done. return_rule InWalk 0 (λ retries. InWalk) InWalk (λ s h. h))

  -- The block that the round has read at the top of the table.
  abbrev pub AtTop : Block → Decoder → Type 0
  AtTop b s = InWalk s × ((rest : List Block) × (s.blocks ≡ b ∷ rest))

  pub AtTop-IsStable : (b : Block) → IsStable (AtTop b)
  AtTop-IsStable b s u (blocks, deleted, clock, rows, halts) (r, (rest, e)) =
      (InWalk-IsStable s u (blocks, deleted, clock, rows, halts) r, (rest, rw (blocks, e) refl))

  abbrev AtTopGone : Block → Decoder → Type 0
  AtTopGone b s = AtTop b s × WasReorgedAway w start.clock s.clock b

  AtTopGone-IsStable : (b : Block) → IsStable (AtTopGone b)
  AtTopGone-IsStable b s u q (p, gone) =
      (AtTop-IsStable b s u q p, WasReorgedAway-later w start s u b q gone)

  AtTopGone-room :
      (b : Block) (s : Decoder)
      → HasRoom w (AtTopGone b) (AtTopGone-IsStable b) prior_depth s
      → s.halt_error ≡ none
      → IsDoomed w start prior_depth (safe_depth_for w) b s
  AtTopGone-room b s (((r, rest), gone), room) clear = record {
    so_far = r;
    top = rest;
    gone = gone;
    room = room clear;
  }

  unless_halted_rule :
      (P Q : Decoder → Type 0) (retry_count : ℕ) (m : Run ℕ)
      → ((s : Decoder) → P s → InWalk s)
      → ((s : Decoder) → P s → s.halt_error ≡ none → Q s)
      → Triple Q m (λ retries. InWalk) InWalk
      → Triple P (unless_halted retry_count m) (λ retries. InWalk) InWalk
  unfolding return
  unless_halted_rule P Q retry_count m keep clear t =
      read_rule P _ (λ retries. InWalk) InWalk
        (λ s p. elim (Bool-cases (is_set s.halt_error)) [
          | inl set ↦ rw set (keep s p)
          | inr unset ↦ rw unset (t s (clear s p (not-is_set s.halt_error unset)))
        ])

  pub delete_forked_block_rule :
      (b : Block) (node_tip : Option ℕ) (retry_count : ℕ)
      → Triple
          (AtTop b)
          (delete_forked_block w b node_tip prior_depth retry_count)
          (λ retries. InWalk)
          InWalk
  unfolding delete_forked_block
  delete_forked_block_rule b node_tip retry_count =
      let Room = HasRoom w (AtTopGone b) (AtTopGone-IsStable b) prior_depth in
      bind_rule (AtTop b) _ _ (λ done. AtTopGone b) (λ retries. InWalk) InWalk
        (Triple_mono (AtTop b) _ (λ done. AtTopGone b) (λ done. AtTopGone b) (AtTop b) InWalk
          (require_reorg_proof_rule w start (AtTop b) (AtTop-IsStable b) (λ s p. p.0.later) b
            node_tip)
          (λ a u h. h) (λ u p. p.0))
        (λ done.
          bind_rule (AtTopGone b) _ _ (λ done. Room) (λ retries. InWalk) InWalk
            (Triple_mono (AtTopGone b) _ (λ done. Room) (λ done. Room) (AtTopGone b) InWalk
              (assert_within_safe_depth_rule w (AtTopGone b) (AtTopGone-IsStable b) prior_depth)
              (λ a u h. h) (λ u p. p.0.0))
            (λ done.
              unless_halted_rule Room (IsDoomed w start prior_depth (safe_depth_for w) b)
                retry_count _ (λ s p. p.0.0.0) (AtTopGone-room b) (try_delete_rule b retry_count)))

  pub delete_above_tip_block_rule :
      (b : Block) (node_tip retry_count : ℕ)
      → Triple
          (AtTop b)
          (delete_above_tip_block w b node_tip prior_depth retry_count)
          (λ retries. InWalk)
          InWalk
  unfolding delete_above_tip_block
  delete_above_tip_block_rule b node_tip retry_count =
      bind_rule (AtTop b) _ _ (λ done. AtTop b) (λ retries. InWalk) InWalk
        (Triple_mono (AtTop b) _ (λ done. AtTop b) (λ done. AtTop b) (AtTop b) InWalk
          (Quiet-Keeps (AtTop b) _ (AtTop-IsStable b)
            (Quiet-refuse_or_halt_deep_gap w b node_tip prior_depth))
          (λ a u h. h) (λ u p. p.0))
        (λ done.
          unless_halted_rule (AtTop b) (AtTop b) retry_count _ (λ s p. p.0) (λ s p e. p)
            (delete_forked_block_rule b (some node_tip) retry_count))
