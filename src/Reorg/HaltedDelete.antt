-- ===== src/Reorg/HaltedDelete.antt =====
-- The deletes of a halted walk: each with a fresh proof, and all within two windows.
use xchain_decoder.Prelude.{
  ℕ, zero, suc, ◌+◌, ◌-◌, Bool, true, false, Option, none, some, List, [], ◌∷◌, ◌++◌, length,
}
use xchain_decoder.Reorg.{
  Block, World, Proof, proven, unproven, HaltStop, not_proven, not_deleted, Decoder, Run, return,
  throw, ask, modify, ◌>>=◌, ◌>>◌,
}
use xchain_decoder.Prelude.{
  ◌≡◌, ◌≢◌, ◌≤◌, refl, ◌∙◌, ap, inl, inr, Bool-cases, arith, length-append,
}
use xchain_decoder.Reorg.Store.{delete_block_by_index}
use xchain_decoder.Reorg.Triple.{
  Triple, bind_rule, return_rule, modify_rule, Triple_mono, attempt_rule,
}
use xchain_decoder.Reorg.Quiet.{IsStable}
use xchain_decoder.Reorg.Rollback.{
  WasReorgedAway, WasReorgedAway-later, IsRolledBack, IsRolledBack-IsStable, IsDoomed-deleted,
}
use xchain_decoder.Reorg.HaltedWalk.{push_deleted, delete_halted_block, delete_proven_blocks}
use xchain_decoder.Reorg.Store.{remove_block, without_block}
use xchain_decoder.Reorg.Order.{remove_block-top}
use xchain_decoder.Reorg.Evidence.{IsBacked, prove_reorged_away_rule}

module _ (w : World) (start : Decoder) (prior_depth limit : ℕ) where
  abbrev pub IsHalted : Decoder → Type 0
  IsHalted s = IsRolledBack w start prior_depth limit s × (s.halt_error ≢ none)

  pub IsHalted-IsStable : IsStable IsHalted
  IsHalted-IsStable s u (b, d, c, r, h) (p, halts) =
      (IsRolledBack-IsStable w start prior_depth limit s u (b, d, c, r, h) p, λ e. halts (h e))

  -- The doomed blocks are the top of the table, and there is room for all of them.
  abbrev pub Pending : List Block → List Block → Decoder → Type 0
  Pending doomed rest u =
      IsHalted u
      × (u.blocks ≡ doomed ++ rest)
      × (length u.blocks_deleted + length doomed ≤ limit - prior_depth)

  Pending-IsStable : (doomed rest : List Block) → IsStable (Pending doomed rest)
  Pending-IsStable doomed rest s u (b, d, c, r, h) (p, e, room) =
      (IsHalted-IsStable s u (b, d, c, r, h) p, b ∙ e, rw d room)

  abbrev Ready : Block → List Block → List Block → Decoder → Type 0
  Ready b doomed rest u = Pending (b ∷ doomed) rest u × WasReorgedAway w start.clock u.clock b

  Ready-IsStable : (b : Block) (doomed rest : List Block) → IsStable (Ready b doomed rest)
  Ready-IsStable b doomed rest s u q (p, gone) =
      (Pending-IsStable (b ∷ doomed) rest s u q p, WasReorgedAway-later w start s u b q gone)

  Ready-deleted :
      (b : Block) (doomed rest : List Block) (s : Decoder)
      → Ready b doomed rest s
      → Pending doomed rest (push_deleted b (without_block b (record s { clock = suc s.clock })))
  Ready-deleted b doomed rest s (((r, halts), e, room), gone) = (
    (
      IsDoomed-deleted w start prior_depth limit b s
          (record { so_far = r; top = (doomed ++ rest, e); gone = gone; room = omega arith }),
      halts,
    ),
    ap (remove_block b.block_index) e ∙ remove_block-top b (doomed ++ rest) (rw e at r.ordered),
    omega (arith, length-append s.blocks_deleted (b ∷ [])),
  )

  commit_rule :
      (b : Block) (doomed rest : List Block)
      → Triple
          (Ready b doomed rest)
          (delete_block_by_index w b)
          (λ done u. Pending doomed rest (push_deleted b u))
          (Ready b doomed rest)
  unfolding delete_block_by_index ◌>>=◌ ask modify throw
  commit_rule b doomed rest s p = elim (Bool-cases (w.write_fails s.clock)) [
    | inl fails ↦ rw fails (
        Ready-IsStable b doomed rest s (record s { clock = suc s.clock })
          (refl, refl, omega arith, refl, λ h. h) p)
    | inr works ↦ rw works (Ready-deleted b doomed rest s p)
  ]

  abbrev Attempted : Block → List Block → List Block → Option (Unit {0}) → Decoder → Type 0
  Attempted b doomed rest none u = Ready b doomed rest u
  Attempted b doomed rest (some done) u = Pending doomed rest (push_deleted b u)

  abbrev Gone : List Block → List Block → Bool → Decoder → Type 0
  Gone doomed rest true = Pending doomed rest
  Gone doomed rest false = IsHalted

  delete_halted_block_rule :
      (b : Block) (doomed rest : List Block) (attempts : ℕ)
      → Triple (Ready b doomed rest) (delete_halted_block w b attempts) (Gone doomed rest) IsHalted
  unfolding delete_halted_block return
  delete_halted_block_rule b doomed rest zero = λ s p. p.0.0
  delete_halted_block_rule b doomed rest (suc attempts) =
      bind_rule (Ready b doomed rest) _ _ (Attempted b doomed rest) (Gone doomed rest) IsHalted
        (Triple_mono (Ready b doomed rest) _ (Attempted b doomed rest) (Attempted b doomed rest)
          (Ready b doomed rest) IsHalted
          (attempt_rule (Ready b doomed rest) _ (λ done u. Pending doomed rest (push_deleted b u))
            (Ready b doomed rest) (Attempted b doomed rest) (commit_rule b doomed rest) (λ a u h. h)
            (λ u h. h))
          (λ a u h. h) (λ u p. p.0.0))
        (settle (delete_halted_block w b attempts)
          (delete_halted_block_rule b doomed rest attempts))
    where
      settle :
          (later : Run Bool)
          → Triple (Ready b doomed rest) later (Gone doomed rest) IsHalted
          → (done : Option (Unit {0}))
          → Triple
              (Attempted b doomed rest done)
              (elim done [ some _ ↦ modify (push_deleted b) >> return true | none ↦ later ])
              (Gone doomed rest)
              IsHalted
      settle later t none = t
      settle later t (some done) =
          bind_rule (Attempted b doomed rest (some done)) _ _ (λ done. Pending doomed rest)
            (Gone doomed rest) IsHalted
            (modify_rule (Attempted b doomed rest (some done)) (push_deleted b)
              (Pending doomed rest) IsHalted (λ s h. h))
            (λ done. return_rule (Pending doomed rest) true (Gone doomed rest) IsHalted (λ s h. h))

  pub delete_proven_blocks_rule :
      (doomed rest : List Block)
      → Triple (Pending doomed rest) (delete_proven_blocks w doomed) (λ why. IsHalted) IsHalted
  unfolding delete_proven_blocks return
  delete_proven_blocks_rule [] rest = λ s p. p.0
  delete_proven_blocks_rule (b ∷ doomed) rest =
      bind_rule (Pending (b ∷ doomed) rest) _ _ Backed (λ why. IsHalted) IsHalted
        (Triple_mono (Pending (b ∷ doomed) rest) _ Backed Backed (Pending (b ∷ doomed) rest)
          IsHalted
          (prove_reorged_away_rule w start (Pending (b ∷ doomed) rest)
            (Pending-IsStable (b ∷ doomed) rest) (λ s p. p.0.0.later) b)
          (λ a u h. h) (λ u p. p.0))
        (settle (delete_proven_blocks w doomed) (delete_proven_blocks_rule doomed rest))
    where
      Backed : Proof → Decoder → Type 0
      Backed =
          IsBacked w start (Pending (b ∷ doomed) rest) (Pending-IsStable (b ∷ doomed) rest)
            (λ s p. p.0.0.later) b

      settle_delete :
          (later : Run (Option HaltStop))
          → Triple (Pending doomed rest) later (λ why. IsHalted) IsHalted
          → (deleted : Bool)
          → Triple
              (Gone doomed rest deleted)
              (elim deleted [ false ↦ return (some (not_deleted b.block_index)) | true ↦ later ])
              (λ why. IsHalted)
              IsHalted
      settle_delete later t true = t
      settle_delete later t false = λ s h. h

      settle :
          (later : Run (Option HaltStop))
          → Triple (Pending doomed rest) later (λ why. IsHalted) IsHalted
          → (proof : Proof)
          → Triple
              (Backed proof)
              (elim proof [
                | unproven why ↦ return (some (not_proven b.block_index))
                | proven ↦ delete_halted_block w b 10 >>= λ deleted. elim deleted [
                  | false ↦ return (some (not_deleted b.block_index))
                  | true ↦ later
                ]
              ])
              (λ why. IsHalted)
              IsHalted
      settle later t (unproven why) = λ s h. h.0.0
      settle later t proven =
          bind_rule (Backed proven) _ _ (Gone doomed rest) (λ why. IsHalted) IsHalted
            (λ s (p, gone). delete_halted_block_rule b doomed rest 10 s (p, gone refl))
            (settle_delete later t)
