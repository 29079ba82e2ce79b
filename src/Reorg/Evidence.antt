-- ===== src/Reorg/Evidence.antt =====
-- What the checks before a delete establish when they return.
use xchain_decoder.Prelude.{
  ℕ, suc, ◌+◌, ◌-◌, true, false, Option, none, some, leb, length, if◌then◌else◌,
}
use xchain_decoder.Reorg.{
  Block, World, Why, Proof, proven, unproven, HaltReason, depth_exceeded, halt, wait, Decoder, Run,
  return, throw, ask, ◌>>=◌,
}
use xchain_decoder.Prelude.{◌≡◌, ◌≤◌, ◌<◌, refl, inl, inr, Bool-cases, arith, leb→lt}
use xchain_decoder.Reorg.ReorgedAway.{prove_reorged_away, prove_fork_reorged_away, ask_again}
use xchain_decoder.Reorg.Depth.{
  safe_depth_for, raise_safe_depth_halt, assert_within_safe_depth, require_reorg_proof,
  refusal_class, is_set,
}
use xchain_decoder.Reorg.Triple.{
  Post, Triple, bind_rule, return_rule, throw_rule, if_rule, modify_rule, read_rule, Triple_mono,
}
use xchain_decoder.Reorg.Quiet.{IsQuiet, IsStable, Quiet-Keeps, Quiet-ask, Quiet-halt_reorg}
use xchain_decoder.Reorg.Rollback.{WasReorgedAway, judge-proven}

module _ (w : World) (start : Decoder) (P : Decoder → Type 0) (stable : IsStable P)
    (after : (s : Decoder) → P s → start.clock ≤ s.clock) where
  -- A proof that is returned was read from the node.
  abbrev pub IsBacked : Block → Proof → Decoder → Type 0
  IsBacked block proof u = P u × (proof ≡ proven → WasReorgedAway w start.clock u.clock block)

  pub prove_reorged_away_rule :
      (block : Block) → Triple P (prove_reorged_away w block) (IsBacked block) P
  unfolding prove_reorged_away ask return ◌>>=◌
  prove_reorged_away_rule block s p =
      let q : IsQuiet s (record s { clock = suc s.clock }) =
        (refl, refl, omega arith, refl, λ h. h) in
      (
        stable s (record s { clock = suc s.clock }) q p,
        λ e. (
          s.clock,
          after s p,
          omega arith,
          judge-proven (w.get_block_header s.clock block.block_hash) e,
        ),
      )

  ask_again_rule :
      (block : Block) (node_tip : Option ℕ) (now : ℕ)
      → Triple P (ask_again w block node_tip now) (IsBacked block) P
  ask_again_rule block node_tip now =
      bind_rule P _ _ (IsBacked block) (IsBacked block) P (prove_reorged_away_rule block) (λ result.
        bind_rule (IsBacked block result) _ _ (λ done. IsBacked block result) (IsBacked block) P
          (modify_rule (IsBacked block result) _ (IsBacked block result) P
            (λ s (p, gone). (stable s _ (refl, refl, omega arith, refl, λ h. h) p, gone)))
          (λ done. return_rule (IsBacked block result) result (IsBacked block) P (λ s p. p)))

  from_cache_rule :
      (block : Block) (cached : Option Why) (m : Run Proof)
      → Triple P m (IsBacked block) P
      → Triple P (elim cached [ some why ↦ return (unproven why) | none ↦ m ]) (IsBacked block) P
  from_cache_rule block none m t = t
  from_cache_rule block (some why) m t =
      return_rule P (unproven why) (IsBacked block) P (λ s p. (p, λ e. cc))

  prove_fork_reorged_away_rule :
      (block : Block) (node_tip : Option ℕ)
      → Triple P (prove_fork_reorged_away w block node_tip) (IsBacked block) P
  unfolding prove_fork_reorged_away
  prove_fork_reorged_away_rule block node_tip =
      bind_rule P _ _ (λ now. P) (IsBacked block) P (Quiet-Keeps P _ stable (Quiet-ask w.now))
        (λ now.
          read_rule P _ (IsBacked block) P
            (λ s. from_cache_rule block _ _ (ask_again_rule block node_tip now) s))

  abbrev pub HasProof : Block → Unit {0} → Decoder → Type 0
  HasProof block done u = P u × WasReorgedAway w start.clock u.clock block

  pub require_reorg_proof_rule :
      (block : Block) (node_tip : Option ℕ)
      → Triple P (require_reorg_proof w block node_tip) (HasProof block) P
  unfolding require_reorg_proof
  require_reorg_proof_rule block node_tip =
      bind_rule P _ _ (IsBacked block) (HasProof block) P
        (prove_fork_reorged_away_rule block node_tip) split
    where
      split :
          (proof : Proof)
          → Triple
              (IsBacked block proof)
              (elim proof [
                | proven ↦ return tt
                | unproven why ↦ throw (wait (refusal_class why) block)
              ])
              (HasProof block)
              P
      split proven =
          return_rule (IsBacked block proven) tt (HasProof block) P (λ s (p, gone). (p, gone refl))
      split (unproven why) =
          throw_rule (IsBacked block (unproven why)) (wait (refusal_class why) block)
            (HasProof block) P (λ s (p, gone). p)

module _ (w : World) (P : Decoder → Type 0) (stable : IsStable P) where
  abbrev Halted : HaltReason → Unit {0} → Decoder → Type 0
  Halted reason done u = P u × (u.halt_error ≡ some reason)

  raise_safe_depth_halt_rule :
      (reason : HaltReason) → Triple P (raise_safe_depth_halt w reason) (Halted reason) P
  unfolding raise_safe_depth_halt
  raise_safe_depth_halt_rule reason =
      bind_rule P _ _ (λ done. P) (Halted reason) P
        (Quiet-Keeps P _ stable (Quiet-halt_reorg w reason))
        (λ done. read_rule P _ (Halted reason) P (λ s p.
          if_rule P s.reorg_halt_marker_persisted _ _ (Halted reason) P
            (λ yes.
              modify_rule P _ (λ u. P u × (u.halt_error ≡ some reason)) P
                (λ u p. (stable u _ (refl, refl, omega arith, refl, λ h. cc) p, refl)))
            (λ no. throw_rule P (halt reason) (Halted reason) P (λ u p. p)) s p))

  -- Where the walk goes on, there is room for one more delete.
  abbrev pub HasRoom : ℕ → Decoder → Type 0
  HasRoom prior_depth u =
      P u × (u.halt_error ≡ none → length u.blocks_deleted < safe_depth_for w - prior_depth)

  pub assert_within_safe_depth_rule :
      (prior_depth : ℕ)
      → Triple P (assert_within_safe_depth w prior_depth) (λ done. HasRoom prior_depth) P
  unfolding assert_within_safe_depth return
  assert_within_safe_depth_rule prior_depth =
      read_rule P _ (λ done. HasRoom prior_depth) P
        (λ s p. elim (Bool-cases (is_set s.halt_error)) [
          | inl set ↦ rw set (p, λ e. let h : false ≡ true = rw e at set in cc)
          | inr clear ↦ rw clear (below s p)
        ])
    where
      below :
          (s : Decoder)
          → P s
          → Post
              (λ done. HasRoom prior_depth)
              P
              ((if leb (safe_depth_for w) (prior_depth + length s.blocks_deleted)
                  then raise_safe_depth_halt w depth_exceeded
                  else return tt)
                s)
      below s p =
          elim (Bool-cases (leb (safe_depth_for w) (prior_depth + length s.blocks_deleted))) [
            | inl over ↦ rw over (
                Triple_mono P _ (Halted depth_exceeded) (λ done. HasRoom prior_depth) P P
                  (raise_safe_depth_halt_rule depth_exceeded) (λ a u (p, e). (p, λ h. cc))
                  (λ u p. p) s p)
            | inr under ↦ rw under (
              p,
              λ e.
                  omega (
                    arith,
                    leb→lt (safe_depth_for w) (prior_depth + length s.blocks_deleted) under,
                  ),
            )
          ]
