-- ===== src/Reorg/Safety.antt =====
-- What a call of `verifyReorg` may do to the table, whatever the node and the database answer.
use xchain_decoder.Prelude.{ℕ, zero, suc, Option, none, some, List, [], ◌∷◌, length, take}
use xchain_decoder.Reorg.{
  Block, World, HaltReason, fault, Decoder, Run, return, throw, modify, ◌>>=◌,
}
use xchain_decoder.Prelude.{◌≡◌, ◌⊎◌, refl, sym, ◌∙◌, ap, inl, inr, Option-cases, arith}
use xchain_decoder.Reorg.Store.{max_height, get_last_block_index}
use xchain_decoder.Reorg.Depth.{safe_depth_for}
use xchain_decoder.Reorg.Order.{IsDescending}
use xchain_decoder.Reorg.Triple.{
  Post, Triple, bind_rule, return_rule, throw_rule, modify_rule, read_rule, Triple_mono,
  attempt_rule,
}
use xchain_decoder.Reorg.Quiet.{IsQuiet, IsStable, Quiet, Quiet-Keeps, Quiet-return, Quiet-if}
use xchain_decoder.Reorg.Rollback.{IsRolledBack, IsRolledBack-IsStable}
use xchain_decoder.Reorg.Store.{
  heights_above_tip, scan_limit, reorg_rows, count_reorg_deletes_above_tip, counted,
}
use xchain_decoder.Reorg.Depth.{read_prior_rollback_depth, retry_count}
use xchain_decoder.Reorg.Walk.{walk_reorg, finish_reorg_run, verify_reorg, begin, close}
use mathlib.Core.Option
use xchain_decoder.Prelude.{take}
use xchain_decoder.Reorg.Quiet.{Quiet-is_reorg_halted}
use xchain_decoder.Reorg.Quiet.Depth.{Quiet-refuse_halted_rollback}
use xchain_decoder.Reorg.Rounds.{query_rule, In, IsReconciled}
use xchain_decoder.Reorg.Verified.{depth_above, InTwoWindows, IsWalked, walk_reorg_rule}

module _ (w : World) (s : Decoder) (ordered : IsDescending s.blocks) where
  -- Nothing is deleted yet.
  abbrev pub Untouched : Decoder → Type 0
  Untouched = IsQuiet (begin s)

  Untouched-IsStable : IsStable Untouched
  Untouched-IsStable u v (b, d, c, r, h) (b2, d2, c2, r2, h2) =
      (b ∙ b2, d ∙ d2, omega arith, r ∙ r2, λ e. refl)

  pub Untouched-In :
      (prior_depth limit : ℕ) (u : Decoder)
      → Untouched u
      → IsRolledBack w (begin s) prior_depth limit u
  Untouched-In prior_depth limit u (b, d, c, r, h) = record {
    taken = rw d (sym b);
    ordered = rw b ordered;
    reorged_away = rw d tt;
    within = rw d (omega arith);
    marked = rw d r;
    later = c;
  }

  abbrev Counted : ℕ → Decoder → Type 0
  Counted n u = Untouched u × (depth_above s ≡ some n)

  count_rule : Triple Untouched (count_reorg_deletes_above_tip w) Counted Untouched
  unfolding count_reorg_deletes_above_tip get_last_block_index
  count_rule =
      bind_rule Untouched _ _ (λ tip u. Untouched u × (tip ≡ max_height s.blocks)) Counted Untouched
        (λ u p.
          Triple_mono Untouched _ (λ tip u. Untouched u × (tip ≡ max_height u.blocks))
            (λ tip u. Untouched u × (tip ≡ max_height s.blocks)) Untouched Untouched
            (query_rule w Untouched Untouched-IsStable _ (λ u. refl))
            (λ tip u (p, e). (p, e ∙ ap max_height p.0)) (λ u p. p) u p)
        (λ tip u (p, e).
          bind_rule Untouched _ _
            (λ rows u. Untouched u × (rows ≡ take scan_limit (reorg_rows s.events))) Counted
            Untouched
            (Triple_mono Untouched _
              (λ rows u. Untouched u × (rows ≡ take scan_limit (reorg_rows u.events)))
              (λ rows u. Untouched u × (rows ≡ take scan_limit (reorg_rows s.events))) Untouched
              Untouched (query_rule w Untouched Untouched-IsStable _ (λ u. refl))
              (λ rows u ((b, d, c, r, h), f). ((b, d, c, r, h), f ∙ ap (take scan_limit) r))
              (λ u p. p))
            (λ rows u (p, f). counts tip rows e f u p) u p)
    where
      counts :
          (tip : Option ℕ) (rows : List (Option (List ℕ)))
          → tip ≡ max_height s.blocks
          → rows ≡ take scan_limit (reorg_rows s.events)
          → Triple Untouched (counted (heights_above_tip tip rows [])) Counted Untouched
      counts tip rows e f = elim (Option-cases (heights_above_tip tip rows [])) [
        | inl unreadable ↦ rw unreadable (throw_rule Untouched fault Counted Untouched (λ u p. p))
        | inr (heights, read) ↦ rw read (
            return_rule Untouched (length heights) Counted Untouched
              (λ u p. (p, ap (Option.map length) (rw (e, f) at read))))
      ]

  retry_rule : (attempts : ℕ) → Triple Untouched (retry_count w attempts) Counted Untouched
  unfolding return throw
  retry_rule zero = λ u p. p
  retry_rule (suc attempts) =
      bind_rule Untouched _ _ Read Counted Untouched
        (attempt_rule Untouched _ Counted Untouched Read count_rule (λ n u p. p) (λ u p. p))
        (settle (retry_count w attempts) (retry_rule attempts))
    where
      Read : Option ℕ → Decoder → Type 0
      Read none u = Untouched u
      Read (some n) u = Counted n u

      settle :
          (later : Run ℕ)
          → Triple Untouched later Counted Untouched
          → (depth : Option ℕ)
          → Triple (Read depth) (elim depth [ some n ↦ return n | none ↦ later ]) Counted Untouched
      settle later t none = t
      settle later t (some n) = λ u p. p

  -- After a return, and after a throw.
  abbrev pub Returned : Unit {0} → Decoder → Type 0
  Returned done u =
      (prior_depth : ℕ) × (depth_above s ≡ some prior_depth)
      × In w (begin s) prior_depth u
      × IsReconciled w (begin s) prior_depth u

  abbrev pub Threw : Decoder → Type 0
  Threw u =
      Untouched u
      ⊎ ((prior_depth : ℕ) × (depth_above s ≡ some prior_depth)
          × InTwoWindows w (begin s) prior_depth u)

  finish_reorg_run_rule :
      (prior_depth : ℕ)
      → depth_above s ≡ some prior_depth
      → Triple (IsWalked w (begin s) prior_depth) finish_reorg_run Returned Threw
  unfolding finish_reorg_run return throw modify
  finish_reorg_run_rule prior_depth e =
      read_rule (IsWalked w (begin s) prior_depth) _ Returned Threw
        (λ u p. closing u.halt_error u.blocks_deleted u p refl)
    where
      closing :
          (h : Option HaltReason) (bs : List Block) (u : Decoder)
          → IsWalked w (begin s) prior_depth u
          → u.halt_error ≡ h
          → Post Returned Threw (close h bs u)
      closing (some reason) bs u (p, q) set = inr (prior_depth, e, p)
      closing none [] u (p, q) clear = (prior_depth, e, (q clear).0, (q clear).1)
      closing none (b ∷ bs) u (p, q) clear = (
        prior_depth,
        e,
        IsRolledBack-IsStable w (begin s) prior_depth (safe_depth_for w) u _
            (refl, refl, omega arith, refl, λ h. h) (q clear).0,
        (q clear).1,
      )

  before_rule : {A : Type 0} (m : Run A) → Quiet m → Triple Untouched m (λ a. Untouched) Threw
  before_rule m q =
      Triple_mono Untouched m (λ a. Untouched) (λ a. Untouched) Untouched Threw
        (Quiet-Keeps Untouched m Untouched-IsStable q) (λ a u p. p) (λ u p. inl p)

  walked_rule :
      (fuel : ℕ) (node_tip : Option ℕ) (prior_depth : ℕ)
      → Triple
          (Counted prior_depth)
          (walk_reorg w prior_depth fuel node_tip 0 >>= λ done. finish_reorg_run)
          Returned
          Threw
  walked_rule fuel node_tip prior_depth u (p, e) =
      bind_rule (In w (begin s) prior_depth) _ _ (λ done. IsWalked w (begin s) prior_depth) Returned
        Threw
        (Triple_mono (In w (begin s) prior_depth) _ (λ done. IsWalked w (begin s) prior_depth)
          (λ done. IsWalked w (begin s) prior_depth) (InTwoWindows w (begin s) prior_depth) Threw
          (walk_reorg_rule w (begin s) prior_depth fuel node_tip 0) (λ a u h. h)
          (λ u h. inr (prior_depth, e, h)))
        (λ done. finish_reorg_run_rule prior_depth e) u
        (Untouched-In prior_depth (safe_depth_for w) u p)

  pub verify_reorg_rule :
      (fuel : ℕ) (node_tip : Option ℕ) → Post Returned Threw (verify_reorg w fuel node_tip s)
  unfolding verify_reorg read_prior_rollback_depth
  verify_reorg_rule fuel node_tip =
      bind_rule (λ u. u ≡ s) _ _ (λ done. Untouched) Returned Threw
        (modify_rule (λ u. u ≡ s) begin Untouched Threw
          (λ u e. rw e (refl, refl, omega arith, refl, λ h. h)))
        (λ done.
          bind_rule Untouched _ _ (λ halted. Untouched) Returned Threw
            (before_rule _ (Quiet-is_reorg_halted w))
            (λ halted.
              bind_rule Untouched _ _ (λ done. Untouched) Returned Threw
                (before_rule _
                  (Quiet-if halted _ _ (Quiet-refuse_halted_rollback w) (Quiet-return tt)))
                (λ done.
                  bind_rule Untouched _ _ Counted Returned Threw
                    (Triple_mono Untouched _ Counted Counted Untouched Threw (retry_rule 3)
                      (λ n u p. p) (λ u p. inl p))
                    (walked_rule fuel node_tip))))
        s refl
