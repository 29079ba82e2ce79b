-- ===== src/Reorg/Outcomes.antt =====
-- What `verifyReorg` promises its callers.
use xchain_decoder.Prelude.{
  ℕ, ◌+◌, ◌*◌, ◌≤◌, ◌<◌, ◌≡◌, ◌⊎◌, refl, ap, ◌∙◌, leb, leb→le, inl, inr, true, Option, none, some,
  List, [], ◌∷◌, ◌++◌, All, length, arith, Bool-cases, Result, err, ok,
}
use xchain_decoder.Reorg.{
  Event, reorg, reorg_halt, reorg_halt_cleared, Block, World, Decoder, Thrown, return, throw, ask,
  modify, get_state, ◌>>=◌, halted_before, fault,
}
use xchain_decoder.Reorg.Store.{
  is_audited_clear, halt_state, is_halted, is_reorg_halted, read_reorg_halt_state, reorg_rows,
}
use xchain_decoder.Prelude.Text.{Text}
use xchain_decoder.Batch.Keys.{trim}
use xchain_decoder.Reorg.Depth.{safe_depth_for, refuse_halted_rollback}
use xchain_decoder.Reorg.Walk.{verify_reorg, begin}
use xchain_decoder.Reorg.Order.{IsDescending}
use xchain_decoder.Reorg.Triple.{Post}
use xchain_decoder.Reorg.Rollback.{WasReorgedAway, mark_rows}
use xchain_decoder.Reorg.Rounds.{IsReconciled}
use xchain_decoder.Reorg.Verified.{depth_above, IsRolledBack-mono, InTwoWindows}
use xchain_decoder.Reorg.Safety.{Returned, Threw, Untouched-In, verify_reorg_rule}

module _ (w : World) (s : Decoder) (ordered : IsDescending s.blocks) where
  -- Any end of the call is the end of a rollback from the depth that was counted, or of none at all.
  abbrev Rolled : Decoder → Type 0
  Rolled u =
      (prior_depth : ℕ) × ((u.blocks_deleted ≡ []) ⊎ (depth_above s ≡ some prior_depth))
      × InTwoWindows w (begin s) prior_depth u

  ends :
      (r : Result Thrown (Unit {0}) × Decoder)
      → Post (Returned w s ordered) (Threw w s ordered) r
      → Rolled (r.1)
  ends (ok done, u) (n, e, p, reconciled) = (
    n,
    inr e,
    IsRolledBack-mono w (begin s) n (safe_depth_for w) (2 * safe_depth_for w) u (omega arith) p,
  )
  ends (err thrown, u) (inl p) = (0, inl p.1, Untouched-In w s ordered 0 (2 * safe_depth_for w) u p)
  ends (err thrown, u) (inr (n, e, p)) = (n, inr e, p)

  run_ends : (fuel : ℕ) (node_tip : Option ℕ) → Rolled ((verify_reorg w fuel node_tip s).1)
  run_ends fuel node_tip =
      ends (verify_reorg w fuel node_tip s) (verify_reorg_rule w s ordered fuel node_tip)

  abbrev WithinDepth : Result Thrown (Unit {0}) → Decoder → Type 0
  WithinDepth result u =
      (u.blocks_deleted ≡ [])
      ⊎ ((prior_depth : ℕ) × (depth_above s ≡ some prior_depth)
          × (prior_depth + length u.blocks_deleted ≤ 2 * safe_depth_for w)
          × (result ≡ ok tt → prior_depth + length u.blocks_deleted ≤ safe_depth_for w))

  none_or_some : (bs : List Block) → (bs ≡ []) ⊎ (0 < length bs)
  none_or_some [] = inl refl
  none_or_some (b ∷ bs) = inr (omega arith)

  depth_end :
      (r : Result Thrown (Unit {0}) × Decoder)
      → Post (Returned w s ordered) (Threw w s ordered) r
      → WithinDepth (r.0) (r.1)
  depth_end (ok done, u) (n, e, p, reconciled) = elim (none_or_some u.blocks_deleted) [
    | inl nothing ↦ inl nothing
    | inr deleted ↦ inr (n, e, omega (arith, p.within), λ h. omega (arith, p.within))
  ]
  depth_end (err thrown, u) (inl p) = inl p.1
  depth_end (err thrown, u) (inr (n, e, p)) = elim (none_or_some u.blocks_deleted) [
    | inl nothing ↦ inl nothing
    | inr deleted ↦ inr (n, e, omega (arith, p.within), λ h. cc)
  ]

  IsReconciled-ends :
      (r : Result Thrown (Unit {0}) × Decoder)
      → Post (Returned w s ordered) (Threw w s ordered) r
      → r.0 ≡ ok tt
      → IsReconciled w (begin s) 0 (r.1)
  IsReconciled-ends (ok done, u) (n, e, p, reconciled) h = reconciled
  IsReconciled-ends (err thrown, u) t h = cc

-- However the node and the database answer, and however the call ends, the blocks that it deletes are the
-- top of the table, from the highest down, and for each of them the node was asked for its hash during the
-- call and answered with confirmations -1.
pub verify_reorg_deletes_proven :
    (w : World) (fuel : ℕ) (node_tip : Option ℕ) (s : Decoder)
    → IsDescending s.blocks
    → let u = (verify_reorg w fuel node_tip s).1 in
      (s.blocks ≡ u.blocks_deleted ++ u.blocks)
      × All (WasReorgedAway w s.clock u.clock) u.blocks_deleted
verify_reorg_deletes_proven w fuel node_tip s ordered =
    let (n, e, p) = run_ends w s ordered fuel node_tip in (p.taken, p.reorged_away)

-- A call that deletes anything has counted the depth that earlier calls left above the table, and with it
-- stays within two safe-depth windows; one that returns stays within one.
pub verify_reorg_depth :
    (w : World) (fuel : ℕ) (node_tip : Option ℕ) (s : Decoder)
    → IsDescending s.blocks
    → let run = verify_reorg w fuel node_tip s in
      ((run.1).blocks_deleted ≡ [])
      ⊎ ((prior_depth : ℕ) × (depth_above s ≡ some prior_depth)
          × (prior_depth + length (run.1).blocks_deleted ≤ 2 * safe_depth_for w)
          × (run.0 ≡ ok tt → prior_depth + length (run.1).blocks_deleted ≤ safe_depth_for w))
verify_reorg_depth w fuel node_tip s ordered =
    depth_end w s ordered (verify_reorg w fuel node_tip s)
      (verify_reorg_rule w s ordered fuel node_tip)

-- A call that returns leaves an empty table, or one whose highest block is below the start height or has the
-- hash that the node answered for its height during the call.
pub verify_reorg_reconciles :
    (w : World) (fuel : ℕ) (node_tip : Option ℕ) (s : Decoder)
    → IsDescending s.blocks
    → (verify_reorg w fuel node_tip s).0 ≡ ok tt
    → IsReconciled w s 0 ((verify_reorg w fuel node_tip s).1)
verify_reorg_reconciles w fuel node_tip s ordered =
    IsReconciled-ends w s ordered (verify_reorg w fuel node_tip s)
      (verify_reorg_rule w s ordered fuel node_tip)

-- Each deleted block with a hash has its REORG row, in the order of the deletes and on top of the rows that
-- were there, however the call ends.
pub verify_reorg_marks :
    (w : World) (fuel : ℕ) (node_tip : Option ℕ) (s : Decoder)
    → IsDescending s.blocks
    → let u = (verify_reorg w fuel node_tip s).1 in
      reorg_rows u.events ≡ mark_rows u.blocks_deleted (reorg_rows s.events)
verify_reorg_marks w fuel node_tip s ordered =
    let (n, e, p) = run_ends w s ordered fuel node_tip in p.marked

-- A row that holds the halt: a halt, or a clear whose reason is missing or has fewer than eight units.
pub data IsLive : Event → Type 0 where
  standing : IsLive reorg_halt
  unexplained : IsLive (reorg_halt_cleared none)
  too_short : (reason : Text) → length (trim reason) < 8 → IsLive (reorg_halt_cleared (some reason))

abbrev pub IsReorg : Event → Type 0
IsReorg event = (heights : Option (List ℕ)) × (event ≡ reorg heights)

IsLive-halt_state :
    (row : Event) (older : List Event) → IsLive row → is_halted (halt_state (row ∷ older)) ≡ true
unfolding halt_state is_audited_clear
IsLive-halt_state _ older standing = refl
IsLive-halt_state _ older unexplained = refl
IsLive-halt_state _ older (too_short reason short) =
    elim (Bool-cases (leb 8 (length (trim reason)))) [
      | inl long ↦ absurd (omega (arith, leb→le 8 (length (trim reason)) long))
      | inr fine ↦ rw fine refl
    ]

halt_state-behind :
    (newer events : List Event)
    → All IsReorg newer
    → halt_state (newer ++ events) ≡ halt_state events
unfolding halt_state
halt_state-behind [] events h = refl
halt_state-behind (row ∷ newer) events ((heights, e), h) =
    ap (λ r. halt_state (r ∷ (newer ++ events))) e ∙ halt_state-behind newer events h

refused :
    (w : World) (fuel : ℕ) (node_tip : Option ℕ) (s : Decoder)
    → is_halted (halt_state s.events) ≡ true
    → let run = verify_reorg w fuel node_tip s in
      ((run.0 ≡ err halted_before) ⊎ (run.0 ≡ err fault))
      × ((run.1).blocks ≡ s.blocks)
      × ((run.1).events ≡ s.events)
      × ((run.1).blocks_deleted ≡ [])
unfolding verify_reorg is_reorg_halted read_reorg_halt_state refuse_halted_rollback ◌>>=◌ ask
    get_state modify return throw
refused w fuel node_tip s live = elim (Bool-cases (w.read_fails s.clock)) [
  | inl fails ↦ rw fails (inr refl, refl, refl, refl)
  | inr works ↦ rw (works, live) (inl refl, refl, refl, refl)
]

-- If the events hold a halt, or a clear whose trimmed reason is missing or shorter than eight units, with
-- nothing newer than REORG rows in front of it, then every rollback is refused, whatever the older rows are:
-- the call throws, and no block and no event changes.
pub verify_reorg_refuses_halted :
    (w : World) (fuel : ℕ) (node_tip : Option ℕ) (s : Decoder) (newer : List Event) (row : Event)
    (older : List Event)
    → s.events ≡ newer ++ (row ∷ older)
    → All IsReorg newer
    → IsLive row
    → let run = verify_reorg w fuel node_tip s in
      ((run.0 ≡ err halted_before) ⊎ (run.0 ≡ err fault))
      × ((run.1).blocks ≡ s.blocks)
      × ((run.1).events ≡ s.events)
      × ((run.1).blocks_deleted ≡ [])
verify_reorg_refuses_halted w fuel node_tip s newer row older e quiet live =
    refused w fuel node_tip s (
      ap (λ events. is_halted (halt_state events)) e
      ∙ ap is_halted (halt_state-behind newer (row ∷ older) quiet)
      ∙ IsLive-halt_state row older live)
