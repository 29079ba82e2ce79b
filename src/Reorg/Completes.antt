-- ===== src/Reorg/Completes.antt =====
-- `verifyReorg` comes to an end.
use xchain_decoder.Prelude.{ℕ, suc, ◌+◌, Option, none, some, List, [], ◌∷◌, ◌++◌, length, take, ok}
use xchain_decoder.Prelude.Text.{Text}
use xchain_decoder.Reorg.{
  Block, Event, World, Decoder, return, throw, ask, attempt, get_state, modify, ◌>>=◌,
}
use mathlib.Core.Path.{subst}
use xchain_decoder.Prelude.{
  take, ◌≡◌, ◌≤◌, ◌<◌, refl, sym, ◌∙◌, ap, inl, inr, arith, All, Option-cases,
}
use xchain_decoder.Reorg.Store.{
  max_height, halt_state, not_halted, is_reorg_halted, read_reorg_halt_state, get_last_block_index,
  count_reorg_deletes_above_tip, heights_above_tip, reorg_rows, scan_limit,
}
use xchain_decoder.Reorg.Depth.{safe_depth_for, read_prior_rollback_depth}
use xchain_decoder.Reorg.Walk.{walk_reorg, verify_reorg, finish_reorg_run}
use xchain_decoder.Reorg.Order.{IsDescending}
use xchain_decoder.Reorg.Verified.{depth_above}
use xchain_decoder.Reorg.Steady.{IsSteady, IsForked, IsKept, at, walk_reorg-forked}

module _ (w : World) (chain : ℕ → Text) (steady : IsSteady w chain) (node_tip : Option ℕ)
    (s : Decoder) where
  counted_depth :
      (prior_depth : ℕ)
      → depth_above s ≡ some prior_depth
      → (heights : List ℕ) × (heights_above_tip
            (max_height s.blocks)
            (take scan_limit (reorg_rows s.events))
            []
          ≡ some heights)
        × (length heights ≡ prior_depth)
  counted_depth prior_depth e =
      elim (Option-cases
        (heights_above_tip (max_height s.blocks) (take scan_limit (reorg_rows s.events)) [])) [
          | inl unreadable ↦ absurd (let h : none ≡ some prior_depth = rw unreadable at e in cc)
          | inr (heights, read) ↦ (
            heights,
            read,
            (let h : some (length heights) ≡ some prior_depth = rw read at e in cc),
          )
        ]

  finish_unhalted :
      (kept deleted : List Block) (events : List Event) (clock : ℕ)
      → let run = finish_reorg_run (at w chain steady node_tip 0 s kept events clock deleted) in
        (run.0 ≡ ok tt) × ((run.1).blocks ≡ kept) × ((run.1).blocks_deleted ≡ deleted)
  unfolding finish_reorg_run get_state ◌>>=◌ return modify
  finish_unhalted kept [] events clock = (refl, refl, refl)
  finish_unhalted kept (b ∷ bs) events clock = (refl, refl, refl)

  uncached :
      (prior_depth fuel : ℕ) (forked kept : List Block)
      → halt_state s.events ≡ not_halted
      → depth_above s ≡ some prior_depth
      → s.blocks ≡ forked ++ kept
      → IsDescending (forked ++ kept)
      → All (IsForked w chain node_tip) forked
      → IsKept chain node_tip kept
      → prior_depth + length forked ≤ safe_depth_for w
      → length forked < fuel
      → let run = verify_reorg w fuel node_tip (record s { fork_proof_cache = none }) in
        (run.0 ≡ ok tt) × ((run.1).blocks ≡ kept) × ((run.1).blocks_deleted ≡ forked)
  unfolding verify_reorg is_reorg_halted read_reorg_halt_state read_prior_rollback_depth
      count_reorg_deletes_above_tip get_last_block_index ask return throw attempt modify get_state
      ◌>>=◌
  uncached prior_depth fuel forked kept free depth split d f k room enough =
      let (heights, read, many) = counted_depth prior_depth depth in
      let (e, t, walked) =
        walk_reorg-forked w chain steady node_tip prior_depth s forked kept [] s.events
          (suc (suc (suc s.clock))) 0 fuel f k d (omega arith) enough in
      let walked_here : walk_reorg w prior_depth fuel node_tip 0
            (at w chain steady node_tip 0 s s.blocks s.events (suc (suc (suc s.clock))) [])
          ≡ (ok tt, at w chain steady node_tip 0 s kept e t forked) =
        ap
          (λ bs.
            walk_reorg w prior_depth fuel node_tip 0
              (at w chain steady node_tip 0 s bs s.events (suc (suc (suc s.clock))) []))
          split
        ∙ walked in
      rw
        (
          steady.reads s.clock,
          free,
          steady.reads (suc s.clock),
          steady.reads (suc (suc s.clock)),
          read,
          many,
          walked_here,
        )
        (finish_unhalted kept forked e t)

-- Suppose the database answers, the node keeps to one chain, no halt stands, no refusal is cached, and the
-- forked blocks at the top of the table, all under the node's tip and known to the node, fit the safe depth
-- with those that were rolled back before; below them the table is empty or its top is on the chain. Then
-- the walk ends: with one round more than there are forked blocks, the call returns, and it has deleted
-- exactly the forked blocks.
pub verify_reorg_completes :
    (w : World) (chain : ℕ → Text) (node_tip : Option ℕ) (s : Decoder) (prior_depth fuel : ℕ)
    (forked kept : List Block) (steady : IsSteady w chain)
    → s.fork_proof_cache ≡ none
    → halt_state s.events ≡ not_halted
    → depth_above s ≡ some prior_depth
    → s.blocks ≡ forked ++ kept
    → IsDescending (forked ++ kept)
    → All (IsForked w chain node_tip) forked
    → IsKept chain node_tip kept
    → prior_depth + length forked ≤ safe_depth_for w
    → length forked < fuel
    → let run = verify_reorg w fuel node_tip s in
      (run.0 ≡ ok tt) × ((run.1).blocks ≡ kept) × ((run.1).blocks_deleted ≡ forked)
verify_reorg_completes w chain node_tip s prior_depth fuel forked kept steady fresh free depth split
      d f k room enough =
    let same : record s { fork_proof_cache = none } ≡ s =
      ap (λ c. record s { fork_proof_cache = c }) (sym fresh) in
    subst
      (λ u.
        let run = verify_reorg w fuel node_tip u in
        (run.0 ≡ ok tt) × ((run.1).blocks ≡ kept) × ((run.1).blocks_deleted ≡ forked))
      same
      (uncached w chain steady node_tip s prior_depth fuel forked kept free depth split d f k room
        enough)
