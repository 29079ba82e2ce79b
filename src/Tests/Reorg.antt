-- ===== src/Tests/Reorg.antt =====
-- A rollback of two blocks: the node's tip is 102, the stored one 103, and the chains meet at 101.
use xchain_decoder.Prelude.{
  ℕ, ◌+◌, ◌*◌, ◌≤◌, ◌≡◌, ◌⊎◌, refl, arith, false, Option, none, some, List, [], ◌∷◌, ◌++◌, All,
  length, ◌==◌, if◌then◌else◌, ok, err,
}
use xchain_decoder.Prelude.Text.{codes, text_eq}
use xchain_decoder.Prelude.Integers.{negsuc}
use xchain_decoder.Reorg.{
  Block, World, Decoder, Event, reorg_halt, hash, header, Written, halted_before, fault, ask,
  return, throw, attempt, modify, get_state, ◌>>=◌,
}
use xchain_decoder.Reorg.Store.{
  halt_state, reorg_rows, max_height, find_block, remove_block, delete_block_by_index,
  get_last_block_index, get_block_by_index, read_reorg_halt_state, is_reorg_halted,
  count_reorg_deletes_above_tip, heights_above_tip,
}
use xchain_decoder.Reorg.ReorgedAway.{
  judge, prove_reorged_away, prove_fork_reorged_away, cached_refusal,
}
use xchain_decoder.Reorg.Depth.{
  safe_depth_for, read_prior_rollback_depth, assert_within_safe_depth, require_reorg_proof,
  require_above_tip_fork_proof, refuse_or_halt_deep_gap,
}
use xchain_decoder.Reorg.Walk.{
  verify_reorg, walk_reorg, walk_round, read_last_stored_block, compare_block, is_same, try_delete,
  delete_forked_block, delete_above_tip_block, finish_reorg_run,
}
use xchain_decoder.Reorg.Rollback.{WasReorgedAway, mark_rows}
use xchain_decoder.Reorg.Rounds.{IsReconciled}
use xchain_decoder.Reorg.Order.{IsDescending}
use xchain_decoder.Reorg.Verified.{depth_above}
use xchain_decoder.Reorg.{Event, reorg, reorg_halt_cleared}
use xchain_decoder.Batch.Keys.{trim}
use xchain_decoder.Reorg.Outcomes.{
  too_short, verify_reorg_deletes_proven, verify_reorg_depth, verify_reorg_reconciles,
  verify_reorg_marks, verify_reorg_refuses_halted,
}
use mathlib.Core.Path.{subst}
use xchain_decoder.Prelude.{◌<◌, ◌≢◌, sym}
use xchain_decoder.Prelude.Maps.{get}
use xchain_decoder.Chain.{chain_tier_mismatch, chain_genesis_unpinned}
use xchain_decoder.Reorg.Store.{not_halted}
use xchain_decoder.Reorg.Tip.{
  refresh_reorg_tip, read_reorg_tip, settle_node_reading, verify_chain_genesis,
  is_foreign_or_malformed, node_tip_still_catching_up, node_still_catching_up,
  blockchain_info_well_formed,
}
use xchain_decoder.Reorg.Steady.{IsSteady, IsForked, IsKept}
use xchain_decoder.Reorg.Completes.{verify_reorg_completes}
use xchain_decoder.Reorg.Marks.{IsHashed}
use xchain_decoder.Reorg.Restart.{verify_reorg_restarted}
use xchain_decoder.Reorg.Settled.{IsReported, refresh_reorg_tip_lowered}

abbrev pub node : World
node = record {
  now = λ t. t;
  read_fails = λ t. false;
  write_fails = λ t. false;
  insert_event = λ t. Written.written;
  get_block_hash = λ t height. hash (if height == 101 then codes "cc" else codes "ff");
  get_block_header = λ t h. header (some (negsuc 0));
  get_blockchain_info = λ t. none;
  start_block_index = 100;
  dispenser_expire_safe_depth = 0;
  consensus_network = codes "regtest";
  chain_genesis_hash = none;
}

abbrev pub block : ℕ → Option (List ℕ) → Block
block height stored = record { block_index = height; block_hash = stored }

abbrev pub decoder : List Event → Decoder
decoder events = record {
  blocks =
      block 103 (some (codes "aa"))
      ∷ block 102 (some (codes "bb"))
      ∷ block 101 (some (codes "cc"))
      ∷ [];
  events = events;
  clock = 0;
  fork_proof_cache = none;
  reorg_halted = false;
  reorg_halt_reason = none;
  reorg_halt_at = 0;
  reorg_halt_checked_at = 0;
  reorg_halt_marker_persisted = false;
  chain_genesis_checked_at = 0;
  reorg_count = 0;
  last_reorg_depth = 0;
  blocks_deleted = [];
  halt_error = none;
  halt_stop = none;
}

rolled_back :
    let run = verify_reorg node 9 (some 102) (decoder []) in
    (run.0 ≡ ok tt) × (length (run.1).blocks_deleted ≡ 2) × ((run.1).reorg_count ≡ 1)
unfolding verify_reorg walk_reorg walk_round read_last_stored_block compare_block is_same try_delete
    delete_forked_block delete_above_tip_block finish_reorg_run read_prior_rollback_depth max_height
    find_block remove_block delete_block_by_index get_last_block_index get_block_by_index halt_state
    read_reorg_halt_state is_reorg_halted count_reorg_deletes_above_tip heights_above_tip judge
    prove_reorged_away prove_fork_reorged_away cached_refusal safe_depth_for
    assert_within_safe_depth require_reorg_proof require_above_tip_fork_proof
    refuse_or_halt_deep_gap ask return throw attempt modify get_state ◌>>=◌ text_eq
rolled_back = (refl, refl, refl)

descending : IsDescending (decoder []).blocks
descending = ground arith

verify_reorg_deletes_proven_example :
    let u = (verify_reorg node 9 (some 102) (decoder [])).1 in
    ((decoder []).blocks ≡ u.blocks_deleted ++ u.blocks)
    × All (WasReorgedAway node 0 u.clock) u.blocks_deleted
verify_reorg_deletes_proven_example =
    verify_reorg_deletes_proven node 9 (some 102) (decoder []) descending

verify_reorg_depth_example :
    let run = verify_reorg node 9 (some 102) (decoder []) in
    ((run.1).blocks_deleted ≡ [])
    ⊎ ((prior_depth : ℕ) × (depth_above (decoder []) ≡ some prior_depth)
        × (prior_depth + length (run.1).blocks_deleted ≤ 2 * safe_depth_for node)
        × (run.0 ≡ ok tt → prior_depth + length (run.1).blocks_deleted ≤ safe_depth_for node))
verify_reorg_depth_example = verify_reorg_depth node 9 (some 102) (decoder []) descending

verify_reorg_reconciles_example :
    IsReconciled node (decoder []) 0 ((verify_reorg node 9 (some 102) (decoder [])).1)
verify_reorg_reconciles_example =
    verify_reorg_reconciles node 9 (some 102) (decoder []) descending rolled_back.0

verify_reorg_marks_example :
    let u = (verify_reorg node 9 (some 102) (decoder [])).1 in
    reorg_rows u.events ≡ mark_rows u.blocks_deleted []
verify_reorg_marks_example = verify_reorg_marks node 9 (some 102) (decoder []) descending

-- A clear whose reason has seven units between blanks, behind a REORG row and in front of a halt.
abbrev blank_clear : List Event
blank_clear = reorg none ∷ reorg_halt_cleared (some (codes "  cleared  ")) ∷ reorg_halt ∷ []

cleared_is_short : length (trim (codes "  cleared  ")) < 8
unfolding trim
cleared_is_short = omega arith

verify_reorg_refuses_halted_example :
    let run = verify_reorg node 9 (some 102) (decoder blank_clear) in
    ((run.0 ≡ err halted_before) ⊎ (run.0 ≡ err fault))
    × ((run.1).blocks ≡ (decoder []).blocks)
    × ((run.1).events ≡ blank_clear)
    × ((run.1).blocks_deleted ≡ [])
verify_reorg_refuses_halted_example =
    verify_reorg_refuses_halted node 9 (some 102) (decoder blank_clear) (reorg none ∷ [])
      (reorg_halt_cleared (some (codes "  cleared  "))) (reorg_halt ∷ []) refl ((none, refl), tt)
      (too_short (codes "  cleared  ") cleared_is_short)

chain : ℕ → List ℕ
chain height = if height == 101 then codes "cc" else codes "ff"

steady : IsSteady node chain
unfolding chain
steady = record { reads = λ t. refl; writes = λ t. refl; hashes = λ t height. refl }

replaced_103 : IsForked node chain none (block 103 (some (codes "aa")))
unfolding chain is_same text_eq
replaced_103 = record {
  known = λ t. refl;
  other = refl;
  from_start = omega arith;
  under_tip = refl;
}

replaced_102 : IsForked node chain none (block 102 (some (codes "bb")))
unfolding chain is_same text_eq
replaced_102 = record {
  known = λ t. refl;
  other = refl;
  from_start = omega arith;
  under_tip = refl;
}

lower_101 : IsKept chain none (block 101 (some (codes "cc")) ∷ [])
unfolding chain is_same text_eq
lower_101 = ((tt, tt), refl, refl)

no_depth : depth_above (decoder []) ≡ some 0
unfolding heights_above_tip
no_depth = refl

not_halted_here : halt_state [] ≡ not_halted
unfolding halt_state
not_halted_here = refl

safe_126 : safe_depth_for node ≡ 126
unfolding safe_depth_for
safe_126 = refl

verify_reorg_completes_example :
    let run = verify_reorg node 3 none (decoder []) in
    (run.0 ≡ ok tt)
    × ((run.1).blocks ≡ block 101 (some (codes "cc")) ∷ [])
    × ((run.1).blocks_deleted ≡ block 103 (some (codes "aa")) ∷ block 102 (some (codes "bb")) ∷ [])
verify_reorg_completes_example =
    verify_reorg_completes node chain none (decoder []) 0 3
      (block 103 (some (codes "aa")) ∷ block 102 (some (codes "bb")) ∷ [])
      (block 101 (some (codes "cc")) ∷ []) steady refl not_halted_here no_depth refl descending
      (replaced_103, (replaced_102, tt)) lower_101 (omega (arith, safe_126)) (omega arith)

-- Stopped after one round.
abbrev stopped : Decoder
stopped = (verify_reorg node 1 (some 102) (decoder [])).1

stopped_run :
    (stopped.blocks_deleted ≡ block 103 (some (codes "aa")) ∷ [])
    × (reorg_rows stopped.events ≡ some (103 ∷ []) ∷ [])
unfolding verify_reorg walk_reorg walk_round read_last_stored_block compare_block is_same try_delete
    delete_forked_block delete_above_tip_block finish_reorg_run read_prior_rollback_depth max_height
    find_block remove_block delete_block_by_index get_last_block_index get_block_by_index halt_state
    read_reorg_halt_state is_reorg_halted count_reorg_deletes_above_tip heights_above_tip judge
    prove_reorged_away prove_fork_reorged_away cached_refusal safe_depth_for
    assert_within_safe_depth require_reorg_proof require_above_tip_fork_proof
    refuse_or_halt_deep_gap ask return throw attempt modify get_state ◌>>=◌ text_eq
stopped_run = (refl, refl)

marked_103 : IsHashed (block 103 (some (codes "aa")) ∷ [])
marked_103 = (λ e. cc, tt)

abbrev restarted : Decoder
restarted = record (decoder []) { blocks = stopped.blocks; events = stopped.events }

verify_reorg_restarted_example :
    let run = verify_reorg node 9 (some 102) restarted in
    (length stopped.blocks_deleted + length (run.1).blocks_deleted ≤ 2 * safe_depth_for node)
    × (run.0 ≡ ok tt
        → (run.1).blocks_deleted ≢ []
        → length stopped.blocks_deleted + length (run.1).blocks_deleted ≤ safe_depth_for node)
verify_reorg_restarted_example =
    verify_reorg_restarted node node 1 9 (some 102) (some 102) (decoder []) restarted descending
      refl refl refl (subst IsHashed (sym stopped_run.0) marked_103)
      (rw stopped_run.1 (omega arith))

abbrev lower_node : World
lower_node = record node {
  get_blockchain_info = λ t. some (
      some (record {
        blocks = some 90;
        verification_progress = some 1000000;
        initial_block_download = false;
        chain = some (codes "regtest");
      }));
}

lowered_run :
    refresh_reorg_tip lower_node (some 95) (decoder [])
    ≡ (ok (some 90), record (decoder []) { clock = 2 })
unfolding refresh_reorg_tip read_reorg_tip settle_node_reading verify_chain_genesis
    is_foreign_or_malformed node_tip_still_catching_up node_still_catching_up
    blockchain_info_well_formed chain_tier_mismatch chain_genesis_unpinned get text_eq ask return
    throw attempt modify get_state ◌>>=◌
lowered_run = refl

refresh_reorg_tip_lowered_example :
    (a : ℕ) × (b : ℕ) × (0 ≤ a)
    × (a < b)
    × (b < 2)
    × IsReported lower_node (some 90) a
    × IsReported lower_node (some 90) b
refresh_reorg_tip_lowered_example =
    refresh_reorg_tip_lowered lower_node 95 90 (decoder []) (record (decoder []) { clock = 2 })
      lowered_run (omega arith)
