-- ===== src/Reorg/Walk.antt =====
-- src/XChainDecoder/reorg_verification.js: the walk back over the stored blocks, and `verifyReorg`.
use xchain_decoder.Prelude.{
  ℕ, zero, suc, Bool, true, false, Option, none, some, List, [], ◌∷◌, ltb, leb, length,
  if◌then◌else◌,
}
use xchain_decoder.Prelude.Text.{Text, text_eq}
use xchain_decoder.Reorg.{
  Block, Reading, unread, null_hash, hash, World, HaltReason, delete_failed, halt, delete_aborted,
  still_running, Decoder, Run, return, throw, ask, attempt, get_state, modify, ◌>>=◌, ◌>>◌,
}
use xchain_decoder.Reorg.Store.{
  delete_block_by_index, get_block_by_index, get_last_block_index, is_reorg_halted,
}
use xchain_decoder.Reorg.Halt.{halt_reorg}
use xchain_decoder.Reorg.Depth.{
  assert_within_safe_depth, is_set, read_prior_rollback_depth, refuse_halted_rollback,
  refuse_or_halt_deep_gap, require_reorg_proof,
}
use xchain_decoder.Reorg.Tip.{refresh_reorg_tip}
use xchain_decoder.Reorg.HaltedWalk.{above_tip, finish_halted_walk, push_deleted}

abbrev pub count_failure : World → ℕ → Run ℕ
count_failure w retry_count =
    if leb 10 (suc retry_count)
    then (do halt_reorg w delete_failed; throw delete_aborted)
    else return (suc retry_count)

-- The `try` that both branches of the walk end in.
unfoldable pub try_delete : World → Block → ℕ → Run ℕ
try_delete w block retry_count = do
  done ← attempt (delete_block_by_index w block)
  elim done [
    | some _ ↦ (do modify (push_deleted block); return 0)
    | none ↦ count_failure w retry_count
  ]

-- Once the walk is halted nothing is deleted here.
abbrev pub unless_halted : ℕ → Run ℕ → Run ℕ
unless_halted retry_count m = do
  s ← get_state
  if is_set s.halt_error then return retry_count else m

unfoldable pub delete_forked_block : World → Block → Option ℕ → ℕ → ℕ → Run ℕ
delete_forked_block w block node_tip prior_depth retry_count = do
  require_reorg_proof w block node_tip
  assert_within_safe_depth w prior_depth
  unless_halted retry_count (try_delete w block retry_count)

unfoldable pub delete_above_tip_block : World → Block → ℕ → ℕ → ℕ → Run ℕ
unfolding delete_forked_block
delete_above_tip_block w block node_tip prior_depth retry_count = do
  refuse_or_halt_deep_gap w block node_tip prior_depth
  unless_halted retry_count (delete_forked_block w block (some node_tip) prior_depth retry_count)

-- `none` for a read that failed.
unfoldable pub read_last_stored_block : World → Run (Option (Option ℕ × Option Block))
read_last_stored_block w = attempt (do
  last_block_index ← get_last_block_index w
  last_block ← get_block_by_index w last_block_index
  return (last_block_index, last_block))

-- The walk ends, or goes on with a node tip and a retry count.
pub data Next : Type 0 where
  finished : Next
  again : Option ℕ → ℕ → Next

-- The stored hash against the node's, `===`.
unfoldable pub is_same : Option Text → Reading → Bool
is_same none null_hash = true
is_same (some stored) (hash t) = text_eq stored t
is_same _ _ = false

abbrev pub then_again : Option ℕ → Run ℕ → Run Next
then_again node_tip m = do retry_count ← m; return (again node_tip retry_count)

unfoldable pub compare_block : World → ℕ → Option ℕ → ℕ → Block → Reading → Run Next
compare_block w prior_depth node_tip retry_count block unread = do
  tip ← refresh_reorg_tip w node_tip
  return (again tip retry_count)
compare_block w prior_depth node_tip retry_count block answer =
    if is_same block.block_hash answer
    then return finished
    else then_again node_tip (delete_forked_block w block node_tip prior_depth retry_count)

abbrev pub walk_block : World → ℕ → Option ℕ → ℕ → Block → Run Next
walk_block w prior_depth node_tip retry_count block =
    if above_tip block.block_index node_tip
    then elim node_tip [
      | none ↦ return finished
      | some tip ↦
          then_again (some tip) (delete_above_tip_block w block tip prior_depth retry_count)
    ]
    else (do
      answer ← ask (λ t. w.get_block_hash t block.block_index)
      compare_block w prior_depth node_tip retry_count block answer)

abbrev pub walk_stored : World → ℕ → Option ℕ → ℕ → Option (Option ℕ × Option Block) → Run Next
walk_stored w prior_depth node_tip retry_count none = return (again node_tip retry_count)
walk_stored w prior_depth node_tip retry_count (some (some index, some last_block)) =
    if ltb index w.start_block_index
    then return finished
    else walk_block w prior_depth node_tip retry_count
        (record { block_index = index; block_hash = last_block.block_hash })
walk_stored w prior_depth node_tip retry_count (some (_, _)) = return finished

-- One round of the loop of `walkReorg`.
unfoldable pub walk_round : World → ℕ → Option ℕ → ℕ → Run Next
walk_round w prior_depth node_tip retry_count = do
  stored ← read_last_stored_block w
  walk_stored w prior_depth node_tip retry_count stored

unfoldable pub walk_reorg : World → ℕ → ℕ → Option ℕ → ℕ → Run (Unit {0})
walk_reorg w prior_depth zero node_tip retry_count = throw still_running
walk_reorg w prior_depth (suc fuel) node_tip retry_count = do
  s ← get_state
  elim (is_set s.halt_error) [
    | true ↦ finish_halted_walk w node_tip prior_depth
    | false ↦ (do
      next ← walk_round w prior_depth node_tip retry_count
      elim next [
        | finished ↦ return tt
        | again tip retries ↦ walk_reorg w prior_depth fuel tip retries
      ])
  ]

-- The error that a halted walk recorded is thrown here; a completed run is counted.
abbrev pub close : Option HaltReason → List Block → Run (Unit {0})
close (some reason) blocks_deleted = throw (halt reason)
close none [] = return tt
close none (b ∷ bs) =
    modify (λ u. record u { reorg_count = suc u.reorg_count; last_reorg_depth = suc (length bs) })

unfoldable pub finish_reorg_run : Run (Unit {0})
finish_reorg_run = do s ← get_state; close s.halt_error s.blocks_deleted

abbrev pub begin : Decoder → Decoder
begin s = record s { blocks_deleted = []; halt_error = none; halt_stop = none }

unfoldable pub verify_reorg : World → ℕ → Option ℕ → Run (Unit {0})
verify_reorg w fuel node_tip = do
  modify begin
  halted ← is_reorg_halted w
  if halted then refuse_halted_rollback w else return tt
  prior_depth ← read_prior_rollback_depth w
  walk_reorg w prior_depth fuel node_tip 0
  finish_reorg_run
