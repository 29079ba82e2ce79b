-- ===== src/Sync.antt =====
-- src/XChainDecoder/sync_loop.js: the check of the node's hash at the stored tip, and what the parse loop
-- does with a rollback that fails: it waits, parks, or lets the error through.
--
-- The fields of `loop` and the decoder's fields that only this code writes are one record, passed on. A
-- reading that is neither null nor a string equals no other.
pub mod Swap
pub mod Errors
use xchain_decoder.Prelude.{
  ℕ, zero, suc, ◌-◌, Bool, true, false, not, ◌&&◌, Option, none, some, List, ◌∷◌, max, ◌==◌, ltb,
  if◌then◌else◌, Result, err, ok,
}
use xchain_decoder.Prelude.Text.{text_eq, Text}
use xchain_decoder.Reorg.{
  Block, World, Decoder, Run, Thrown, RefusalClass, Reading, unread, null_hash, no_string, hash,
  wait, halt, halted_before, fault, return, throw, ask, attempt, get_state, modify, ◌>>=◌, ◌>>◌,
}
use xchain_decoder.Reorg.Store.{
  get_last_block_index, get_block_by_index, count_reorg_deletes_above_tip,
}
use xchain_decoder.Reorg.ReorgedAway.{same_hash}
use xchain_decoder.Reorg.Depth.{nonempty_text}
use xchain_decoder.Reorg.Tip.{settle_node_reading, tip_settle_max_reads}
use xchain_decoder.Reorg.Walk.{verify_reorg, is_same}

-- `reorgWait`
pub record Wait : Type 0 where
  pub stored_height : ℕ
  pub stored_hash : Option Text
  pub class : RefusalClass
  pub since : ℕ

-- What the park of the parse loop shows: the height, if a block is stored, and whether only a reset helps.
pub record Park : Type 0 where
  pub height : Option ℕ
  pub reset_only : Bool

-- The cursor is `none` for -1.
pub record Loop : Type 0 where
  pub last_processed_block_index : Option ℕ
  pub last_processed_tx_index : Option ℕ
  pub blocks_quantity : ℕ
  pub blocks_count : ℕ
  pub transactions_count : ℕ
  pub valid_transactions_count : ℕ
  pub output_count : ℕ
  pub last_blockchain_info_refresh_at : ℕ
  pub tip_hash_checked_at : ℕ
  pub tip_below_stored_tip_refused : Option RefusalClass
  pub blockchain_info_last_block : Option ℕ
  pub reorg_wait : Option Wait
  pub reorg_halt_parked : Option Park

-- The answers of a rollback, the rows that are left once the open transaction is rolled back, and
-- `getLastTxIndex`, `none` for -1; a call that throws gives `none`.
pub record Outside : Type 0 where
  pub world : World
  pub end_transaction : ℕ → List Block → Option (List Block)
  pub last_tx_index : ℕ → Option (Option ℕ)

abbrev same_class : RefusalClass → RefusalClass → Bool
same_class RefusalClass.unproven_fork RefusalClass.unproven_fork = true
same_class RefusalClass.same_chain RefusalClass.same_chain = true
same_class RefusalClass.unread_node RefusalClass.unread_node = true
same_class RefusalClass.node_behind RefusalClass.node_behind = true
same_class _ _ = false

abbrev pub since_of : Option Wait → RefusalClass → Block → ℕ → ℕ
since_of none class block now = now
since_of (some prior) class block now =
    if prior.stored_height == block.block_index
      && same_hash prior.stored_hash block.block_hash
      && same_class prior.class class
    then prior.since
    else now

-- The start time of the same wait is kept; an empty hash counts as none.
unfoldable pub set_reorg_wait : Outside → RefusalClass → Block → Loop → Run Loop
set_reorg_wait o class block loop = do
  now ← ask o.world.now
  let next : Block = record {
    block_index = block.block_index;
    block_hash = nonempty_text block.block_hash;
  }
  return (record loop {
    reorg_wait = some (record {
      stored_height = next.block_index;
      stored_hash = next.block_hash;
      class = class;
      since = since_of loop.reorg_wait class next now;
    });
  })

unfoldable pub reset_batch_counters : Loop → Loop
reset_batch_counters loop = record loop {
  blocks_quantity = 0;
  blocks_count = 0;
  transactions_count = 0;
  valid_transactions_count = 0;
  output_count = 0;
}

-- `Math.max(index, startBlockIndex - 1)`
unfoldable pub clamped_to_start : Option ℕ → ℕ → Option ℕ
clamped_to_start index zero = index
clamped_to_start none (suc n) = some n
clamped_to_start (some index) (suc n) = some (max index n)

abbrev pub or_fault : {A : Type 0} → Option A → Run A
or_fault none = throw fault
or_fault (some a) = return a

unfoldable pub get_last_tx_index : Outside → Run (Option ℕ)
get_last_tx_index o = do answer ← ask o.last_tx_index; or_fault answer

abbrev pub with_block : Outside → Option ℕ → Loop → Loop
with_block o index loop = record loop {
  last_processed_block_index = clamped_to_start index o.world.start_block_index;
}

abbrev pub with_tx : Option ℕ → Loop → Loop
with_tx index loop = record loop { last_processed_tx_index = index }

-- The cursors of the tables, and the counters at 0.
unfoldable pub rederive : Outside → Loop → Run Loop
unfolding reset_batch_counters clamped_to_start
rederive o loop = do
  index ← get_last_block_index o.world
  tx ← get_last_tx_index o
  return (reset_batch_counters (with_tx tx (with_block o index loop)))

-- Before a park: what was read before a read fails is kept.
unfoldable pub rederive_or_keep : Outside → Loop → Run Loop
unfolding reset_batch_counters clamped_to_start
rederive_or_keep o loop = do
  index ← attempt (get_last_block_index o.world)
  elim index [
    | none ↦ return loop
    | some i ↦ (do
      tx ← attempt (get_last_tx_index o)
      elim tx [
        | none ↦ return (with_block o i loop)
        | some t ↦ return (reset_batch_counters (with_tx t (with_block o i loop)))
      ])
  ]

-- A park that is there stays.
abbrev pub kept_park : Option Park → Park → Park
kept_park none next = next
kept_park (some there) next = there

unfoldable pub park_on_reorg_halt : Bool → Loop → Loop
park_on_reorg_halt reset_only loop = record loop {
  reorg_halt_parked = some (
      kept_park loop.reorg_halt_parked
        (record { height = loop.last_processed_block_index; reset_only = reset_only }));
}

-- An unreadable count is a reset too.
abbrev pub needs_reset : Option ℕ → Bool
needs_reset none = true
needs_reset (some count) = not (count == 0)

unfoldable pub park : Outside → Loop → Run Loop
unfolding park_on_reorg_halt
park o loop = do
  here ← rederive_or_keep o loop
  rolled_back ← attempt (count_reorg_deletes_above_tip o.world)
  return (park_on_reorg_halt (needs_reset rolled_back) here)

abbrev pub refused : RefusalClass → Loop → Loop
refused class loop = record loop { tip_below_stored_tip_refused = some class }

unfoldable pub park_or_rethrow : Outside → Thrown → Loop → Run Loop
park_or_rethrow o (wait class block) loop = do
  waiting ← set_reorg_wait o class block loop
  return (refused class waiting)
park_or_rethrow o (halt reason) loop = park o loop
park_or_rethrow o halted_before loop = park o loop
park_or_rethrow o thrown loop = throw thrown

-- `try { … } catch (err) { … }`
abbrev pub caught :
    {A B : Type 0}
    → Result Thrown A × Decoder
    → (Thrown → Run B)
    → (A → Run B)
    → Result Thrown B × Decoder
caught (err e, s) handler next = handler e s
caught (ok a, s) handler next = next a s

unfoldable pub try_catch : {A B : Type 0} → Run A → (Thrown → Run B) → (A → Run B) → Run B
try_catch m handler next s = caught (m s) handler next

abbrev pub truthy : Reading → Option Reading
truthy (hash (c ∷ cs)) = some (hash (c ∷ cs))
truthy no_string = some no_string
truthy _ = none

abbrev pub same_reading : Reading → Reading → Bool
same_reading (hash a) (hash b) = text_eq a b
same_reading _ _ = false

-- One more reading of the hash, `none` for a failed or empty one.
unfoldable pub read_hash : Outside → ℕ → Run (Option Reading)
read_hash o height = do answer ← ask (λ t. o.world.get_block_hash t height); return (truthy answer)

abbrev pub swapped : Option Text → Option Reading → Bool
swapped stored none = false
swapped stored (some settled) = not (is_same stored settled)

unfoldable pub equal_height_swap_holds : Outside → ℕ → Reading → Option Text → Run Bool
equal_height_swap_holds o height node_hash stored = do
  settled ← settle_node_reading same_reading (read_hash o height) tip_settle_max_reads node_hash
  return (swapped stored settled)

unfoldable pub end_transaction : Outside → Run (Unit {0})
end_transaction o = do
  s ← get_state
  rows ← ask (λ t. o.end_transaction t s.blocks)
  kept ← or_fault rows
  modify (λ u. record u { blocks = kept })

abbrev pub settled_wait : Loop → Loop
settled_wait loop = record loop { reorg_wait = none; tip_below_stored_tip_refused = none }

-- The result says whether the loop starts its next pass at once.
unfoldable pub reconcile : Outside → ℕ → Loop → Run (Bool × Loop)
reconcile o fuel loop = do
  end_transaction o
  try_catch (verify_reorg o.world fuel loop.blockchain_info_last_block)
      (λ thrown. park_or_rethrow o thrown loop >>= λ after. return (true, after))
      (λ done. rederive o (settled_wait loop) >>= λ after. return (true, after))

abbrev pub act_on : Outside → ℕ → Loop → Bool → Run (Bool × Loop)
act_on o fuel loop holds = if holds then reconcile o fuel loop else return (false, loop)

-- The stored block against the node's reading, once both are there.
unfoldable pub compare_tip :
    Outside → ℕ → Loop → ℕ → Option Reading → Option (Option Block) → Run (Bool × Loop)
compare_tip o fuel loop height (some node_hash) (some (some stored)) =
    if is_same stored.block_hash node_hash then return (false, settled_wait loop) else (do
      holds ← equal_height_swap_holds o height node_hash stored.block_hash
      act_on o fuel loop holds)
compare_tip o fuel loop height node_hash stored = return (false, loop)

-- A hash that cannot be read leaves the stored block unread too.
unfoldable pub read_stored : Outside → ℕ → Reading → Run (Option (Option Block))
read_stored o height unread = return none
read_stored o height answer = attempt (get_block_by_index o.world (some height))

unfoldable pub reconcile_equal_height_tip : Outside → ℕ → ℕ → Loop → Run (Bool × Loop)
unfolding read_stored compare_tip
reconcile_equal_height_tip o fuel height loop = do
  node_hash ← ask (λ t. o.world.get_block_hash t height)
  stored ← read_stored o height node_hash
  compare_tip o fuel (record loop { tip_hash_checked_at = loop.last_blockchain_info_refresh_at })
      height (truthy node_hash) stored
