-- ===== src/Reorg/HaltedWalk.antt =====
-- src/XChainDecoder/reorg_verification/halted_walk.js: the end of a halted rollback, on the node's positive
-- evidence only.
use xchain_decoder.Prelude.{
  ℕ, zero, suc, ◌+◌, ◌-◌, ◌*◌, Bool, true, false, ◌&&◌, Option, none, some, List, [], ◌∷◌, ◌++◌,
  ◌==◌, ltb, max, length, if◌then◌else◌,
}
use xchain_decoder.Prelude.Text.{Text, text_eq}
use xchain_decoder.Reorg.{
  Block, World, proven, unproven, HaltStop, stored_tip_unread, stored_block_unread,
  node_hash_unread, readings_disagree, no_fork_point, held_at_tip, not_proven, not_deleted, Decoder,
  Run, return, ask, attempt, get_state, modify, ◌>>=◌, ◌>>◌,
}
use xchain_decoder.Reorg.Store.{delete_block_by_index, get_block_by_index, get_last_block_index}
use xchain_decoder.Reorg.ReorgedAway.{prove_reorged_away}
use xchain_decoder.Reorg.Depth.{safe_depth_for, text_of, nonempty_text}

unfoldable pub read_node_block_hash : World → ℕ → Run (Option Text)
read_node_block_hash w height = do
  answer ← ask (λ t. w.get_block_hash t height)
  return (nonempty_text (text_of answer))

abbrev pub push_deleted : Block → Decoder → Decoder
push_deleted b s = record s { blocks_deleted = s.blocks_deleted ++ b ∷ [] }

-- `true` once the block is gone, within `attempts` attempts.
unfoldable pub delete_halted_block : World → Block → ℕ → Run Bool
delete_halted_block w block zero = return false
delete_halted_block w block (suc attempts) = do
  done ← attempt (delete_block_by_index w block)
  elim done [
    | some _ ↦ (do modify (push_deleted block); return true)
    | none ↦ delete_halted_block w block attempts
  ]

-- What the reading finds: why it stops, or the blocks to delete and the fork point.
pub data HaltedRead : Type 0 where
  stopped : HaltStop → HaltedRead
  found : Option ℕ → List Block → ℕ → HaltedRead

abbrev pub above_tip : ℕ → Option ℕ → Bool
above_tip height none = false
above_tip height (some tip) = ltb tip height

-- What two readings of the node say of a stored hash.
pub data Verdict : Type 0 where
  held : Verdict
  gone : Verdict
  unsure : HaltStop → Verdict

abbrev pub compare_readings : ℕ → Text → Option Text → Option Text → Verdict
compare_readings height stored (some first) (some second) =
    if text_eq first second
    then (if text_eq first stored then held else gone)
    else unsure (readings_disagree height)
compare_readings height stored _ _ = unsure (node_hash_unread height)

abbrev pub second_reading : World → ℕ → Option Text → Run (Option Text)
second_reading w height none = return none
second_reading w height (some first) = read_node_block_hash w height

unfoldable pub read_twice : World → ℕ → Text → Run Verdict
read_twice w height stored = do
  first ← read_node_block_hash w height
  second ← second_reading w height first
  return (compare_readings height stored first second)

abbrev pub stored_hash : Option (Option Block) → Option Text
stored_hash (some (some b)) = b.block_hash
stored_hash _ = none

-- One height: a block above the tip is doomed without a reading.
abbrev pub weigh : World → Option ℕ → ℕ → Option Text → Run Verdict
weigh w tip height none = return (unsure (stored_block_unread height))
weigh w tip height (some stored) =
    if above_tip height tip then return gone else read_twice w height stored

abbrev pub hash_or_empty : Option Text → Text
hash_or_empty none = []
hash_or_empty (some stored) = stored

-- From `lowest + count - 1` down to `lowest`.
unfoldable pub read_down : World → Option ℕ → Option ℕ → ℕ → ℕ → List Block → Run HaltedRead
read_down w tip stored_tip lowest zero doomed = return (stopped no_fork_point)
read_down w tip stored_tip lowest (suc count) doomed =
    let height = lowest + count in
    (do
      stored ← attempt (get_block_by_index w (some height))
      verdict ← weigh w tip height (stored_hash stored)
      elim verdict [
        | held ↦ return (found stored_tip doomed height)
        | unsure why ↦ return (stopped why)
        | gone ↦ read_down w tip stored_tip lowest count (
            doomed
            ++ (record {
              block_index = height;
              block_hash = some (hash_or_empty (stored_hash stored));
            })
              ∷ [])
      ])

-- The heights from the stored tip down to `Math.max(startBlockIndex, storedTip - budget)`, where the
-- budget is `allowed - spent` and may be below 0.
abbrev pub lowest_height : World → ℕ → ℕ → ℕ → ℕ
lowest_height w stored_tip allowed spent = max w.start_block_index ((stored_tip + spent) - allowed)

abbrev pub read_from : World → Option ℕ → ℕ → ℕ → Option ℕ → Run HaltedRead
read_from w tip allowed spent none = return (stopped no_fork_point)
read_from w tip allowed spent (some stored_tip) =
    let lowest = lowest_height w stored_tip allowed spent in
    read_down w tip (some stored_tip) lowest (suc stored_tip - lowest) []

unfoldable pub read_halted_walk : World → Option ℕ → ℕ → ℕ → Run HaltedRead
read_halted_walk w tip allowed spent = do
  stored_tip ← attempt (get_last_block_index w)
  elim stored_tip [
    | none ↦ return (stopped stored_tip_unread)
    | some index ↦ read_from w tip allowed spent index
  ]

unfoldable pub delete_proven_blocks : World → List Block → Run (Option HaltStop)
delete_proven_blocks w [] = return none
delete_proven_blocks w (block ∷ doomed) = do
  proof ← prove_reorged_away w block
  elim proof [
    | unproven why ↦ return (some (not_proven block.block_index))
    | proven ↦ (do
      deleted ← delete_halted_block w block 10
      elim deleted [
        | false ↦ return (some (not_deleted block.block_index))
        | true ↦ delete_proven_blocks w doomed
      ])
  ]

abbrev pub stop : Option HaltStop → Run (Unit {0})
stop why = modify (λ s. record s { halt_stop = why })

-- The fork point is the node's own tip and blocks are stored above it.
abbrev pub holds_tip : Option ℕ → Option ℕ → ℕ → Bool
holds_tip (some tip) (some stored_tip) fork_point = fork_point == tip && ltb tip stored_tip
holds_tip _ _ fork_point = false

abbrev pub finish_read : World → Option ℕ → HaltedRead → Run (Unit {0})
finish_read w tip (stopped why) = stop (some why)
finish_read w tip (found stored_tip doomed fork_point) =
    if holds_tip tip stored_tip fork_point
    then stop (some held_at_tip)
    else (do why ← delete_proven_blocks w doomed; stop why)

unfoldable pub finish_halted_walk : World → Option ℕ → ℕ → Run (Unit {0})
finish_halted_walk w node_tip prior_depth = do
  stop none
  s ← get_state
  read ← read_halted_walk w node_tip (2 * safe_depth_for w) (prior_depth + length s.blocks_deleted)
  finish_read w node_tip read
