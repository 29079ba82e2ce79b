-- ===== src/Reorg/Depth.antt =====
-- src/XChainDecoder/reorg_verification/reorg_depth.js: the ceiling on the depth of a rollback, the halt that
-- it raises, and the proofs that are asked for before a delete.
use xchain_decoder.Prelude.{
  ℕ, zero, suc, ◌+◌, ◌-◌, Bool, true, false, Option, none, some, [], ◌∷◌, ◌==◌, leb, length,
  if◌then◌else◌,
}
use xchain_decoder.Prelude.Text.{Text, text_eq}
use xchain_decoder.Reorg.{
  Block, Reading, hash, World, Why, unknown_block, on_active_chain, unread_header, proven, unproven,
  HaltReason, depth_exceeded, deep_gap, RefusalClass, unproven_fork, same_chain, unread_node,
  node_behind, halted_before, depth_unread, halt, wait, Run, return, throw, ask, attempt, get_state,
  modify, ◌>>=◌, ◌>>◌,
}
use xchain_decoder.Reorg.Store.{count_reorg_deletes_above_tip, get_block_by_index}
use xchain_decoder.Reorg.Halt.{halt_reorg}
use xchain_decoder.Reorg.ReorgedAway.{prove_fork_reorged_away}

abbrev pub default_safe_depth : ℕ
default_safe_depth = 126

-- `||` passes over a 0.
unfoldable pub safe_depth_for : World → ℕ
safe_depth_for w =
    if w.dispenser_expire_safe_depth == 0 then default_safe_depth else w.dispenser_expire_safe_depth

unfoldable pub refuse_halted_rollback : World → Run (Unit {0})
refuse_halted_rollback w = do
  modify (λ s. record s {
    reorg_halted = true;
    reorg_halt_checked_at = w.now s.clock;
    clock = suc s.clock;
  })
  throw halted_before

abbrev pub retry_count : World → ℕ → Run ℕ
retry_count w zero = throw depth_unread
retry_count w (suc attempts) = do
  depth ← attempt (count_reorg_deletes_above_tip w)
  elim depth [ some n ↦ return n | none ↦ retry_count w attempts ]

-- Three attempts.
unfoldable pub read_prior_rollback_depth : World → Run ℕ
read_prior_rollback_depth w = retry_count w 3

-- With the marker confirmed the walk goes on as a halted one.
unfoldable pub raise_safe_depth_halt : World → HaltReason → Run (Unit {0})
raise_safe_depth_halt w reason = do
  halt_reorg w reason
  s ← get_state
  if s.reorg_halt_marker_persisted
      then modify (λ u. record u { halt_error = some reason })
      else throw (halt reason)

abbrev pub is_set : {A : Type 0} → Option A → Bool
is_set none = false
is_set (some a) = true

unfoldable pub assert_within_safe_depth : World → ℕ → Run (Unit {0})
assert_within_safe_depth w prior_depth = do
  s ← get_state
  if is_set s.halt_error
      then return tt
      else (if leb (safe_depth_for w) (prior_depth + length s.blocks_deleted)
          then raise_safe_depth_halt w depth_exceeded
          else return tt)

unfoldable pub refusal_class : Why → RefusalClass
refusal_class unknown_block = unproven_fork
refusal_class on_active_chain = same_chain
refusal_class unread_header = unread_node

unfoldable pub require_reorg_proof : World → Block → Option ℕ → Run (Unit {0})
unfolding refusal_class
require_reorg_proof w block node_tip = do
  proof ← prove_fork_reorged_away w block node_tip
  elim proof [ proven ↦ return tt | unproven why ↦ throw (wait (refusal_class why) block) ]

-- A string that is not empty.
abbrev pub nonempty_text : Option Text → Option Text
nonempty_text none = none
nonempty_text (some []) = none
nonempty_text (some (c ∷ cs)) = some (c ∷ cs)

abbrev pub text_of : Reading → Option Text
text_of (hash t) = some t
text_of _ = none

abbrev pub boundary_hash : Option (Option Block) → Option Text
boundary_hash (some (some b)) = nonempty_text b.block_hash
boundary_hash _ = none

abbrev pub or_wait : Block → Option Text → Run Text
or_wait block none = throw (wait unread_node block)
or_wait block (some t) = return t

-- The stored block at the node's tip must be another one than the node's, and proven gone.
unfoldable pub require_above_tip_fork_proof : World → Block → ℕ → Run (Unit {0})
require_above_tip_fork_proof w block node_tip = do
  boundary ← attempt (get_block_by_index w (some node_tip))
  stored ← or_wait block (boundary_hash boundary)
  answer ← ask (λ t. w.get_block_hash t node_tip)
  node_hash ← or_wait block (nonempty_text (text_of answer))
  if text_eq stored node_hash
      then throw (wait node_behind block)
      else require_reorg_proof w (record { block_index = node_tip; block_hash = some stored })
          (some node_tip)

-- Called for a block above the node's tip.
unfoldable pub refuse_or_halt_deep_gap : World → Block → ℕ → ℕ → Run (Unit {0})
refuse_or_halt_deep_gap w block node_tip prior_depth = do
  require_above_tip_fork_proof w block node_tip
  s ← get_state
  if leb (prior_depth + length s.blocks_deleted + (block.block_index - node_tip) + 1)
        (safe_depth_for w)
      then return tt
      else raise_safe_depth_halt w deep_gap
