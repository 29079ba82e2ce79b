-- ===== src/Reorg/Tip.antt =====
-- The node's tip, read again in the middle of a rollback: `readReorgTip` and `refreshReorgTip` of
-- src/XChainDecoder/reorg_verification.js, with `verifyChainGenesis` and `settleNodeReading` of
-- src/XChainDecoder/chain_integrity.js.
use xchain_decoder.Prelude.{
  ℕ, ◌==◌, zero, suc, Bool, true, false, not, ◌&&◌, ◌||◌, Option, none, some, ◌==◌, ltb, leb,
  if◌then◌else◌,
}
use xchain_decoder.Prelude.Text.{Text}
use xchain_decoder.Reorg.{Info, World, Run, return, ask, modify, ◌>>=◌, ◌>>◌}
use xchain_decoder.Chain.{chain_tier_mismatch, chain_genesis_mismatch, chain_genesis_unpinned}
use xchain_decoder.Reorg.Depth.{is_set, text_of, nonempty_text}

unfoldable pub node_still_catching_up : Info → Bool
node_still_catching_up info = info.initial_block_download

abbrev pub min_verification_progress_to_parse : ℕ
min_verification_progress_to_parse = 990000

abbrev pub number_or_zero : Option ℕ → ℕ
number_or_zero none = 0
number_or_zero (some n) = n

unfoldable pub node_tip_still_catching_up : Info → Bool
unfolding node_still_catching_up
node_tip_still_catching_up info =
    node_still_catching_up info
    || ltb (number_or_zero info.verification_progress) min_verification_progress_to_parse

unfoldable pub blockchain_info_well_formed : Info → Bool
blockchain_info_well_formed info = is_set info.blocks && is_set info.verification_progress

abbrev pub compare_genesis : World → Text → Run (Option Text)
compare_genesis w reported =
    let mismatch = chain_genesis_mismatch w.chain_genesis_hash (some reported) in
    elim mismatch [
      | some why ↦ return (some why)
      | none ↦ (do
        modify (λ s. record s { chain_genesis_checked_at = w.now s.clock; clock = suc s.clock })
        return none)
    ]

unfoldable pub verify_chain_genesis : World → Run (Option Text)
verify_chain_genesis w = if chain_genesis_unpinned w.chain_genesis_hash then return none else (do
  answer ← ask (λ t. w.get_block_hash t 0)
  elim (nonempty_text (text_of answer)) [
    | none ↦ return none
    | some reported ↦ compare_genesis w reported
  ])

-- The gates of `readReorgTip` before the genesis.
unfoldable pub is_foreign_or_malformed : World → Info → Bool
unfolding blockchain_info_well_formed
is_foreign_or_malformed w info =
    not (blockchain_info_well_formed info)
    || is_set (chain_tier_mismatch w.consensus_network info.chain)

abbrev pub past_genesis : World → Option ℕ → Info → Run (Option ℕ)
past_genesis w node_tip info = do
  mismatch ← verify_chain_genesis w
  if is_set mismatch || node_tip_still_catching_up info then return node_tip else return info.blocks

abbrev pub gated : World → Option ℕ → Option (Option Info) → Run (Option ℕ)
gated w node_tip (some (some info)) =
    if is_foreign_or_malformed w info then return node_tip else past_genesis w node_tip info
gated w node_tip _ = return node_tip

unfoldable pub read_reorg_tip : World → Option ℕ → Run (Option ℕ)
read_reorg_tip w node_tip = do answer ← ask w.get_blockchain_info; gated w node_tip answer

abbrev pub tip_settle_max_reads : ℕ
tip_settle_max_reads = 5

-- Two readings in a row that agree, within `reads` more of them.
unfoldable pub settle_node_reading :
    {A : Type 0} → (A → A → Bool) → Run (Option A) → ℕ → A → Run (Option A)
settle_node_reading same read_once zero previous = return none
settle_node_reading same read_once (suc reads) previous = do
  next ← read_once
  elim next [
    | none ↦ return none
    | some n ↦ elim (same n previous) [
      | true ↦ return (some n)
      | false ↦ settle_node_reading same read_once reads n
    ]
  ]

abbrev pub is_taken_at_once : Option ℕ → Option ℕ → Bool
is_taken_at_once none node_tip = true
is_taken_at_once (some tip) none = false
is_taken_at_once (some tip) (some node_tip) = leb node_tip tip

abbrev pub or_kept : Option ℕ → Option ℕ → Option ℕ
or_kept none node_tip = node_tip
or_kept (some settled) node_tip = some settled

abbrev pub settle_tip : World → Option ℕ → ℕ → Run (Option ℕ)
settle_tip w node_tip tip = do
  settled ← settle_node_reading ◌==◌ (read_reorg_tip w node_tip) tip_settle_max_reads tip
  return (or_kept settled node_tip)

-- A higher tip is taken at once, a lower one only once it is settled.
unfoldable pub refresh_reorg_tip : World → Option ℕ → Run (Option ℕ)
refresh_reorg_tip w node_tip = do
  tip ← read_reorg_tip w node_tip
  if is_taken_at_once tip node_tip then return tip else settle_tip w node_tip (number_or_zero tip)
