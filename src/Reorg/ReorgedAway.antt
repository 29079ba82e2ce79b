-- ===== src/Reorg/ReorgedAway.antt =====
-- src/XChainDecoder/reorg_verification/reorged_away_proof.js: the node's proof that a stored block left its
-- active chain.
use xchain_decoder.Prelude.{
  ℕ, zero, suc, ◌-◌, Bool, true, false, ◌&&◌, Option, none, some, ◌==◌, ltb, leb, if◌then◌else◌,
}
use xchain_decoder.Prelude.Text.{Text, text_eq}
use xchain_decoder.Prelude.Integers.{pos, negsuc}
use xchain_decoder.Reorg.{
  Block, Header, not_found, failed, unusable, header, World, Why, unknown_block, on_active_chain,
  unread_header, Proof, proven, unproven, Cached, Run, return, ask, get_state, modify, ◌>>=◌, ◌>>◌,
}

-- Only confirmations -1 prove anything; 0 and more are on the active chain.
unfoldable pub judge : Header → Proof
judge not_found = unproven unknown_block
judge failed = unproven unread_header
judge unusable = unproven unread_header
judge (header none) = unproven unread_header
judge (header (some (pos confirmations))) = unproven on_active_chain
judge (header (some (negsuc zero))) = proven
judge (header (some (negsuc (suc n)))) = unproven unread_header

unfoldable pub prove_reorged_away : World → Block → Run Proof
unfolding judge
prove_reorged_away w block = do
  answer ← ask (λ t. w.get_block_header t block.block_hash)
  return (judge answer)

abbrev pub unproven_recheck_ms : ℕ
unproven_recheck_ms = 60000

abbrev same_tip : Option ℕ → Option ℕ → Bool
same_tip none none = true
same_tip (some a) (some b) = a == b
same_tip _ _ = false

abbrev pub same_hash : Option Text → Option Text → Bool
same_hash none none = true
same_hash (some a) (some b) = text_eq a b
same_hash _ _ = false

-- A cached refusal for the same block and tip, less than a minute old.
unfoldable pub cached_refusal : Option Cached → Block → Option ℕ → ℕ → Option Why
cached_refusal none block node_tip now = none
cached_refusal (some cached) block node_tip now =
    if same_tip cached.tip node_tip
      && same_hash cached.block_hash block.block_hash
      && leb cached.at now
      && ltb (now - cached.at) unproven_recheck_ms
    then some cached.result
    else none

abbrev pub cache : Block → Option ℕ → ℕ → Proof → Option Cached
cache block node_tip now proven = none
cache block node_tip now (unproven why) =
    some (record { tip = node_tip; block_hash = block.block_hash; at = now; result = why })

abbrev pub ask_again : World → Block → Option ℕ → ℕ → Run Proof
ask_again w block node_tip now = do
  result ← prove_reorged_away w block
  modify (λ s. record s { fork_proof_cache = cache block node_tip now result })
  return result

-- A refusal is cached, a proof never is.
unfoldable pub prove_fork_reorged_away : World → Block → Option ℕ → Run Proof
prove_fork_reorged_away w block node_tip = do
  now ← ask w.now
  s ← get_state
  elim (cached_refusal s.fork_proof_cache block node_tip now) [
    | some why ↦ return (unproven why)
    | none ↦ ask_again w block node_tip now
  ]
