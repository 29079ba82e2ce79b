-- ===== src/Reorg.antt =====
-- src/XChainDecoder/reorg_verification.js and its folder: the rollback of stored blocks that the node
-- reorged away. This file has the tables, the answers of the node and of the database, the state of the
-- decoder and the effects that the code runs in.
--
-- The decoder awaits one answer after another: the answer at clock `t` is what the `World` says for `t`, any
-- function of it, so no two answers need agree. Log lines and sleeps change nothing and are left out.
pub mod Store
pub mod Halt
pub mod ReorgedAway
pub mod Depth
pub mod Tip
pub mod HaltedWalk
pub mod Walk
pub mod Triple
pub mod Quiet
pub mod Order
pub mod Rollback
pub mod Evidence
pub mod Deletes
pub mod Rounds
pub mod Classify
pub mod HaltedRead
pub mod HaltedDelete
pub mod HaltedFinish
pub mod Verified
pub mod Safety
pub mod Outcomes
pub mod Steady
pub mod Completes
pub mod Marks
pub mod Restart
pub mod Settled
use xchain_decoder.Prelude.{ℕ, suc, Bool, Option, none, some, List, Result, err, ok}
use xchain_decoder.Prelude.Integers.{ℤ}
use xchain_decoder.Prelude.Text.{Text}

-- A row of `blocks` with its hash, `none` for a null one.
pub record Block : Type 0 where
  pub block_index : ℕ
  pub block_hash : Option Text

-- The rows of `events` that the code reads. A REORG row holds the heights of its payload, `none` if they
-- cannot be read; a REORG_HALT_CLEARED row holds the reason of its payload, `none` if there is no string.
pub data Event : Type 0 where
  reorg : Option (List ℕ) → Event
  reorg_halt : Event
  reorg_halt_cleared : Option Text → Event

-- What `getBlockHash` answers: it throws, or gives null, another value that is no string, or a string.
pub data Reading : Type 0 where
  unread : Reading
  null_hash : Reading
  no_string : Reading
  hash : Text → Reading

-- What `getBlockHeader` answers: it throws not-found (-5) or another error, or gives something that is no
-- object, or a header with its confirmations, `none` if they are no integer.
pub data Header : Type 0 where
  not_found : Header
  failed : Header
  unusable : Header
  header : Option ℤ → Header

-- The fields of `getblockchaininfo` that are read: the numbers are `none` where they are no numbers, and
-- `verificationprogress` is in millionths.
pub record Info : Type 0 where
  pub blocks : Option ℕ
  pub verification_progress : Option ℕ
  pub initial_block_download : Bool
  pub chain : Option Text

-- What `insertEvent` answers.
pub data Written : Type 0 where
  written : Written
  duplicated : Written
  not_written : Written

-- The answers at each clock, `none` for a call that throws, and the configuration.
pub record World : Type 0 where
  pub now : ℕ → ℕ
  pub read_fails : ℕ → Bool
  pub write_fails : ℕ → Bool
  pub insert_event : ℕ → Written
  pub get_block_hash : ℕ → ℕ → Reading
  pub get_block_header : ℕ → Option Text → Header
  pub get_blockchain_info : ℕ → Option (Option Info)
  pub start_block_index : ℕ
  pub dispenser_expire_safe_depth : ℕ
  pub consensus_network : Text
  pub chain_genesis_hash : Option Text

-- Why the node does not prove that a block was reorged away.
pub data Why : Type 0 where
  unknown_block : Why
  on_active_chain : Why
  unread_header : Why

pub data Proof : Type 0 where
  proven : Proof
  unproven : Why → Proof

-- `forkProofCache`
pub record Cached : Type 0 where
  pub tip : Option ℕ
  pub block_hash : Option Text
  pub at : ℕ
  pub result : Why

-- Why a rollback is halted, and why a halted one stops above the fork point.
pub data HaltReason : Type 0 where
  depth_exceeded : HaltReason
  deep_gap : HaltReason
  delete_failed : HaltReason

pub data HaltStop : Type 0 where
  stored_tip_unread : HaltStop
  stored_block_unread : ℕ → HaltStop
  node_hash_unread : ℕ → HaltStop
  readings_disagree : ℕ → HaltStop
  no_fork_point : HaltStop
  held_at_tip : HaltStop
  not_proven : ℕ → HaltStop
  not_deleted : ℕ → HaltStop

pub data RefusalClass : Type 0 where
  unproven_fork : RefusalClass
  same_chain : RefusalClass
  unread_node : RefusalClass
  node_behind : RefusalClass

-- What the code throws; `still_running` is a walk whose fuel ran out.
pub data Thrown : Type 0 where
  halted_before : Thrown
  depth_unread : Thrown
  halt : HaltReason → Thrown
  wait : RefusalClass → Block → Thrown
  delete_aborted : Thrown
  fault : Thrown
  still_running : Thrown

-- The decoder's fields, its tables, the clock, and `blocksDeleted` and `walk` of the run.
pub record Decoder : Type 0 where
  pub blocks : List Block
  pub events : List Event
  pub clock : ℕ
  pub fork_proof_cache : Option Cached
  pub reorg_halted : Bool
  pub reorg_halt_reason : Option HaltReason
  pub reorg_halt_at : ℕ
  pub reorg_halt_checked_at : ℕ
  pub reorg_halt_marker_persisted : Bool
  pub chain_genesis_checked_at : ℕ
  pub reorg_count : ℕ
  pub last_reorg_depth : ℕ
  pub blocks_deleted : List Block
  pub halt_error : Option HaltReason
  pub halt_stop : Option HaltStop

-- Code that awaits answers: what it returns or throws, and the state it leaves.
abbrev pub Run : Type 0 → Type 0
Run Value = Decoder → Result Thrown Value × Decoder

module _ {A : Type 0} where
  unfoldable pub return : A → Run A
  return a s = (ok a, s)

  unfoldable pub throw : Thrown → Run A
  throw e s = (err e, s)

  -- One awaited answer.
  unfoldable pub ask : (ℕ → A) → Run A
  ask answer s = (ok (answer s.clock), record s { clock = suc s.clock })

  abbrev pub settle_result : Result Thrown A × Decoder → Result Thrown (Option A) × Decoder
  settle_result (err e, s) = (ok none, s)
  settle_result (ok a, s) = (ok (some a), s)

  -- `try { … } catch { … }`: what was thrown is forgotten, and the state is kept.
  unfoldable pub attempt : Run A → Run (Option A)
  attempt m s = settle_result (m s)

unfoldable pub get_state : Run Decoder
get_state s = (ok s, s)

unfoldable pub modify : (Decoder → Decoder) → Run (Unit {0})
modify f s = (ok tt, f s)

module _ {A B : Type 0} where
  abbrev pub follow : Result Thrown A × Decoder → (A → Run B) → Result Thrown B × Decoder
  follow (err e, s) f = (err e, s)
  follow (ok a, s) f = f a s

  infixl 4 ◌>>=◌
  unfoldable pub ◌>>=◌ : Run A → (A → Run B) → Run B
  (m >>= f) s = follow (m s) f

module _ {B : Type 0} where
  infixl 4 ◌>>◌
  abbrev pub ◌>>◌ : Run (Unit {0}) → Run B → Run B
  first >> second = first >>= λ done. second
