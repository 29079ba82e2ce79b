-- ===== src/Lib.antt =====
-- A verification library of the XChain decoder: the parts of src/ that decide, from a block's bytes and
-- an action string, what the decoder stores.
--
-- The program reads blocks from a coin node, cuts merge-mining data out of them
-- (src/chain/blockchain_connector/auxpow_codec.js) or reads Litecoin's flagged transactions
-- (src/chain/XChainBlockDecoder.js), finds action strings in transactions, and stores transactions,
-- dispensers and the outputs that pay them. Which commands of an action string count is decided under
-- src/protocol/: a BATCH is split into commands, names are expanded, and a batch that the indexer
-- would reject is dropped. Dispenser creates of one transaction are collapsed to one registration for
-- each address. Every rule has a gate, an instant for each network, read at protocol time.
--
-- Files:
--   Prelude: tests, lists, results, texts as UTF-16 code units, insertion-ordered maps, integers.
--   Wire: `Buffer`s and little-endian readers (Bytes), varints (Varint), walking a buffer (Skip),
--     `skipAuxPow` and `stripAuxPowFromBlockHex` (AuxPow), `readMwebFlaggedTransaction` (Mweb) and
--     Litecoin's block body (Mweb/Block). Each reader has a layout, a
--     record with its serialization.
--   Activation: the gates of src/protocol/constants/activation.js and the test that each of them makes.
--   Batch: `batchSubCommands` (Split), alias expansion (Names), keys and ticks (Keys),
--     `hasProvablyRejectedBatch` (Reject), `captureCommands` (Capture), with the tables of
--     src/protocol/indexer_batch_limits.js and src/protocol/action_aliases.js (Limits).
--   Clock: src/protocol/protocol_time.js.
--   Dispenser: src/protocol/dispenser_registration_collapse.js and its callers in
--     src/protocol/batch_sub_command_capture.js (Collapse), src/protocol/dispenser_cancel_grace.js (Grace),
--     src/protocol/oracle_fee_output.js and the resolution of oracle addresses in
--     src/XChainDecoder/dispenser_and_oracle_fees.js (Oracle),
--     src/XChainDecoder/dispenser_wide_expiration.js (Expiration).
--   Chain: src/protocol/chain_identity.js.
--   Reorg: the rollback of src/XChainDecoder/reorg_verification.js and its folder, with
--     src/XChainDecoder/reorg_halt.js (Halt) and the tables behind it, src/db/blocks.js and
--     src/db/reorg_halt.js (Store). The node's proof that a block is gone (ReorgedAway), the ceiling on the
--     depth (Depth), the node's tip (Tip), the walk (Walk) and its end once halted (HaltedWalk) are the code;
--     the proofs are Hoare triples (Triple) over the changes that touch no block (Quiet) and the invariant of
--     a rollback (Rollback), along the walk (Evidence, Deletes, Rounds, Classify, HaltedRead, HaltedDelete,
--     HaltedFinish, Verified, Safety) to what callers get (Outcomes), with a walk that comes to its end (Steady,
--     Completes), a restart (Marks, Restart) and a lower tip (Settled and its Genesis).
--   Sync: of src/XChainDecoder/sync_loop.js the check of the stored tip, its call of the rollback (Swap), and
--     how a failed rollback is answered (Errors).
--   Sql: the scanner of src/db/migration_statements.js, with the quotes and comments of its text as a
--     relation (Grammar), the strip of line comments (Strip, Exact) and the statements (Split).
--   Tests: runs at concrete inputs.
--
-- Functions keep the source's names in snake case. A thrown error is `err`, `null` and `undefined` are
-- `none`. JavaScript numbers are natural numbers; rounding to doubles is written out where a value can
-- pass 2^53 (`to_number`), and a difference that can be negative is an integer. Loops are structural
-- recursion on the list or on the rounds left. Only the walk of a rollback, which retries for as long as the
-- node or the database fails, runs on fuel, one unit for each round.
--
-- Parameters: bitcoinjs-lib (`BlockCodec`, `TxCodec`, `from_buffer`, `build`), the table of addresses
-- (`address_id_of`), the rows of open dispensers (`OpenDispensers`), and the answers that a rollback awaits
-- (`World`, `Outside`): any function of a clock that counts them. A delete that throws has rolled its transaction back.
--
-- Not modelled: the database, RPC, HTTP, timers, the mempool, the run of migrations, the rows of a block other than its own, carrier
-- recognition and decryption, and vendored code.
pub mod Activation
pub mod Batch
pub mod Chain
pub mod Clock
pub mod Dispenser
pub mod Prelude
pub mod Reorg
pub mod Sql
pub mod Sync
pub mod Tests
pub mod Wire
