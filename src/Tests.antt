-- ===== src/Tests.antt =====
-- Runs at concrete inputs: for every theorem with hypotheses one that satisfies them.
pub mod Reorg
pub mod Sync
pub mod Sql
pub mod Wire
pub mod Batch
pub mod Dispenser
pub mod Clock
pub mod Fees
