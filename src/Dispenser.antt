-- ===== src/Dispenser.antt =====
-- The dispenser view that decides which payments are captured: src/protocol/ and
-- src/XChainDecoder/dispenser_and_oracle_fees.js.
pub mod Collapse
pub mod Grace
pub mod Oracle
pub mod Expiration
