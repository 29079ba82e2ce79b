-- ===== src/Wire.antt =====
-- The byte-level readers of src/chain: varints, the AuxPoW section, Litecoin's flagged
-- transactions.
pub mod Bytes
pub mod Varint
pub mod Skip
pub mod AuxPow
pub mod Mweb
