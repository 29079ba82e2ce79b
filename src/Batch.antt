-- ===== src/Batch.antt =====
-- Payment-output capture through a BATCH: src/protocol/batch_sub_command_capture.js and the files
-- below src/protocol/batch_sub_command_capture. Strings are lists of UTF-16 code units; the argument
-- `decodedData` is a string wherever the code runs.
pub mod Limits
pub mod Split
pub mod Names
pub mod Keys
pub mod Reject
pub mod Capture
