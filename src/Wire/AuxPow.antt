-- ===== src/Wire/AuxPow.antt =====
-- src/chain/blockchain_connector/auxpow_codec.js: `skipAuxPow`, `assertWholeBlock` and
-- `stripAuxPowFromBlockHex`. The `for` loops are `skip_times`, which recurs on the rounds left, so no
-- fuel is needed. Offsets are exact here; the source rounds them past 2^53, where either one lies
-- beyond every buffer and the next read throws.
pub mod Layout
pub mod Exact
pub mod Bounds
pub mod Strip
use xchain_decoder.Prelude.{
  ℕ, ◌+◌, ◌*◌, Bool, true, false, Option, none, some, Result, ok, err, ◌>>=◌, ◌==◌, if◌then◌else◌,
  get_elem?,
}
use xchain_decoder.Wire.Bytes.{
  Bytes, WireError, What, coinbase_version, coinbase_prevout, coinbase_sequence, coinbase_value,
  coinbase_locktime, parent_hash, coinbase_branch, chain_branch, parent_header,
}
use xchain_decoder.Wire.Varint.{read_varint}
use xchain_decoder.Wire.Skip.{Step, skip_bytes, skip_var_bytes, skip_times}

-- `buf[offset] === 0x00`; past the end `undefined` is not zero.
abbrev pub is_zero : Option ℕ → Bool
is_zero none = false
is_zero (some b) = b == 0

skip_coinbase_input : Step
skip_coinbase_input buf offset = do
  prevout ← skip_bytes 36 coinbase_prevout buf offset
  script ← skip_var_bytes buf prevout
  skip_bytes 4 coinbase_sequence buf script

skip_coinbase_output : Step
skip_coinbase_output buf offset = do
  value ← skip_bytes 8 coinbase_value buf offset
  skip_var_bytes buf value

skip_witness_stack : Step
skip_witness_stack buf offset = do
  (items, bytes) ← read_varint buf offset
  skip_times items skip_var_bytes buf (offset + bytes)

-- Outputs, witness data and lock time, behind `ins` inputs.
skip_coinbase_rest : Bool → ℕ → Step
skip_coinbase_rest segwit ins buf offset = do
  (outs, outs_bytes) ← read_varint buf offset
  outs_end ← skip_times outs skip_coinbase_output buf (offset + outs_bytes)
  witness_end ← (if segwit then skip_times ins skip_witness_stack buf outs_end else ok outs_end)
  skip_bytes 4 coinbase_locktime buf witness_end

-- The coinbase behind its version and marker.
skip_coinbase_body : Bool → Step
unfolding skip_coinbase_rest
skip_coinbase_body segwit buf offset = do
  (ins, ins_bytes) ← read_varint buf offset
  ins_end ← skip_times ins skip_coinbase_input buf (offset + ins_bytes)
  skip_coinbase_rest segwit ins buf ins_end

skip_coinbase_transaction : Step
skip_coinbase_transaction buf start = do
  offset ← skip_bytes 4 coinbase_version buf start
  let segwit = is_zero (get_elem? buf offset)
  skip_coinbase_body segwit buf (if segwit then offset + 2 else offset)

-- A merkle branch: its length, 32 bytes for each hash, and a 4-byte index.
skip_branch : What → Step
skip_branch what buf offset = do
  (count, bytes) ← read_varint buf offset
  skip_bytes (count * 32 + 4) what buf (offset + bytes)

unfoldable pub skip_aux_pow : Step
unfolding skip_coinbase_transaction skip_coinbase_body skip_coinbase_input skip_coinbase_output
    skip_witness_stack skip_branch
skip_aux_pow buf start = do
  coinbase ← skip_coinbase_transaction buf start
  hash ← skip_bytes 32 parent_hash buf coinbase
  links ← skip_branch coinbase_branch buf hash
  chain ← skip_branch chain_branch buf links
  skip_bytes 80 parent_header buf chain
