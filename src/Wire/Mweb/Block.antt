-- ===== src/Wire/Mweb/Block.antt =====
-- `readMwebTransactions`, `assertBlockBodyIntact` and the "mweb" case of `blockFromBuffer` in
-- src/chain/XChainBlockDecoder.js, as far as they read and check the transactions.
pub mod Body
use xchain_decoder.Prelude.{
  ℕ, zero, suc, ◌+◌, ◌*◌, Bool, true, false, not, ◌&&◌, ◌||◌, Option, none, some, List, [], ◌∷◌,
  Result, ok, err, ◌>>=◌, ◌>>◌, ltb, ◌==◌, if◌then◌else◌, length, take, drop,
}
use xchain_decoder.Prelude.Text.{text_eq}
use xchain_decoder.Prelude.Integers.{ℤ}
use xchain_decoder.Wire.Bytes.{Bytes, WireError}
use xchain_decoder.Wire.Mweb.{has_mweb_flag, read_mweb_flagged_transaction}

-- What the code takes from bitcoinjs-lib: `Transaction.fromBuffer`, without and with leave for bytes
-- behind the transaction, the fields of a transaction without inputs, `byteLength()`, the varint reader
-- with the offset behind, and the merkle root.
pub record TxCodec : Type 1 where
  pub Tx : Type 0
  pub from_buffer : Bytes → Result WireError Tx
  pub from_prefix : Bytes → Option Tx
  pub build : ℤ → List (ℕ × Bytes) → ℕ → Tx
  pub byte_length : Tx → ℕ
  pub read_var_int : Bytes → ℕ → Result WireError (ℕ × ℕ)
  pub merkle_root : List Tx → Bytes

pub data BlockError : Type 0 where
  wire : WireError → BlockError
  too_small no_parse no_transactions root_mismatch : BlockError
  invalid_count : ℕ → BlockError
  -- the buffer's length and where its last transaction ends
  bytes_behind : ℕ → ℕ → BlockError

abbrev lift {ℓ} : {A : Type ℓ} → Result WireError A → Result BlockError A
lift (err e) = err (wire e)
lift (ok a) = ok a

abbrev parsed {ℓ} : {A : Type ℓ} → Option A → Result BlockError A
parsed none = err no_parse
parsed (some a) = ok a

abbrev demand : Bool → BlockError → Result BlockError (Unit {0})
demand false thrown = err thrown
demand true thrown = ok tt

abbrev pub has_some {ℓ} : {A : Type ℓ} → List A → Bool
has_some [] = false
has_some (x ∷ xs) = true

module _ (codec : TxCodec) where
  open codec use {Tx, from_buffer, from_prefix, build, byte_length, read_var_int, merkle_root}

  -- The transactions, the offset behind them, and whether the last is the HogEx. Only the last one is
  -- tested for the flag.
  unfoldable pub read_transactions : ℕ → Bytes → ℕ → Result BlockError (List Tx × ℕ × Bool)
  read_transactions zero buf offset = ok ([], offset, false)
  read_transactions (suc n) buf offset =
      let hogex = (do
        (tx, consumed) ← lift (read_mweb_flagged_transaction from_buffer build buf offset false)
        ok (tx ∷ [], offset + consumed, true)) in
      let standard = (do
        tx ← parsed (from_prefix (drop offset buf))
        (txs, end, hogex_last) ← read_transactions n buf (offset + byte_length tx)
        ok (tx ∷ txs, end, hogex_last)) in
      if n == 0 && has_mweb_flag buf offset then hogex else standard

  -- `nTransactions > remainingBytes / 10`
  unfoldable pub read_mweb_transactions : Bytes → ℕ → Result BlockError (List Tx × ℕ × Bool)
  read_mweb_transactions buf offset = do
    (count, start) ← lift (read_var_int buf offset)
    demand (not (ltb (length buf) (start + count * 10))) (invalid_count count)
    read_transactions count buf start

  unfoldable pub assert_block_body_intact :
      List Tx → Bytes → ℕ → ℕ → Bool → Result BlockError (Unit {0})
  assert_block_body_intact txs root buffer_length body_end extension_follows = do
    demand (has_some txs) no_transactions
    demand (body_end == buffer_length || extension_follows) (bytes_behind buffer_length body_end)
    demand (text_eq (merkle_root txs) root) root_mismatch

  -- The header is 80 bytes, with the merkle root from the 36th on.
  unfoldable pub mweb_block_from_buffer : Bytes → Result BlockError (List Tx)
  mweb_block_from_buffer buf =
      let body = (do
        (txs, end, extension_follows) ← read_mweb_transactions buf 80
        assert_block_body_intact txs (take 32 (drop 36 buf)) (length buf) end extension_follows
        ok txs) in
      if ltb (length buf) 80 then err too_small else if length buf == 80 then ok [] else body
