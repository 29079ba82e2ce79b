-- ===== src/Wire/Mweb.antt =====
-- The reader of Litecoin's MWEB-flagged transactions in src/chain/XChainBlockDecoder.js. The
-- transaction that bitcoinjs makes is a parameter: `from_buffer` for `Transaction.fromBuffer`, `build` for
-- the fields that `buildInputlessTransaction` assigns.
pub mod Layout
pub mod Pieces
pub mod Exact
pub mod Block
use xchain_decoder.Prelude.{
  ℕ, zero, suc, ◌+◌, ◌-◌, ◌%◌, ◌≤◌, Bool, true, false, ◌&&◌, ◌||◌, Option, none, some, List, [],
  ◌∷◌, ◌++◌, Result, ok, err, ◌>>=◌, ◌==◌, ltb, leb, if◌then◌else◌, get_elem?, length, take, drop,
}
use xchain_decoder.Prelude.Integers.{ℤ, pos, negsuc}
use xchain_decoder.Wire.Bytes.{
  Bytes, WireError, What, too_short, unsafe_integer, inner_mweb_part, input_count, input_prevout,
  input_script, input_sequence, output_count, output_value, output_script, witness_count,
  witness_item, mweb_tag, locktime, read_uint_le,
}
use xchain_decoder.Wire.Skip.{Step, skip_bytes, skip_times}
use xchain_decoder.Wire.AuxPow.{is_zero}

-- `count > buf.length - offset`, a difference that is negative for an offset past the end.
abbrev pub skip_mweb_bytes : ℕ → What → Step
skip_mweb_bytes = skip_bytes

-- The width behind the first byte of a CompactSize.
abbrev pub width_of : ℕ → ℕ
width_of first = if first == 0xFD then 2 else if first == 0xFE then 4 else 8

read_wide : ℕ → What → Bytes → ℕ → Result WireError (ℕ × ℕ)
read_wide first what buf offset = do
  end ← skip_mweb_bytes (width_of first) what buf (offset + 1)
  value ← read_uint_le (width_of first) buf (offset + 1)
  if ltb 0x1fffffffffffff value then err (unsafe_integer what) else ok (value, end)

read_first : Option ℕ → What → Bytes → ℕ → Result WireError (ℕ × ℕ)
read_first none what buf offset = err (too_short what)
read_first (some first) what buf offset =
    let wide = read_wide first what buf offset in
    if ltb first 0xFD then ok (first, offset + 1) else wide

-- The value, and the offset behind it.
unfoldable pub read_mweb_compact_size : What → Bytes → ℕ → Result WireError (ℕ × ℕ)
unfolding read_first read_wide
read_mweb_compact_size what buf offset = read_first (get_elem? buf offset) what buf offset

unfoldable pub skip_mweb_var_bytes : What → Step
skip_mweb_var_bytes what buf offset = do
  (count, end) ← read_mweb_compact_size what buf offset
  skip_mweb_bytes count what buf end

unfoldable pub skip_mweb_input : Step
skip_mweb_input buf offset = do
  prevout ← skip_mweb_bytes 36 input_prevout buf offset
  script ← skip_mweb_var_bytes input_script buf prevout
  skip_mweb_bytes 4 input_sequence buf script

unfoldable pub skip_mweb_output : Step
skip_mweb_output buf offset = do
  value ← skip_mweb_bytes 8 output_value buf offset
  skip_mweb_var_bytes output_script buf value

unfoldable pub skip_mweb_ins : Bytes → ℕ → Result WireError (ℕ × ℕ)
skip_mweb_ins buf offset = do
  (ins, ins_at) ← read_mweb_compact_size input_count buf offset
  outs_start ← skip_times ins skip_mweb_input buf ins_at
  ok (ins, outs_start)

unfoldable pub skip_mweb_outs : Step
skip_mweb_outs buf offset = do
  (outs, outs_at) ← read_mweb_compact_size output_count buf offset
  skip_times outs skip_mweb_output buf outs_at

-- Where vin and vout end, where vout starts, and the number of inputs.
unfoldable pub skip_mweb_ins_and_outs : Bytes → ℕ → Result WireError (ℕ × ℕ × ℕ)
skip_mweb_ins_and_outs buf offset = do
  (ins, outs_start) ← skip_mweb_ins buf offset
  end ← skip_mweb_outs buf outs_start
  ok (end, outs_start, ins)

unfoldable pub skip_mweb_stack : Step
skip_mweb_stack buf offset = do
  (items, end) ← read_mweb_compact_size witness_count buf offset
  skip_times items (skip_mweb_var_bytes witness_item) buf end

unfoldable pub skip_mweb_witness : ℕ → Step
skip_mweb_witness ins = skip_times ins skip_mweb_stack

abbrev pub equals : ℕ → Option ℕ → Bool
equals n none = false
equals n (some b) = b == n

abbrev pub either_version : Result WireError ℕ → Bool
either_version (err e) = false
either_version (ok version) = version == 1 || version == 2

unfoldable pub has_mweb_flag : Bytes → ℕ → Bool
has_mweb_flag buf offset =
    if ltb (length buf) (offset + 6)
    then false
    else either_version (read_uint_le 4 buf offset)
      && is_zero (get_elem? buf (offset + 4))
      && (equals 0x08 (get_elem? buf (offset + 5)) || equals 0x09 (get_elem? buf (offset + 5)))

-- `readInt32LE`
abbrev pub int32 : ℕ → ℤ
int32 n = if ltb n 0x80000000 then pos n else negsuc (0xFFFFFFFF - n)

-- `buf.subarray(start, end)`
abbrev pub subarray : ℕ → ℕ → Bytes → Bytes
subarray start end buf = take (end - start) (drop start buf)

unfoldable pub read_outs : ℕ → Bytes → ℕ → Result WireError (List (ℕ × Bytes))
read_outs zero buf offset = ok []
read_outs (suc n) buf offset = do
  value ← read_uint_le 8 buf offset
  (count, script) ← read_mweb_compact_size output_script buf (offset + 8)
  outs ← read_outs n buf (script + count)
  ok ((value, subarray script (script + count) buf) ∷ outs)

-- `(buf[start + 5] & 1) === 1`
abbrev pub is_odd : Option ℕ → Bool
is_odd none = false
is_odd (some flag) = flag % 2 == 1

-- Where the lock time stands: behind the tag, or, for a tag of an MWEB part, four bytes before the end.
unfoldable pub locktime_behind : Bool → Bool → Bytes → ℕ → Result WireError ℕ
locktime_behind true standalone buf behind = ok behind
locktime_behind false false buf behind = err inner_mweb_part
locktime_behind false true buf behind =
    if ltb (length buf) (behind + 4) then err (too_short locktime) else ok (length buf - 4)

unfoldable pub locktime_after_tag : Bool → Bytes → ℕ → Result WireError ℕ
locktime_after_tag standalone buf witness_end = do
  behind ← skip_mweb_bytes 1 mweb_tag buf witness_end
  locktime_behind (is_zero (get_elem? buf witness_end)) standalone buf behind

module _ {Tx : Type 0} (from_buffer : Bytes → Result WireError Tx)
    (build : ℤ → List (ℕ × Bytes) → ℕ → Tx) where
  unfoldable pub build_inputless_transaction : Bytes → ℕ → ℕ → ℕ → Result WireError Tx
  build_inputless_transaction buf start outs_start locktime_at = do
    version ← read_uint_le 4 buf start
    (outs, outs_at) ← read_mweb_compact_size output_count buf outs_start
    txouts ← read_outs outs buf outs_at
    lock ← read_uint_le 4 buf locktime_at
    ok (build (int32 version) txouts lock)

  unfoldable pub plain_or_built : Bytes → ℕ → ℕ → ℕ → ℕ → ℕ → ℕ → Bool → Result WireError Tx
  plain_or_built buf start ins outs_start witness_end locktime_at end with_witness =
      let built = build_inputless_transaction buf start outs_start locktime_at in
      let plain = from_buffer (
        subarray start (start + 4) buf
        ++ ((if with_witness then 0x00 ∷ 0x01 ∷ [] else [])
            ++ (subarray (start + 6) witness_end buf ++ subarray locktime_at end buf))) in
      if ins == 0 then built else plain

  -- The transaction and the bytes consumed.
  unfoldable pub read_mweb_flagged_transaction : Bytes → ℕ → Bool → Result WireError (Tx × ℕ)
  read_mweb_flagged_transaction buf start standalone = do
    let with_witness = is_odd (get_elem? buf (start + 5))
    (outs_end, outs_start, ins) ← skip_mweb_ins_and_outs buf (start + 6)
    witness_end ← (if with_witness then skip_mweb_witness ins buf outs_end else ok outs_end)
    locktime_at ← locktime_after_tag standalone buf witness_end
    end ← skip_mweb_bytes 4 locktime buf locktime_at
    tx ← plain_or_built buf start ins outs_start witness_end locktime_at end with_witness
    ok (tx, end - start)
