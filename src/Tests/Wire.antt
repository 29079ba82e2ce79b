-- ===== src/Tests/Wire.antt =====
-- The readers of src/chain on small sections and transactions.
use xchain_decoder.Prelude.{
  ℕ, ◌+◌, ◌≤◌, ◌≡◌, refl, ◌∙◌, zero, suc, true, false, some, [], ◌∷◌, ◌++◌, ok, ◌>>=◌, length,
  arith, ◌⊎◌,
}
use xchain_decoder.Prelude.Text.{Text, codes}
use xchain_decoder.Wire.Bytes.{Bytes, IsBytes, input_count, Remains-append}
use xchain_decoder.Wire.Varint.Hex.{to_hex, from_hex}
use xchain_decoder.Wire.Varint.{read_varint, encode_varint_hex}
use xchain_decoder.Wire.Varint.RoundTrip.{
  compact_size, read_varint-compact_size, read_varint-encode_varint_hex,
  encode_varint_hex-compact_size,
}
use xchain_decoder.Wire.AuxPow.{skip_aux_pow}
use xchain_decoder.Wire.AuxPow.Layout.{
  TxIn, TxOut, Coinbase, Branch, AuxPow, aux_pow, IsCoinbase, IsAuxPow,
}
use xchain_decoder.Wire.AuxPow.Exact.{skip_aux_pow-aux_pow}
use xchain_decoder.Wire.Skip.{skip_bytes, skip_times}
use xchain_decoder.Wire.AuxPow.Bounds.{skip_aux_pow_bounds}
use xchain_decoder.Wire.AuxPow.Strip.{BlockCodec, assert_whole_block, strip_aux_pow_from_block_hex}
use xchain_decoder.Wire.AuxPow.Strip.Cuts.{IsHeader, IsCutAt, IsWhole, strip-aux_pow, strip_checked}
use xchain_decoder.Wire.Mweb.{read_mweb_compact_size, read_mweb_flagged_transaction}
use xchain_decoder.Wire.Mweb.Layout.{flagged, plain}
use xchain_decoder.Wire.Mweb.Pieces.{read_mweb_compact_size-compact_size}
use xchain_decoder.Wire.Mweb.{has_mweb_flag}
use xchain_decoder.Wire.Bytes.{read_uint_le}
use xchain_decoder.Prelude.{◌*◌, ◌<◌, All, take, drop, Option, none, ◌≢◌, Bool}
use xchain_decoder.Prelude.Text.{text_eq}
use xchain_decoder.Wire.Mweb.Block.{
  TxCodec, read_transactions, read_mweb_transactions, assert_block_body_intact,
  mweb_block_from_buffer,
}
use xchain_decoder.Wire.Mweb.Block.Body.{
  IsWritten, read_transactions-body, mweb_block_from_buffer_checked,
}
use xchain_decoder.Wire.Mweb.Exact.{read_mweb_flagged_transaction-flagged}

abbrev zeros : ℕ → Bytes
zeros zero = []
zeros (suc n) = 0 ∷ zeros n

abbrev one_in : TxIn
one_in = record { prevout = zeros 36; script = 1 ∷ 2 ∷ []; sequence = zeros 4 }

abbrev one_out : TxOut
one_out = record { value = zeros 8; script = 3 ∷ [] }

abbrev coinbase : Coinbase
coinbase = record {
  version = zeros 4;
  ins = one_in ∷ [];
  outs = one_out ∷ [];
  flag = some 1;
  stacks = ((7 ∷ []) ∷ []) ∷ [];
  locktime = zeros 4;
}

abbrev no_links : Branch
no_links = record { hashes = []; index = zeros 4 }

abbrev one_link : Branch
one_link = record { hashes = zeros 32 ∷ []; index = zeros 4 }

abbrev section : AuxPow
section = record {
  coinbase = coinbase;
  parent_hash = zeros 32;
  coinbase_branch = one_link;
  chain_branch = no_links;
  parent_header = zeros 80;
}

coinbase-IsCoinbase : IsCoinbase coinbase
coinbase-IsCoinbase = record {
  version = refl;
  has_input = λ e. cc;
  in_count = omega arith;
  ins = (record { prevout = refl; script = omega arith; sequence = refl }, tt);
  out_count = omega arith;
  outs = (record { value = refl; script = omega arith }, tt);
  stacks = (refl, (record { count = omega arith; sizes = (omega arith, tt) }, tt));
  locktime = refl;
}

section-IsAuxPow : IsAuxPow section
section-IsAuxPow = record {
  coinbase = coinbase-IsCoinbase;
  parent_hash = refl;
  coinbase_branch = record { count = omega arith; hashes = (refl, tt); index = refl };
  chain_branch = record { count = omega arith; hashes = tt; index = refl };
  parent_header = refl;
}

skip_aux_pow-aux_pow_example :
    skip_aux_pow ((9 ∷ []) ++ (aux_pow section ++ (8 ∷ []))) 1 ≡ ok (1 + length (aux_pow section))
skip_aux_pow-aux_pow_example = skip_aux_pow-aux_pow section (9 ∷ []) (8 ∷ []) section-IsAuxPow

skip_aux_pow_run : skip_aux_pow (aux_pow section) 0 ≡ ok (length (aux_pow section))
unfolding aux_pow
skip_aux_pow_run = skip_aux_pow-aux_pow section [] [] section-IsAuxPow

skip_aux_pow_bounds_example :
    (0 + 134 ≤ length (aux_pow section)) × (length (aux_pow section) ≤ length (aux_pow section))
skip_aux_pow_bounds_example =
    skip_aux_pow_bounds (aux_pow section) 0 (length (aux_pow section)) skip_aux_pow_run

read_varint-compact_size_example :
    read_varint ((5 ∷ []) ++ (compact_size 70000 ++ [])) 1 ≡ ok (70000, 5)
read_varint-compact_size_example =
    read_varint-compact_size 70000 [] (omega arith)
      (Remains-append (5 ∷ []) (compact_size 70000 ++ []))

printed_515 : encode_varint_hex 515 ≡ ok (codes "fd0302")
unfolding encode_varint_hex
printed_515 = refl

read_varint-encode_varint_hex_example :
    read_varint ((5 ∷ []) ++ (from_hex (codes "fd0302") ++ [])) 1
    ≡ ok (515, length (from_hex (codes "fd0302")))
read_varint-encode_varint_hex_example =
    read_varint-encode_varint_hex 515 (codes "fd0302") (5 ∷ []) [] printed_515

encode_varint_hex-compact_size_run : encode_varint_hex 515 ≡ ok (to_hex (compact_size 515))
encode_varint_hex-compact_size_run = encode_varint_hex-compact_size 515

read_mweb_compact_size-compact_size_run :
    read_mweb_compact_size input_count ((5 ∷ []) ++ (compact_size 70000 ++ [])) 1 ≡ ok (70000, 6)
read_mweb_compact_size-compact_size_run =
    read_mweb_compact_size-compact_size input_count [] 70000 (omega arith)
      (Remains-append (5 ∷ []) (compact_size 70000 ++ []))

-- The bytes themselves stand for the transaction that bitcoinjs makes of them.
read_mweb_flagged_transaction-flagged_example :
    read_mweb_flagged_transaction ok
      (λ version outs lock. [])
      ((9 ∷ []) ++ (flagged coinbase ++ (8 ∷ [])))
      1
      false
    ≡ ok (plain coinbase, length (flagged coinbase))
read_mweb_flagged_transaction-flagged_example =
    read_mweb_flagged_transaction-flagged ok (λ version outs lock. []) coinbase (9 ∷ []) (8 ∷ [])
      false coinbase-IsCoinbase

-- Every buffer is one block of one transaction, whose root matches.
abbrev any_block : BlockCodec
any_block = record {
  Block = Bytes;
  from_buffer = λ b. some b;
  tx_count = λ b. 1;
  byte_length = λ b. length b;
  merkle_root_matches = λ b. true;
}

section-IsBytes : IsBytes (aux_pow section)
unfolding aux_pow
section-IsBytes = ground arith

zeros-IsHeader : IsHeader 1 1 0 0 (zeros 76)
zeros-IsHeader = record { version = ground arith; fields = ground arith; size = refl }

abbrev marked_block : Text
marked_block = to_hex ((1 ∷ 1 ∷ 0 ∷ 0 ∷ zeros 76) ++ (aux_pow section ++ (1 ∷ [])))

abbrev stripped_block : Text
stripped_block = to_hex ((1 ∷ 1 ∷ 0 ∷ 0 ∷ zeros 76) ++ (1 ∷ []))

strip-aux_pow_example :
    strip_aux_pow_from_block_hex any_block [] marked_block
    ≡ (assert_whole_block any_block stripped_block >>= λ _. ok stripped_block)
strip-aux_pow_example =
    strip-aux_pow any_block [] 1 1 0 0 (zeros 76) section (1 ∷ []) (omega arith) zeros-IsHeader refl
      section-IsAuxPow section-IsBytes (ground arith)

stripped_whole : assert_whole_block any_block stripped_block ≡ ok tt
unfolding assert_whole_block from_hex
stripped_whole = refl

stripped : strip_aux_pow_from_block_hex any_block [] marked_block ≡ ok stripped_block
stripped =
    strip-aux_pow any_block [] 1 1 0 0 (zeros 76) section (1 ∷ []) (omega arith) zeros-IsHeader refl
      section-IsAuxPow section-IsBytes (ground arith)
    ∙ rw stripped_whole refl

strip_checked_example :
    ((stripped_block ≡ marked_block) × (length {A = ℕ} [] ≤ 160))
    ⊎ (((from : ℕ) × IsCutAt marked_block stripped_block from
          × (((160 < length {A = ℕ} []) × (from ≡ length {A = ℕ} []))
              ⊎ ((after : ℕ) × (skip_aux_pow (from_hex marked_block) 80 ≡ ok after)
                  × (from ≡ after * 2))))
        × IsWhole any_block stripped_block)
strip_checked_example = strip_checked any_block [] marked_block stripped_block stripped

abbrev first_byte : Bytes → Option Bytes
first_byte [] = none
first_byte (b ∷ bs) = some (b ∷ [])

-- A library that takes every byte for a transaction.
abbrev byte_codec : TxCodec
byte_codec = record {
  Tx = Bytes;
  from_buffer = ok;
  from_prefix = first_byte;
  build = λ version outs lock. [];
  byte_length = length;
  read_var_int = λ buf offset. ok (1, offset + 1);
  merkle_root = λ txs. zeros 32;
}

two-IsWritten : All (IsWritten byte_codec) ((7 ∷ [], 7 ∷ []) ∷ (8 ∷ [], 8 ∷ []) ∷ [])
two-IsWritten = ((λ rest. refl, refl), ((λ rest. refl, refl), tt))

abbrev hogex : Coinbase
hogex = record {
  version = 2 ∷ 0 ∷ 0 ∷ 0 ∷ [];
  ins = one_in ∷ [];
  outs = one_out ∷ [];
  flag = none;
  stacks = [];
  locktime = zeros 4;
}

hogex-IsCoinbase : IsCoinbase hogex
hogex-IsCoinbase = record {
  version = refl;
  has_input = λ e. cc;
  in_count = omega arith;
  ins = (record { prevout = refl; script = omega arith; sequence = refl }, tt);
  out_count = omega arith;
  outs = (record { value = refl; script = omega arith }, tt);
  stacks = tt;
  locktime = refl;
}

read_transactions-body_example :
    read_transactions byte_codec 3 ((7 ∷ 8 ∷ []) ++ (flagged hogex ++ (1 ∷ []))) 0
    ≡ ok ((7 ∷ []) ∷ (8 ∷ []) ∷ plain hogex ∷ [], 0 + length ((7 ∷ 8 ∷ []) ++ flagged hogex), true)
read_transactions-body_example =
    read_transactions-body byte_codec ((7 ∷ [], 7 ∷ []) ∷ (8 ∷ [], 8 ∷ []) ∷ []) hogex (plain hogex)
      ((7 ∷ 8 ∷ []) ++ (flagged hogex ++ (1 ∷ []))) (1 ∷ []) 0 two-IsWritten hogex-IsCoinbase refl
      refl (Remains-append [] ((7 ∷ 8 ∷ []) ++ (flagged hogex ++ (1 ∷ []))))

-- A library that takes whatever remains for one transaction.
abbrev whole_codec : TxCodec
whole_codec = record {
  Tx = Bytes;
  from_buffer = ok;
  from_prefix = λ bytes. some bytes;
  build = λ version outs lock. [];
  byte_length = length;
  read_var_int = λ buf offset. ok (1, offset + 1);
  merkle_root = λ txs. zeros 32;
}

whole_block_run : mweb_block_from_buffer whole_codec (zeros 91) ≡ ok (zeros 10 ∷ [])
unfolding mweb_block_from_buffer read_mweb_transactions read_transactions has_mweb_flag read_uint_le
    assert_block_body_intact text_eq
whole_block_run = refl

mweb_block_from_buffer_checked_example :
    (zeros 10 ∷ [] ≢ [])
    × (zeros 32 ≡ take 32 (drop 36 (zeros 91)))
    × (end : ℕ) × (hogex_last : Bool) × (read_mweb_transactions whole_codec (zeros 91) 80
        ≡ ok (zeros 10 ∷ [], end, hogex_last))
    × ((end ≡ 91) ⊎ (hogex_last ≡ true))
mweb_block_from_buffer_checked_example =
    mweb_block_from_buffer_checked whole_codec (zeros 91) (zeros 10 ∷ []) whole_block_run
      (omega arith)

-- The bound is attained.
smallest_section : skip_aux_pow (zeros 134) 0 ≡ ok 134
unfolding skip_aux_pow skip_bytes read_varint skip_times
smallest_section = refl
