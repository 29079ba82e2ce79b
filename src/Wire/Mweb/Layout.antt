-- ===== src/Wire/Mweb/Layout.antt =====
-- Litecoin's flagged serialization of a transaction whose MWEB part is null (a HogEx, or a transaction
-- that a node serves without its part), and what identifies it: the serialization without flag and tag.
use xchain_decoder.Prelude.{ℕ, Option, none, some, [], ◌∷◌, ◌++◌, length}
use xchain_decoder.Wire.Bytes.{Bytes}
use xchain_decoder.Wire.Varint.RoundTrip.{compact_size}
use xchain_decoder.Wire.Skip.{render_all}
use xchain_decoder.Wire.AuxPow.Layout.{Coinbase, tx_in, tx_out, witness}

-- The fields are those of every Bitcoin-family transaction, `Coinbase` of the AuxPoW layout: `flag` is
-- `some 1` for a transaction with witness data.
abbrev pub mweb_flag : Option ℕ → ℕ
mweb_flag none = 0x08
mweb_flag (some flag) = 0x09

abbrev pub ins_part : Coinbase → Bytes
ins_part t = compact_size (length t.ins) ++ render_all tx_in t.ins

abbrev pub outs_part : Coinbase → Bytes
outs_part t = compact_size (length t.outs) ++ render_all tx_out t.outs

abbrev pub witness_part : Coinbase → Bytes
witness_part t = witness t.flag t.stacks

unfoldable pub flagged : Coinbase → Bytes
flagged t =
    t.version
    ++ ((0x00 ∷ mweb_flag t.flag ∷ [])
        ++ (ins_part t ++ (outs_part t ++ (witness_part t ++ ((0x00 ∷ []) ++ t.locktime)))))

abbrev pub plain_marker : Option ℕ → Bytes
plain_marker none = []
plain_marker (some flag) = 0x00 ∷ 0x01 ∷ []

-- The standard serialization.
unfoldable pub plain : Coinbase → Bytes
plain t =
    t.version
    ++ (plain_marker t.flag ++ (ins_part t ++ (outs_part t ++ (witness_part t ++ t.locktime))))
