-- ===== src/Wire/AuxPow/Layout.antt =====
-- The AuxPoW section of a merge-mined block as a record with its serialization.
use xchain_decoder.Prelude.{
  ℕ, ◌^◌, ◌<◌, ◌≡◌, ◌≢◌, Option, none, some, List, [], ◌∷◌, ◌++◌, length, All,
}
use xchain_decoder.Wire.Bytes.{Bytes}
use xchain_decoder.Wire.Varint.RoundTrip.{compact_size}
use xchain_decoder.Wire.Skip.{var_slice, render_all}

pub record TxIn : Type 0 where
  pub prevout : Bytes
  pub script : Bytes
  pub sequence : Bytes

pub record TxOut : Type 0 where
  pub value : Bytes
  pub script : Bytes

-- `witness` is `none` for a transaction with no witness data; else the flag byte behind the marker,
-- and a stack for each input.
pub record Coinbase : Type 0 where
  pub version : Bytes
  pub ins : List TxIn
  pub outs : List TxOut
  pub flag : Option ℕ
  pub stacks : List (List Bytes)
  pub locktime : Bytes

pub record Branch : Type 0 where
  pub hashes : List Bytes
  pub index : Bytes

pub record AuxPow : Type 0 where
  pub coinbase : Coinbase
  pub parent_hash : Bytes
  pub coinbase_branch : Branch
  pub chain_branch : Branch
  pub parent_header : Bytes

abbrev pub tx_in : TxIn → Bytes
tx_in i = i.prevout ++ (var_slice i.script ++ i.sequence)

abbrev pub tx_out : TxOut → Bytes
tx_out o = o.value ++ var_slice o.script

abbrev pub stack : List Bytes → Bytes
stack items = compact_size (length items) ++ render_all var_slice items

abbrev pub marker : Option ℕ → Bytes
marker none = []
marker (some flag) = 0 ∷ flag ∷ []

abbrev pub witness : Option ℕ → List (List Bytes) → Bytes
witness none stacks = []
witness (some flag) stacks = render_all stack stacks

-- Everything behind the version and the marker, with witness data `w`.
abbrev pub coinbase_body : Coinbase → Bytes → Bytes
coinbase_body c w =
    compact_size (length c.ins)
    ++ (render_all tx_in c.ins
        ++ (compact_size (length c.outs) ++ (render_all tx_out c.outs ++ (w ++ c.locktime))))

abbrev pub coinbase_tx : Coinbase → Bytes
coinbase_tx c = c.version ++ (marker c.flag ++ coinbase_body c (witness c.flag c.stacks))

abbrev pub hashes : List Bytes → Bytes
hashes = render_all (λ h. h)

abbrev pub branch : Branch → Bytes
branch b = compact_size (length b.hashes) ++ (hashes b.hashes ++ b.index)

unfoldable pub aux_pow : AuxPow → Bytes
aux_pow a =
    coinbase_tx a.coinbase
    ++ (a.parent_hash ++ (branch a.coinbase_branch ++ (branch a.chain_branch ++ a.parent_header)))

-- Field widths; every count and script length is one that a JavaScript number holds.
abbrev pub IsSized : ℕ → Bytes → Type 0
IsSized n s = length s ≡ n

abbrev pub IsShort {ℓ} : {A : Type ℓ} → List A → Type 0
IsShort xs = length xs < 2 ^ 53

pub record IsTxIn (i : TxIn) : Type 0 where
  pub prevout : IsSized 36 i.prevout
  pub script : IsShort i.script
  pub sequence : IsSized 4 i.sequence

pub record IsTxOut (o : TxOut) : Type 0 where
  pub value : IsSized 8 o.value
  pub script : IsShort o.script

pub record IsStack (items : List Bytes) : Type 0 where
  pub count : IsShort items
  pub sizes : All IsShort items

abbrev pub HasStacks : Option ℕ → List TxIn → List (List Bytes) → Type 0
HasStacks none ins stacks = Unit
HasStacks (some flag) ins stacks = (length stacks ≡ length ins) × All IsStack stacks

-- A coinbase has an input: with none, the zero count would read as the witness marker.
pub record IsCoinbase (c : Coinbase) : Type 0 where
  pub version : IsSized 4 c.version
  pub has_input : c.ins ≢ []
  pub in_count : IsShort c.ins
  pub ins : All IsTxIn c.ins
  pub out_count : IsShort c.outs
  pub outs : All IsTxOut c.outs
  pub stacks : HasStacks c.flag c.ins c.stacks
  pub locktime : IsSized 4 c.locktime

pub record IsBranch (b : Branch) : Type 0 where
  pub count : IsShort b.hashes
  pub hashes : All (IsSized 32) b.hashes
  pub index : IsSized 4 b.index

pub record IsAuxPow (a : AuxPow) : Type 0 where
  pub coinbase : IsCoinbase a.coinbase
  pub parent_hash : IsSized 32 a.parent_hash
  pub coinbase_branch : IsBranch a.coinbase_branch
  pub chain_branch : IsBranch a.chain_branch
  pub parent_header : IsSized 80 a.parent_header
