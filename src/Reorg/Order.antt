-- ===== src/Reorg/Order.antt =====
-- A table of blocks listed from the highest down, as its primary key allows: what `SELECT MAX`, the look-up
-- and the delete do at its top.
use xchain_decoder.Prelude.{
  ℕ, ◌+◌, ◌<◌, ◌≤◌, ◌≡◌, refl, ap, some, List, [], ◌∷◌, ◌==◌, All, arith, inl, inr, Bool-cases,
}
use xchain_decoder.Reorg.{Block}
use xchain_decoder.Reorg.Store.{max_height, find_block, remove_block}

abbrev pub Below : ℕ → List Block → Type 0
Below height = All (λ b. b.block_index < height)

abbrev pub IsDescending : List Block → Type 0
IsDescending [] = Unit
IsDescending (b ∷ bs) = Below b.block_index bs × IsDescending bs

pub Below-mono : (low high : ℕ) (bs : List Block) → low ≤ high → Below low bs → Below high bs
Below-mono low high [] h below = tt
Below-mono low high (b ∷ bs) h (first, rest) = (omega arith, Below-mono low high bs h rest)

pub max_height-IsDescending :
    (b : Block) (bs : List Block) → IsDescending (b ∷ bs) → max_height (b ∷ bs) ≡ some b.block_index
unfolding max_height
max_height-IsDescending b [] d = refl
max_height-IsDescending b (c ∷ cs) d = rw (max_height-IsDescending c cs d.1) (ap some (omega arith))

pub find_block-top : (b : Block) (bs : List Block) → find_block b.block_index (b ∷ bs) ≡ some b
unfolding find_block
find_block-top b bs = ground arith

remove_block-Below : (height : ℕ) (bs : List Block) → Below height bs → remove_block height bs ≡ bs
unfolding remove_block
remove_block-Below height [] below = refl
remove_block-Below height (b ∷ bs) (first, rest) =
    let later = remove_block-Below height bs rest in ground (arith, later)

pub remove_block-top :
    (b : Block) (bs : List Block) → IsDescending (b ∷ bs) → remove_block b.block_index (b ∷ bs) ≡ bs
unfolding remove_block
remove_block-top b bs d = let rest = remove_block-Below b.block_index bs d.0 in ground (arith, rest)

-- Where the table has an entry at its greatest height, it stands at the top.
pub find_block-Below :
    (height : ℕ) (bs : List Block) (b : Block)
    → IsDescending bs
    → Below (height + 1) bs
    → find_block height bs ≡ some b
    → (rest : List Block) × (bs ≡ b ∷ rest)
unfolding find_block
find_block-Below height [] b d below h = absurd (cc)
find_block-Below height (c ∷ cs) b d below h = elim (Bool-cases (c.block_index == height)) [
  | inl same ↦ (cs, ground arith)
  | inr other ↦ absurd (not_lower cs (ground arith) d.0)
]
  where
    not_lower : (bs : List Block) → find_block height bs ≡ some b → Below c.block_index bs → ⊥
    not_lower [] e l = cc
    not_lower (x ∷ xs) e (l, ls) = elim (Bool-cases (x.block_index == height)) [
      | inl same ↦ ground arith
      | inr other ↦ not_lower xs (ground arith) ls
    ]
