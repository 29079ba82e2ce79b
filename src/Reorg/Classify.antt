-- ===== src/Reorg/Classify.antt =====
-- What the last stored block that is read says of the table: a round of the walk as a whole.
use xchain_decoder.Prelude.{ℕ, Option, none, some, List, [], ◌∷◌, ltb, max}
use xchain_decoder.Reorg.{Block, World, Decoder}
use xchain_decoder.Prelude.{◌≡◌, ◌≢◌, Option-cases, refl, sym, ◌∙◌, inl, inr, ltb→lt}
use xchain_decoder.Reorg.Store.{max_height, find_block}
use xchain_decoder.Reorg.Walk.{walk_stored, walk_round, finished, again}
use xchain_decoder.Reorg.Order.{IsDescending, max_height-IsDescending, find_block-top}
use xchain_decoder.Reorg.Triple.{Triple, bind_rule, return_rule, if_rule}
use xchain_decoder.Reorg.Deletes.{AtTop}
use xchain_decoder.Reorg.Rounds.{
  In, Stored, read_last_stored_block_rule, AfterRound, walk_block_rule,
}

max_height-nil : (bs : List Block) → none ≡ max_height bs → bs ≡ []
unfolding max_height
max_height-nil [] e = refl
max_height-nil (b ∷ bs) e = elim (Option-cases (max_height bs)) [
  | inl nothing ↦ absurd (let h : none ≡ some b.block_index = rw nothing at e in cc)
  | inr (h, there) ↦ absurd (let g : none ≡ some (max b.block_index h) = rw there at e in cc)
]

not-nil-max_height : (index : ℕ) → some index ≢ max_height []
unfolding max_height
not-nil-max_height index e = cc

-- The block that is read stands at the top.
top_found :
    (bs : List Block) (index : ℕ)
    → IsDescending bs
    → some index ≡ max_height bs
    → (b : Block) × (rest : List Block) × (bs ≡ b ∷ rest)
      × (b.block_index ≡ index)
      × (find_block index bs ≡ some b)
top_found [] index d e = absurd (not-nil-max_height index e)
top_found (b ∷ bs) index d e =
    let h : some index ≡ some b.block_index = e ∙ max_height-IsDescending b bs d in
    let same : index ≡ b.block_index = cc in (b, bs, refl, sym same, rw same (find_block-top b bs))

module _ (w : World) (start : Decoder) (prior_depth : ℕ) where
  abbrev Read : Option (Option ℕ × Option Block) → Decoder → Type 0
  Read = Stored w start prior_depth

  nothing_stored : (index : Option ℕ) (u : Decoder) → Read (some (index, none)) u → u.blocks ≡ []
  nothing_stored none u (i, e, f) = max_height-nil u.blocks e
  nothing_stored (some index) u (i, e, f) =
      let (b, rest, g, same, found) = top_found u.blocks index i.ordered e in
      absurd (let h : none ≡ some b = f ∙ found in cc)

  at_top :
      (index : ℕ) (b : Block) (u : Decoder)
      → Read (some (some index, some b)) u
      → AtTop w start prior_depth (record { block_index = index; block_hash = b.block_hash }) u
  at_top index b u (i, e, f) =
      let (c, rest, g, same, found) = top_found u.blocks index i.ordered e in
      let h : some b ≡ some c = f ∙ found in
      let stored : b ≡ c = cc in (i, (rest, rw (g, sym same, stored) refl))

  walk_stored_rule :
      (node_tip : Option ℕ) (retry_count : ℕ) (stored : Option (Option ℕ × Option Block))
      → Triple
          (Read stored)
          (walk_stored w prior_depth node_tip retry_count stored)
          (AfterRound w start prior_depth)
          (In w start prior_depth)
  walk_stored_rule node_tip retry_count none =
      return_rule (Read none) (again node_tip retry_count) (AfterRound w start prior_depth)
        (In w start prior_depth) (λ s p. (p, λ e. cc))
  walk_stored_rule node_tip retry_count (some (none, none)) =
      return_rule (Read (some (none, none))) finished (AfterRound w start prior_depth)
        (In w start prior_depth) (λ s p. (p.0, λ e. inl (nothing_stored none s p)))
  walk_stored_rule node_tip retry_count (some (none, some b)) =
      return_rule (Read (some (none, some b))) finished (AfterRound w start prior_depth)
        (In w start prior_depth) (λ s (i, e, f). (i, λ h. inl (max_height-nil s.blocks e)))
  walk_stored_rule node_tip retry_count (some (some index, none)) =
      return_rule (Read (some (some index, none))) finished (AfterRound w start prior_depth)
        (In w start prior_depth) (λ s p. (p.0, λ e. inl (nothing_stored (some index) s p)))
  walk_stored_rule node_tip retry_count (some (some index, some b)) =
      let top : Block = record { block_index = index; block_hash = b.block_hash } in
      if_rule (Read (some (some index, some b))) (ltb index w.start_block_index) _ _
        (AfterRound w start prior_depth) (In w start prior_depth)
        (λ below.
          return_rule (Read (some (some index, some b))) finished (AfterRound w start prior_depth)
            (In w start prior_depth)
            (λ s p.
              let (i, (rest, e)) = at_top index b s p in
              (i, λ h. inr (top, rest, e, inl (ltb→lt index w.start_block_index below)))))
        (λ above s p.
          walk_block_rule w start prior_depth top node_tip retry_count s (at_top index b s p))

  pub walk_round_rule :
      (node_tip : Option ℕ) (retry_count : ℕ)
      → Triple
          (In w start prior_depth)
          (walk_round w prior_depth node_tip retry_count)
          (AfterRound w start prior_depth)
          (In w start prior_depth)
  unfolding walk_round
  walk_round_rule node_tip retry_count =
      bind_rule (In w start prior_depth) _ _ Read (AfterRound w start prior_depth)
        (In w start prior_depth) (read_last_stored_block_rule w start prior_depth)
        (walk_stored_rule node_tip retry_count)
