-- ===== src/Reorg/Rounds.antt =====
-- One round of the walk, and where the walk ends.
use xchain_decoder.Prelude.{ℕ, suc, true, Option, none, some, List, [], ◌∷◌, if◌then◌else◌}
use xchain_decoder.Reorg.{
  Block, Reading, unread, null_hash, no_string, hash, World, Decoder, Run, return, throw, ask,
  get_state, ◌>>=◌,
}
use xchain_decoder.Prelude.{◌≡◌, ◌≤◌, ◌<◌, ◌⊎◌, refl, sym, ◌∙◌, ap, inl, inr, Bool-cases, arith}
use xchain_decoder.Reorg.Store.{
  query, get_last_block_index, get_block_by_index, max_height, find_at,
}
use xchain_decoder.Reorg.Depth.{safe_depth_for}
use xchain_decoder.Reorg.HaltedWalk.{above_tip}
use xchain_decoder.Reorg.Walk.{
  read_last_stored_block, walk_block, compare_block, then_again, Next, finished, again, is_same,
  delete_forked_block, delete_above_tip_block,
}
use xchain_decoder.Reorg.Triple.{Triple, bind_rule, return_rule, if_rule, Triple_mono, attempt_rule}
use xchain_decoder.Reorg.Quiet.{IsStable, Quiet-Keeps}
use xchain_decoder.Reorg.Quiet.Tip.{Quiet-refresh_reorg_tip}
use xchain_decoder.Reorg.Rollback.{IsRolledBack-IsStable}
use xchain_decoder.Reorg.Deletes.{
  InWalk, AtTop, AtTop-IsStable, delete_forked_block_rule, delete_above_tip_block_rule,
}

module _ {A : Type 0} (w : World) (P : Decoder → Type 0) (stable : IsStable P) where
  -- A query that returns answers for the table as it stands.
  pub query_rule :
      (q : Decoder → A)
      → ((s : Decoder) → q (record s { clock = suc s.clock }) ≡ q s)
      → Triple P (query w q) (λ a u. P u × (a ≡ q u)) P
  unfolding ask get_state return throw ◌>>=◌
  query_rule q same s p =
      let next : Decoder = record s { clock = suc s.clock } in
      let kept : P next = stable s next (refl, refl, omega arith, refl, λ h. h) p in
      elim (Bool-cases (w.read_fails s.clock)) [
        | inl fails ↦ rw fails kept
        | inr works ↦ rw works (kept, refl)
      ]

module _ (w : World) (start : Decoder) (prior_depth : ℕ) where
  abbrev pub In : Decoder → Type 0
  In = InWalk w start prior_depth

  pub In-IsStable : IsStable In
  In-IsStable = IsRolledBack-IsStable w start prior_depth (safe_depth_for w)

  -- What a reading of the last stored block says of the table.
  abbrev pub Stored : Option (Option ℕ × Option Block) → Decoder → Type 0
  Stored none u = In u
  Stored (some (index, last_block)) u =
      In u × (index ≡ max_height u.blocks) × (last_block ≡ find_at index u.blocks)

  pub read_last_stored_block_rule : Triple In (read_last_stored_block w) Stored In
  unfolding read_last_stored_block get_last_block_index get_block_by_index
  read_last_stored_block_rule =
      attempt_rule In _ (λ pair. Stored (some pair)) In Stored
        (bind_rule In _ _ Indexed (λ pair. Stored (some pair)) In
          (query_rule w In In-IsStable _ (λ s. refl))
          (λ index.
            bind_rule (Indexed index) _ _
              (λ last_block u. Indexed index u × (last_block ≡ find_at index u.blocks))
              (λ pair. Stored (some pair)) In
              (Triple_mono (Indexed index) _
                (λ last_block u. Indexed index u × (last_block ≡ find_at index u.blocks))
                (λ last_block u. Indexed index u × (last_block ≡ find_at index u.blocks))
                (Indexed index) In
                (query_rule w (Indexed index) (Indexed-IsStable index) _ (λ s. refl)) (λ a u h. h)
                (λ u h. h.0))
              (λ last_block.
                return_rule (λ u. Indexed index u × (last_block ≡ find_at index u.blocks))
                  (index, last_block) (λ pair. Stored (some pair)) In
                  (λ s ((i, e), f). (i, e, f)))))
        (λ pair u h. h) (λ u h. h)
    where
      Indexed : Option ℕ → Decoder → Type 0
      Indexed index u = In u × (index ≡ max_height u.blocks)

      Indexed-IsStable : (index : Option ℕ) → IsStable (Indexed index)
      Indexed-IsStable index s u (b, d, c, r, h) (i, e) =
          (In-IsStable s u (b, d, c, r, h) i, e ∙ ap max_height (sym b))

  -- The node answered with the stored hash at the block's height.
  abbrev pub WasHeld : ℕ → ℕ → Block → Type 0
  WasHeld from until b =
      (t : ℕ) × (from ≤ t)
      × (t < until)
      × (is_same b.block_hash (w.get_block_hash t b.block_index) ≡ true)

  -- Nothing is left to roll back: the table is empty, or its top is below the start or held by the node.
  abbrev pub IsReconciled : Decoder → Type 0
  IsReconciled u =
      (u.blocks ≡ [])
      ⊎ ((b : Block) × (rest : List Block) × (u.blocks ≡ b ∷ rest)
          × ((b.block_index < w.start_block_index) ⊎ WasHeld start.clock u.clock b))

  abbrev pub AfterRound : Next → Decoder → Type 0
  AfterRound next u = In u × (next ≡ finished → IsReconciled u)

  again_rule :
      (P : Decoder → Type 0) (node_tip : Option ℕ) (m : Run ℕ)
      → Triple P m (λ retries. In) In
      → Triple P (then_again node_tip m) AfterRound In
  again_rule P node_tip m t =
      bind_rule P m _ (λ retries. In) AfterRound In t
        (λ retries. return_rule In (again node_tip retries) AfterRound In (λ s p. (p, λ e. cc)))

  abbrev Answered : Block → Reading → Decoder → Type 0
  Answered b answer u =
      AtTop w start prior_depth b u
      × ((t : ℕ) × (start.clock ≤ t) × (t < u.clock) × (w.get_block_hash t b.block_index ≡ answer))

  compared_rule :
      (b : Block) (node_tip : Option ℕ) (retry_count : ℕ) (answer : Reading)
      → Triple
          (Answered b answer)
          (if is_same b.block_hash answer
            then return finished
            else then_again node_tip (delete_forked_block w b node_tip prior_depth retry_count))
          AfterRound
          In
  compared_rule b node_tip retry_count answer =
      if_rule (Answered b answer) (is_same b.block_hash answer) _ _ AfterRound In
        (λ same.
          return_rule (Answered b answer) finished AfterRound In
            (λ s ((p, (rest, e)), (t, from, until, g)).
              (p, λ h. inr (b, rest, e, inr (t, from, until, rw (g, same) refl)))))
        (λ other s (p, g).
          again_rule (AtTop w start prior_depth b) node_tip _
            (delete_forked_block_rule w start prior_depth b node_tip retry_count) s p)

  compare_block_rule :
      (b : Block) (node_tip : Option ℕ) (retry_count : ℕ) (answer : Reading)
      → Triple
          (Answered b answer)
          (compare_block w prior_depth node_tip retry_count b answer)
          AfterRound
          In
  unfolding compare_block
  compare_block_rule b node_tip retry_count unread =
      bind_rule (Answered b unread) _ _ (λ tip. In) AfterRound In
        (λ s ((p, top), g). Quiet-Keeps In _ In-IsStable (Quiet-refresh_reorg_tip w node_tip) s p)
        (λ tip. return_rule In (again tip retry_count) AfterRound In (λ s p. (p, λ e. cc)))
  compare_block_rule b node_tip retry_count null_hash =
      compared_rule b node_tip retry_count null_hash
  compare_block_rule b node_tip retry_count no_string =
      compared_rule b node_tip retry_count no_string
  compare_block_rule b node_tip retry_count (hash t) = compared_rule b node_tip retry_count (hash t)

  ask_node_rule :
      (b : Block)
      → Triple
          (AtTop w start prior_depth b)
          (ask (λ t. w.get_block_hash t b.block_index))
          (Answered b)
          In
  unfolding ask
  ask_node_rule b s p = (
    AtTop-IsStable w start prior_depth b s (record s { clock = suc s.clock })
        (refl, refl, omega arith, refl, λ h. h) p,
    (s.clock, p.0.later, omega arith, refl),
  )

  pub walk_block_rule :
      (b : Block) (node_tip : Option ℕ) (retry_count : ℕ)
      → Triple
          (AtTop w start prior_depth b)
          (walk_block w prior_depth node_tip retry_count b)
          AfterRound
          In
  walk_block_rule b node_tip retry_count =
      if_rule (AtTop w start prior_depth b) (above_tip b.block_index node_tip) _ _ AfterRound In
        (λ above. over node_tip above)
        (λ under.
          bind_rule (AtTop w start prior_depth b) _ _ (Answered b) AfterRound In (ask_node_rule b)
            (compare_block_rule b node_tip retry_count))
    where
      over :
          (tip : Option ℕ)
          → above_tip b.block_index tip ≡ true
          → Triple
              (AtTop w start prior_depth b)
              (elim tip [
                | none ↦ return finished
                | some t ↦
                    then_again (some t) (delete_above_tip_block w b t prior_depth retry_count)
              ])
              AfterRound
              In
      over none above = cc
      over (some t) above =
          again_rule (AtTop w start prior_depth b) (some t) _
            (delete_above_tip_block_rule w start prior_depth b t retry_count)
