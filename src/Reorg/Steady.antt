-- ===== src/Reorg/Steady.antt =====
-- A walk in which every call is answered and the node keeps to one chain.
use xchain_decoder.Prelude.{
  ℕ, zero, suc, ◌+◌, true, false, Option, none, some, List, [], ◌∷◌, ◌++◌, ltb, length, ok,
}
use xchain_decoder.Prelude.Text.{Text}
use xchain_decoder.Prelude.Integers.{negsuc}
use xchain_decoder.Reorg.{
  Block, Event, hash, header, World, Decoder, return, throw, ask, attempt, get_state, modify, ◌>>=◌,
}
use xchain_decoder.Prelude.{
  ◌≡◌, ◌≤◌, ◌<◌, refl, ◌∙◌, inl, inr, arith, All, append_assoc, le→ltb, lt→leb, Bool-cases,
  append-nil, length-append,
}
use xchain_decoder.Reorg.Store.{
  max_height, mark, get_last_block_index, get_block_by_index, delete_block_by_index,
}
use xchain_decoder.Reorg.ReorgedAway.{
  judge, prove_reorged_away, prove_fork_reorged_away, cached_refusal,
}
use xchain_decoder.Reorg.Depth.{safe_depth_for, assert_within_safe_depth, require_reorg_proof}
use xchain_decoder.Reorg.HaltedWalk.{above_tip}
use xchain_decoder.Reorg.Walk.{
  walk_reorg, walk_round, read_last_stored_block, compare_block, is_same, try_delete,
  delete_forked_block, finished, again,
}
use xchain_decoder.Reorg.Order.{
  IsDescending, max_height-IsDescending, find_block-top, remove_block-top,
}

-- Reads and deletes succeed, and the node answers from one chain.
pub record IsSteady (w : World) (chain : ℕ → Text) : Type 0 where
  pub reads : (t : ℕ) → w.read_fails t ≡ false
  pub writes : (t : ℕ) → w.write_fails t ≡ false
  pub hashes : (t height : ℕ) → w.get_block_hash t height ≡ hash (chain height)

-- A stored block that the node's chain has replaced, and that the node knows.
pub record IsForked (w : World) (chain : ℕ → Text) (node_tip : Option ℕ) (b : Block) : Type 0 where
  pub known : (t : ℕ) → w.get_block_header t b.block_hash ≡ header (some (negsuc 0))
  pub other : is_same b.block_hash (hash (chain b.block_index)) ≡ false
  pub from_start : w.start_block_index ≤ b.block_index
  pub under_tip : above_tip b.block_index node_tip ≡ false

-- Where the walk has nothing left to delete: the table is empty, or the node holds its top.
abbrev pub IsKept : (ℕ → Text) → Option ℕ → List Block → Type 0
IsKept chain node_tip [] = Unit
IsKept chain node_tip (b ∷ rest) =
    IsDescending (b ∷ rest)
    × (above_tip b.block_index node_tip ≡ false)
    × (is_same b.block_hash (hash (chain b.block_index)) ≡ true)

module _ (w : World) (chain : ℕ → Text) (steady : IsSteady w chain) (node_tip : Option ℕ)
    (prior_depth : ℕ) (s : Decoder) where
  -- The states of such a walk.
  abbrev pub at : List Block → List Event → ℕ → List Block → Decoder
  at blocks events clock deleted = record s {
    blocks = blocks;
    events = events;
    clock = clock;
    blocks_deleted = deleted;
    fork_proof_cache = none;
    halt_error = none;
    halt_stop = none;
  }

  round_deletes :
      (b : Block) (rest deleted : List Block) (events : List Event) (clock retry_count : ℕ)
      → IsForked w chain node_tip b
      → IsDescending (b ∷ rest)
      → prior_depth + length deleted < safe_depth_for w
      → walk_round w prior_depth node_tip retry_count (at (b ∷ rest) events clock deleted) ≡ (
        ok (again node_tip 0),
        at rest (mark b events) (suc (suc (suc (suc (suc (suc clock)))))) (deleted ++ b ∷ []),
      )
  unfolding walk_round read_last_stored_block get_last_block_index get_block_by_index compare_block
      max_height delete_forked_block require_reorg_proof prove_fork_reorged_away cached_refusal
      prove_reorged_away judge assert_within_safe_depth try_delete delete_block_by_index ask return
      throw attempt modify get_state ◌>>=◌
  round_deletes b rest deleted events clock retry_count f d room =
      rw
        (
          steady.reads clock,
          max_height-IsDescending b rest d,
          steady.reads (suc clock),
          find_block-top b rest,
          le→ltb b.block_index w.start_block_index f.from_start,
          f.under_tip,
          steady.hashes (suc (suc clock)) b.block_index,
          f.other,
          f.known (suc (suc (suc (suc clock)))),
          lt→leb (safe_depth_for w) (prior_depth + length deleted) room,
          steady.writes (suc (suc (suc (suc (suc clock))))),
          remove_block-top b rest d,
        )
        refl

  round_ends :
      (kept deleted : List Block) (events : List Event) (clock retry_count : ℕ)
      → IsKept chain node_tip kept
      → (k : ℕ) × (walk_round w prior_depth node_tip retry_count (at kept events clock deleted)
          ≡ (ok finished, at kept events k deleted))
  unfolding walk_round read_last_stored_block get_last_block_index get_block_by_index compare_block
      max_height ask return throw attempt get_state ◌>>=◌
  round_ends [] deleted events clock retry_count k =
      (suc (suc clock), rw (steady.reads clock, steady.reads (suc clock)) refl)
  round_ends (b ∷ rest) deleted events clock retry_count (d, under, same) =
      elim (Bool-cases (ltb b.block_index w.start_block_index)) [
        | inl below ↦ (
          suc (suc clock),
          rw
              (
                steady.reads clock,
                max_height-IsDescending b rest d,
                steady.reads (suc clock),
                find_block-top b rest,
                below,
              )
              refl,
        )
        | inr above ↦ (
          suc (suc (suc clock)),
          rw
              (
                steady.reads clock,
                max_height-IsDescending b rest d,
                steady.reads (suc clock),
                find_block-top b rest,
                above,
                under,
                steady.hashes (suc (suc clock)) b.block_index,
                same,
              )
              refl,
        )
      ]

  -- With a round for each forked block and one more, the walk takes them off and stops.
  pub walk_reorg-forked :
      (forked kept deleted : List Block) (events : List Event) (clock retry_count fuel : ℕ)
      → All (IsForked w chain node_tip) forked
      → IsKept chain node_tip kept
      → IsDescending (forked ++ kept)
      → prior_depth + length deleted + length forked ≤ safe_depth_for w
      → length forked < fuel
      → (e : List Event) × (k : ℕ) × (walk_reorg w prior_depth fuel node_tip retry_count
            (at (forked ++ kept) events clock deleted)
          ≡ (ok tt, at kept e k (deleted ++ forked)))
  unfolding walk_reorg get_state return ◌>>=◌
  walk_reorg-forked forked kept deleted events clock retry_count zero f k d room h =
      absurd (omega arith)
  walk_reorg-forked [] kept deleted events clock retry_count (suc fuel) f k d room h =
      let (t, e) = round_ends kept deleted events clock retry_count k in
      (events, t, rw (e, append-nil deleted) refl)
  walk_reorg-forked (b ∷ forked) kept deleted events clock retry_count (suc fuel) (f, fs) k d room
        h =
      let step =
        round_deletes b (forked ++ kept) deleted events clock retry_count f d (omega arith) in
      let (e, t, g) =
        walk_reorg-forked forked kept (deleted ++ b ∷ []) (mark b events)
          (suc (suc (suc (suc (suc (suc clock)))))) 0 fuel fs k d.1
          (omega (arith, length-append deleted (b ∷ []))) (omega arith) in
      (e, t, rw step (g ∙ rw append_assoc refl))
