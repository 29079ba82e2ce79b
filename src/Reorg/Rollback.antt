-- ===== src/Reorg/Rollback.antt =====
-- What every state of a rollback satisfies against the state that it began in, and the delete that keeps it.
use xchain_decoder.Prelude.{
  ℕ, zero, suc, ◌-◌, ◌<◌, ◌≤◌, ◌≡◌, refl, sym, ap, ◌∙◌, Option, none, some, List, [], ◌∷◌, ◌++◌,
  append_assoc, All, arith, inl, inr, Bool-cases, Option-cases, length, length-append,
}
use xchain_decoder.Prelude.Integers.{negsuc}
use xchain_decoder.Reorg.{
  Block, World, Header, header, not_found, failed, unusable, Decoder, modify, throw, ask, ◌>>=◌,
  proven,
}
use xchain_decoder.Reorg.Store.{
  delete_block_by_index, reorg_rows, mark, without_block, remove_block,
}
use xchain_decoder.Reorg.ReorgedAway.{judge}
use xchain_decoder.Reorg.HaltedWalk.{push_deleted}
use xchain_decoder.Reorg.Order.{IsDescending, remove_block-top}
use xchain_decoder.Reorg.Triple.{Triple}
use xchain_decoder.Reorg.Quiet.{IsQuiet, IsStable}
use xchain_decoder.Prelude.Integers.{pos}

-- Between the two clocks the node answered for the block's hash with confirmations -1.
abbrev pub WasReorgedAway : World → ℕ → ℕ → Block → Type 0
WasReorgedAway w from until b =
    (t : ℕ) × (from ≤ t)
    × (t < until)
    × (w.get_block_header t b.block_hash ≡ header (some (negsuc 0)))

pub judge-proven : (h : Header) → judge h ≡ proven → h ≡ header (some (negsuc 0))
unfolding judge
judge-proven not_found e = cc
judge-proven failed e = cc
judge-proven unusable e = cc
judge-proven (header none) e = cc
judge-proven (header (some (pos n))) e = cc
judge-proven (header (some (negsuc zero))) e = refl
judge-proven (header (some (negsuc (suc n)))) e = cc

-- The REORG rows that the deletes commit, one for each block with a hash.
abbrev pub mark_row : Block → List (Option (List ℕ)) → List (Option (List ℕ))
mark_row b rows = elim b.block_hash [ none ↦ rows | some h ↦ some (b.block_index ∷ []) ∷ rows ]

abbrev pub mark_rows : List Block → List (Option (List ℕ)) → List (Option (List ℕ))
mark_rows [] rows = rows
mark_rows (b ∷ bs) rows = mark_rows bs (mark_row b rows)

mark_rows-snoc :
    (bs : List Block) (b : Block) (rows : List (Option (List ℕ)))
    → mark_rows (bs ++ b ∷ []) rows ≡ mark_row b (mark_rows bs rows)
mark_rows-snoc [] b rows = refl
mark_rows-snoc (c ∷ cs) b rows = mark_rows-snoc cs b (mark_row c rows)

-- Blocks were taken off the top of the table, each one proven gone and marked, and at most as many as the
-- limit leaves after the earlier ones.
pub record IsRolledBack (w : World) (start : Decoder) (prior_depth limit : ℕ) (s : Decoder)
    : Type 0 where
  pub taken : start.blocks ≡ s.blocks_deleted ++ s.blocks
  pub ordered : IsDescending s.blocks
  pub reorged_away : All (WasReorgedAway w start.clock s.clock) s.blocks_deleted
  pub within : length s.blocks_deleted ≤ limit - prior_depth
  pub marked : reorg_rows s.events ≡ mark_rows s.blocks_deleted (reorg_rows start.events)
  pub later : start.clock ≤ s.clock

module _ (w : World) (start : Decoder) where
  pub WasReorgedAway-later :
      (s u : Decoder) (b : Block)
      → IsQuiet s u
      → WasReorgedAway w start.clock s.clock b
      → WasReorgedAway w start.clock u.clock b
  WasReorgedAway-later s u b (blocks, deleted, clock, rows, halts) (t, from, until, e) =
      (t, from, omega arith, e)

  All-WasReorgedAway-later :
      (early late : ℕ) (bs : List Block)
      → early ≤ late
      → All (WasReorgedAway w start.clock early) bs
      → All (WasReorgedAway w start.clock late) bs
  All-WasReorgedAway-later early late [] h all = tt
  All-WasReorgedAway-later early late (b ∷ bs) h ((t, from, until, e), all) =
      ((t, from, omega arith, e), All-WasReorgedAway-later early late bs h all)

  All-snoc :
      (now : ℕ) (bs : List Block) (b : Block)
      → All (WasReorgedAway w start.clock now) bs
      → WasReorgedAway w start.clock now b
      → All (WasReorgedAway w start.clock now) (bs ++ b ∷ [])
  All-snoc now [] b all one = (one, tt)
  All-snoc now (c ∷ cs) b (first, all) one = (first, All-snoc now cs b all one)

module _ (w : World) (start : Decoder) (prior_depth limit : ℕ) where
  pub IsRolledBack-IsStable : IsStable (IsRolledBack w start prior_depth limit)
  IsRolledBack-IsStable s u (blocks, deleted, clock, rows, halts) r = record {
    taken = rw (blocks, deleted, r.taken);
    ordered = rw blocks r.ordered;
    reorged_away =
        rw deleted
          (All-WasReorgedAway-later w start s.clock u.clock s.blocks_deleted clock r.reorged_away);
    within = rw deleted r.within;
    marked = rw (rows, deleted, r.marked);
    later = omega (arith, r.later);
  }

  -- All that a delete needs: the block at the top, proven gone, with room under the limit.
  pub record IsDoomed (b : Block) (s : Decoder) : Type 0 where
    pub so_far : IsRolledBack w start prior_depth limit s
    pub top : (rest : List Block) × (s.blocks ≡ b ∷ rest)
    pub gone : WasReorgedAway w start.clock s.clock b
    pub room : length s.blocks_deleted < limit - prior_depth

  reorg_rows-mark :
      (b : Block) (s : Decoder) → reorg_rows (mark b s.events) ≡ mark_row b (reorg_rows s.events)
  reorg_rows-mark b s = elim (Option-cases b.block_hash) [
    | inl missing ↦ rw missing refl
    | inr (h, there) ↦ rw there refl
  ]

  pub IsDoomed-deleted :
      (b : Block) (s : Decoder)
      → IsDoomed b s
      → IsRolledBack w start prior_depth limit
          (push_deleted b (without_block b (record s { clock = suc s.clock })))
  IsDoomed-deleted b s d =
      let (rest, e) = d.top in
      let left : remove_block b.block_index s.blocks ≡ rest =
        rw e (remove_block-top b rest (rw e at d.so_far.ordered)) in
      record {
        taken = rw (left, d.so_far.taken, e, append_assoc);
        ordered = rw left ((rw e at d.so_far.ordered).1);
        reorged_away =
            All-snoc w start (suc s.clock) s.blocks_deleted b
              (All-WasReorgedAway-later w start s.clock (suc s.clock) s.blocks_deleted (omega arith)
                d.so_far.reorged_away)
              (let (t, from, until, shown) = d.gone in (t, from, omega arith, shown));
        within = omega (arith, d.room, length-append s.blocks_deleted (b ∷ []));
        marked =
            reorg_rows-mark b s
            ∙ ap (mark_row b) d.so_far.marked
            ∙ sym (mark_rows-snoc s.blocks_deleted b (reorg_rows start.events));
        later = omega (arith, d.so_far.later);
      }

  -- The block is gone from the table, and `blocksDeleted` does not say so yet.
  abbrev pub IsHalfDeleted : Block → Decoder → Type 0
  IsHalfDeleted b s = IsRolledBack w start prior_depth limit (push_deleted b s)

  pub delete_rule :
      (b : Block)
      → Triple
          (IsDoomed b)
          (delete_block_by_index w b)
          (λ done. IsHalfDeleted b)
          (IsRolledBack w start prior_depth limit)
  unfolding delete_block_by_index ◌>>=◌ ask modify throw
  delete_rule b s d = elim (Bool-cases (w.write_fails s.clock)) [
    | inl fails ↦ rw fails (
        IsRolledBack-IsStable s (record s { clock = suc s.clock })
          (refl, refl, omega arith, refl, λ h. h) d.so_far)
    | inr works ↦ rw works (IsDoomed-deleted b s d)
  ]

  -- What the attempt leaves: the half-done delete, or the state as good as before.
  abbrev pub AfterAttempt : Block → Option (Unit {0}) → Decoder → Type 0
  AfterAttempt b (some done) = IsHalfDeleted b
  AfterAttempt b none = IsRolledBack w start prior_depth limit
