-- ===== src/Reorg/Restart.antt =====
-- The ceiling holds across a restart.
use mathlib.Core.Option
use mathlib.Core.Path.{subst}
use xchain_decoder.Prelude.{
  ℕ, zero, suc, ◌+◌, ◌*◌, ◌≤◌, ◌<◌, ◌≡◌, ◌≢◌, ◌⊎◌, refl, sym, ap, ◌∙◌, inl, inr, true, false, not,
  ◌&&◌, Option, none, some, List, [], ◌∷◌, ◌++◌, All, length, ltb, Bool-cases, Option-cases, arith,
  take, ok, Result, ap₂, ltb→lt, lt→ltb,
}
use xchain_decoder.Reorg.{Block, Decoder, World, Thrown}
use xchain_decoder.Reorg.Store.{above, heights_above_tip, max_height, reorg_rows, scan_limit}
use xchain_decoder.Reorg.Rollback.{mark_row, mark_rows}
use xchain_decoder.Reorg.Order.{IsDescending, Below, max_height-IsDescending, Below-mono}
use xchain_decoder.Reorg.Marks.{
  mem, IsAhead, heights_above_tip-IsAhead, pushed, IsHashed, heights_above_tip-mark_rows,
}
use xchain_decoder.Reorg.Depth.{safe_depth_for}
use xchain_decoder.Reorg.Walk.{verify_reorg}
use xchain_decoder.Reorg.Verified.{depth_above}
use xchain_decoder.Reorg.Outcomes.{
  verify_reorg_deletes_proven, verify_reorg_depth, verify_reorg_marks,
}

not-mem-All : (n k : ℕ) (hs : List ℕ) → All (λ h. h < n) hs → n ≤ k → mem k hs ≡ false
not-mem-All n k [] a e = refl
not-mem-All n k (h ∷ hs) (first, rest) e =
    let later = not-mem-All n k hs rest e in ground (arith, later)

pushed-Below :
    (low : Option ℕ) (n : ℕ) (bs : List Block) → Below n bs → All (λ h. h < n) (pushed low bs)
pushed-Below low n [] below = tt
pushed-Below low n (b ∷ bs) (first, rest) =
    let later = pushed-Below low n bs rest in
    elim (Bool-cases (above low b.block_index && not (mem b.block_index (pushed low bs)))) [
      | inl grows ↦ rw grows (first, later)
      | inr stays ↦ rw stays later
    ]

Below-append : (n : ℕ) (bs cs : List Block) → Below n (bs ++ cs) → Below n bs × Below n cs
Below-append n [] cs below = (tt, below)
Below-append n (b ∷ bs) cs (first, rest) = let (l, r) = Below-append n bs cs rest in ((first, l), r)

IsDescending-append : (bs cs : List Block) → IsDescending (bs ++ cs) → IsDescending cs
IsDescending-append [] cs d = d
IsDescending-append (b ∷ bs) cs d = IsDescending-append bs cs d.1

above-Below :
    (n : ℕ) (cs : List Block) → IsDescending cs → Below n cs → above (max_height cs) n ≡ true
unfolding max_height
above-Below n [] d below = refl
above-Below n (c ∷ cs) d below =
    rw (max_height-IsDescending c cs d) (lt→ltb c.block_index n below.0)

length-pushed :
    (bs cs : List Block) → IsDescending (bs ++ cs) → length (pushed (max_height cs) bs) ≡ length bs
length-pushed [] cs d = refl
length-pushed (b ∷ bs) cs (below, d) =
    let (l, r) = Below-append b.block_index bs cs below in
    let low = max_height cs in
    rw
      (
        above-Below b.block_index cs (IsDescending-append bs cs d) r,
        not-mem-All b.block_index b.block_index (pushed low bs)
            (pushed-Below low b.block_index bs l) (omega arith),
      )
      (ap suc (length-pushed bs cs d))

nothing_above :
    (bs cs : List Block) (k : ℕ)
    → IsDescending (bs ++ cs)
    → above (max_height (bs ++ cs)) k ≡ true
    → mem k (pushed (max_height cs) bs) ≡ true
    → mem k [] ≡ true
nothing_above [] cs k d up m = m
nothing_above (b ∷ bs) cs k d up m =
    let higher : ltb b.block_index k ≡ true = rw (max_height-IsDescending b (bs ++ cs) d) at up in
    let (l, r) = Below-append b.block_index bs cs d.0 in
    let absent =
      not-mem-All (b.block_index + 1) k (pushed (max_height cs) (b ∷ bs))
        (pushed-Below (max_height cs) (b.block_index + 1) (b ∷ bs)
          (omega arith, Below-mono b.block_index (b.block_index + 1) bs (omega arith) l))
        (omega (arith, ltb→lt b.block_index k higher)) in
    cc

above-append :
    (bs cs : List Block) (k : ℕ)
    → IsDescending (bs ++ cs)
    → above (max_height (bs ++ cs)) k ≡ true
    → above (max_height cs) k ≡ true
above-append [] cs k d up = up
above-append (b ∷ bs) cs k d up =
    let higher : ltb b.block_index k ≡ true = rw (max_height-IsDescending b (bs ++ cs) d) at up in
    let (l, r) = Below-append b.block_index bs cs d.0 in
    above-Below k cs (IsDescending-append bs cs d.1)
      (Below-mono b.block_index k cs (omega (arith, ltb→lt b.block_index k higher)) r)

IsAhead-pushed :
    (bs cs : List Block)
    → IsDescending (bs ++ cs)
    → IsAhead (max_height (bs ++ cs)) (length bs) [] (pushed (max_height cs) bs)
IsAhead-pushed bs cs d = record {
  longer = omega (arith, length-pushed bs cs d);
  shared = λ k up m. nothing_above bs cs k d up m;
}

take_all : {A : Type 0} (n : ℕ) (xs : List A) → length xs ≤ n → take n xs ≡ xs
take_all zero [] h = refl
take_all zero (x ∷ xs) h = absurd (omega arith)
take_all (suc n) [] h = refl
take_all (suc n) (x ∷ xs) h = ap (◌∷◌ x) (take_all n xs (omega arith))

length-mark_row :
    (b : Block) (rows : List (Option (List ℕ))) → length rows ≤ length (mark_row b rows)
length-mark_row b rows = elim (Option-cases b.block_hash) [
  | inl missing ↦ rw missing (omega arith)
  | inr (t, there) ↦ rw there (omega arith)
]

length-mark_rows :
    (bs : List Block) (rows : List (Option (List ℕ))) → length rows ≤ length (mark_rows bs rows)
length-mark_rows [] rows = omega arith
length-mark_rows (b ∷ bs) rows =
    omega (arith, length-mark_row b rows, length-mark_rows bs (mark_row b rows))

counts :
    (o : Option (List ℕ)) (n : ℕ)
    → Option.map length o ≡ some n
    → (hs : List ℕ) × (o ≡ some hs) × (length hs ≡ n)
counts none n e = absurd (cc)
counts (some hs) n e = (hs, refl, cc)

-- What a rollback deletes, the next count finds on top of the earlier depth.
depth_grows :
    (s u : Decoder) (deleted : List Block) (prior_depth : ℕ)
    → IsDescending s.blocks
    → s.blocks ≡ deleted ++ u.blocks
    → reorg_rows u.events ≡ mark_rows deleted (reorg_rows s.events)
    → IsHashed deleted
    → length (reorg_rows u.events) ≤ scan_limit
    → depth_above s ≡ some prior_depth
    → (depth : ℕ) × (depth_above u ≡ some depth) × (prior_depth + length deleted ≤ depth)
depth_grows s u deleted prior_depth d taken marked hashed short e =
    let rows = reorg_rows s.events in
    let order : IsDescending (deleted ++ u.blocks) = subst IsDescending taken d in
    let fits : length (mark_rows deleted rows) ≤ scan_limit = rw marked at short in
    let before : take scan_limit rows ≡ rows =
      take_all scan_limit rows (omega (arith, length-mark_rows deleted rows)) in
    let (hs, read, many) =
      counts (heights_above_tip (max_height s.blocks) (take scan_limit rows) []) prior_depth e in
    let read_here : heights_above_tip (max_height (deleted ++ u.blocks)) rows [] ≡ some hs =
      rw (taken, before) at read in
    let (after, found, more) =
      heights_above_tip-IsAhead (max_height (deleted ++ u.blocks)) (max_height u.blocks)
        (λ k. above-append deleted u.blocks k order) (length deleted) rows []
        (pushed (max_height u.blocks) deleted) hs (IsAhead-pushed deleted u.blocks order)
        read_here in
    let all_rows : take scan_limit (reorg_rows u.events) ≡ mark_rows deleted rows =
      take_all scan_limit (reorg_rows u.events) short ∙ marked in
    (
      length after,
      rw (all_rows, heights_above_tip-mark_rows (max_height u.blocks) deleted rows hashed, found)
          refl,
      omega arith,
    )

abbrev Deep : World → Decoder → Result Thrown (Unit {0}) × Decoder → Type 0
Deep w s run =
    ((run.1).blocks_deleted ≡ [])
    ⊎ ((prior_depth : ℕ) × (depth_above s ≡ some prior_depth)
        × (prior_depth + length (run.1).blocks_deleted ≤ 2 * safe_depth_for w)
        × (run.0 ≡ ok tt → prior_depth + length (run.1).blocks_deleted ≤ safe_depth_for w))

both_calls :
    (first second : World) (s s2 : Decoder) (one run : Result Thrown (Unit {0}) × Decoder)
    → safe_depth_for second ≡ safe_depth_for first
    → depth_above s2 ≡ depth_above (one.1)
    → ((n : ℕ)
        → depth_above s ≡ some n
        → (depth : ℕ) × (depth_above (one.1) ≡ some depth)
          × (n + length (one.1).blocks_deleted ≤ depth))
    → Deep first s one
    → Deep second s2 run
    → (length (one.1).blocks_deleted + length (run.1).blocks_deleted ≤ 2 * safe_depth_for first)
      × (run.0 ≡ ok tt
          → (run.1).blocks_deleted ≢ []
          → length (one.1).blocks_deleted + length (run.1).blocks_deleted ≤ safe_depth_for first)
both_calls first second s s2 one run depth tables grows (inl none_first) (inl none_second) = (
  rw (none_first, none_second) (omega arith),
  λ done some_second. absurd (some_second none_second),
)
both_calls first second s s2 one run depth tables grows (inl none_first) (inr (q, e, b, r)) = (
  rw (none_first, sym depth) (omega (arith, b)),
  λ done some_second. rw (none_first, sym depth) (omega (arith, r done)),
)
both_calls first second s s2 one run depth tables grows (inr (p, e, b, r)) (inl none_second) =
    (rw none_second (omega (arith, b)), λ done some_second. absurd (some_second none_second))
both_calls first second s s2 one run depth tables grows (inr (p, e, b, r)) (inr (q, f, b2, r2)) =
    let (deeper, g, more) = grows p e in
    let h : some q ≡ some deeper = sym f ∙ tables ∙ g in
    let same : q ≡ deeper = cc in
    (
      rw (sym depth) (omega (arith, b2)),
      λ done some_second. rw (sym depth) (omega (arith, r2 done)),
    )

-- A decoder that is stopped in the middle of a rollback and started again, with its tables and nothing else
-- kept and other answers from then on, still deletes no more than two safe-depth windows over both calls,
-- and no more than one if the second call deletes and returns. The deleted blocks have hashes, and the REORG
-- rows fit the scan limit.
pub verify_reorg_restarted :
    (first second : World) (fuel again : ℕ) (tip next_tip : Option ℕ) (s s2 : Decoder)
    → IsDescending s.blocks
    → let u = (verify_reorg first fuel tip s).1 in
      let run = verify_reorg second again next_tip s2 in
      safe_depth_for second ≡ safe_depth_for first
      → s2.blocks ≡ u.blocks
      → s2.events ≡ u.events
      → IsHashed u.blocks_deleted
      → length (reorg_rows u.events) ≤ scan_limit
      → (length u.blocks_deleted + length (run.1).blocks_deleted ≤ 2 * safe_depth_for first)
        × (run.0 ≡ ok tt
            → (run.1).blocks_deleted ≢ []
            → length u.blocks_deleted + length (run.1).blocks_deleted ≤ safe_depth_for first)
verify_reorg_restarted first second fuel again tip next_tip s s2 d same_depth blocks events hashed
      short =
    let u = (verify_reorg first fuel tip s).1 in
    let run = verify_reorg second again next_tip s2 in
    let (taken, proven) = verify_reorg_deletes_proven first fuel tip s d in
    let rest : IsDescending u.blocks =
      IsDescending-append u.blocks_deleted u.blocks (subst IsDescending taken d) in
    let marked = verify_reorg_marks first fuel tip s d in
    let grows = λ (n : ℕ) (e : depth_above s ≡ some n).
      depth_grows s u u.blocks_deleted n d taken marked hashed short e in
    let same_tables : depth_above s2 ≡ depth_above u =
      ap₂
        (λ bs es.
          Option.map length
            (heights_above_tip (max_height bs) (take scan_limit (reorg_rows es)) []))
        blocks events in
    both_calls first second s s2 (verify_reorg first fuel tip s) run same_depth same_tables grows
      (verify_reorg_depth first fuel tip s d)
      (verify_reorg_depth second again next_tip s2 (subst IsDescending (sym blocks) rest))
