-- ===== src/Reorg/HaltedRead.antt =====
-- Reading a halted walk down: the doomed blocks are the top of the table.
use xchain_decoder.Prelude.{
  ℕ, zero, suc, ◌+◌, ◌-◌, Option, none, some, List, [], ◌∷◌, ◌++◌, ◌==◌, length,
}
use xchain_decoder.Prelude.Text.{Text}
use xchain_decoder.Reorg.{
  Block, World, HaltStop, stored_tip_unread, stored_block_unread, no_fork_point, Decoder, Run,
  return, attempt,
}
use xchain_decoder.Prelude.{
  ◌≡◌, ◌≢◌, ◌≤◌, ◌<◌, refl, sym, ◌∙◌, ap, inl, inr, Bool-cases, arith, All, append_assoc,
  length-append,
}
use mathlib.Core.Path.{subst}
use xchain_decoder.Reorg.Store.{max_height, find_block, get_block_by_index, get_last_block_index}
use xchain_decoder.Reorg.Order.{
  IsDescending, Below, Below-mono, max_height-IsDescending, find_block-Below,
}
use xchain_decoder.Reorg.Triple.{Triple, bind_rule, return_rule, Triple_mono, attempt_rule}
use xchain_decoder.Reorg.Quiet.{IsStable, Quiet, Quiet-Keeps, quiet}
use xchain_decoder.Reorg.HaltedWalk.{
  read_node_block_hash, read_twice, second_reading, weigh, stored_hash, Verdict, held, gone, unsure,
  HaltedRead, stopped, found, read_down, read_from, read_halted_walk, lowest_height, hash_or_empty,
}
use xchain_decoder.Reorg.Rounds.{query_rule}

Quiet-read_node_block_hash : (w : World) (height : ℕ) → Quiet (read_node_block_hash w height)
unfolding read_node_block_hash
Quiet-read_node_block_hash w height = search quiet

Quiet-second_reading :
    (w : World) (height : ℕ) (first : Option Text) → Quiet (second_reading w height first)
Quiet-second_reading w height none = search quiet
Quiet-second_reading w height (some first) = Quiet-read_node_block_hash w height

Quiet-read_twice : (w : World) (height : ℕ) (stored : Text) → Quiet (read_twice w height stored)
unfolding read_twice
Quiet-read_twice w height stored = search (quiet, Quiet-read_node_block_hash, Quiet-second_reading)

Quiet-weigh :
    (w : World) (tip : Option ℕ) (height : ℕ) (stored : Option Text)
    → Quiet (weigh w tip height stored)
Quiet-weigh w tip height none = search quiet
Quiet-weigh w tip height (some stored) = search (quiet, Quiet-read_twice)

abbrev NotBelow : ℕ → List Block → Type 0
NotBelow bound = All (λ b. bound ≤ b.block_index)

find_block-append :
    (height : ℕ) (bs cs : List Block)
    → NotBelow (height + 1) bs
    → find_block height (bs ++ cs) ≡ find_block height cs
unfolding find_block
find_block-append height [] cs above = refl
find_block-append height (b ∷ bs) cs (first, rest) =
    let later = find_block-append height bs cs rest in ground (arith, later)

NotBelow-mono : (high low : ℕ) (bs : List Block) → low ≤ high → NotBelow high bs → NotBelow low bs
NotBelow-mono high low [] h above = tt
NotBelow-mono high low (b ∷ bs) h (first, rest) = (omega arith, NotBelow-mono high low bs h rest)

NotBelow-snoc :
    (bound low : ℕ) (bs : List Block) (b : Block)
    → NotBelow bound bs
    → low ≤ bound
    → low ≤ b.block_index
    → NotBelow low (bs ++ b ∷ [])
NotBelow-snoc bound low [] b above h e = (e, tt)
NotBelow-snoc bound low (c ∷ cs) b (first, rest) h e =
    (omega arith, NotBelow-snoc bound low cs b rest h e)

find_block-height :
    (height : ℕ) (bs : List Block) (b : Block)
    → find_block height bs ≡ some b
    → b.block_index ≡ height
unfolding find_block
find_block-height height [] b e = cc
find_block-height height (c ∷ cs) b e = elim (Bool-cases (c.block_index == height)) [
  | inl same ↦ ground arith
  | inr other ↦ find_block-height height cs b (ground arith)
]

Below-max_height :
    (stored_tip bound : ℕ) (bs : List Block)
    → IsDescending bs
    → some stored_tip ≡ max_height bs
    → stored_tip < bound
    → Below bound bs
Below-max_height stored_tip bound [] d e h = tt
Below-max_height stored_tip bound (b ∷ bs) d e h =
    let f : some stored_tip ≡ some b.block_index = e ∙ max_height-IsDescending b bs d in
    let same : stored_tip ≡ b.block_index = cc in
    (omega arith, Below-mono b.block_index bound bs (omega arith) d.0)

verdict_rule :
    (Q : Verdict → Decoder → Type 0) (R : HaltedRead → Decoder → Type 0) (E : Decoder → Type 0)
    (if_held if_gone : Run HaltedRead) (if_unsure : HaltStop → Run HaltedRead)
    → Triple (Q held) if_held R E
    → Triple (Q gone) if_gone R E
    → ((why : HaltStop) → Triple (Q (unsure why)) (if_unsure why) R E)
    → (verdict : Verdict)
    → Triple
        (Q verdict)
        (elim verdict [ held ↦ if_held | unsure why ↦ if_unsure why | gone ↦ if_gone ])
        R
        E
verdict_rule Q R E if_held if_gone if_unsure h g u held = h
verdict_rule Q R E if_held if_gone if_unsure h g u gone = g
verdict_rule Q R E if_held if_gone if_unsure h g u (unsure why) = u why

whole_block :
    (height index : ℕ) (h : Option Text)
    → index ≡ height
    → h ≢ none
    → (let b : Block = record { block_index = index; block_hash = h } in b)
      ≡ record { block_index = height; block_hash = some (hash_or_empty h) }
whole_block height index none e there = absurd (there refl)
whole_block height index (some t) e there = rw e refl

module _ (w : World) (P : Decoder → Type 0) (stable : IsStable P) where
  abbrev Weighed : Option (Option Block) → Verdict → Decoder → Type 0
  Weighed stored verdict u = P u × (verdict ≡ gone → stored_hash stored ≢ none)

  weigh_rule :
      (tip : Option ℕ) (height : ℕ) (stored : Option (Option Block))
      → Triple P (weigh w tip height (stored_hash stored)) (Weighed stored) P
  weigh_rule tip height stored = cases (stored_hash stored)
    where
      cases :
          (t : Option Text)
          → Triple P (weigh w tip height t) (λ verdict u. P u × (verdict ≡ gone → t ≢ none)) P
      cases none =
          return_rule P (unsure (stored_block_unread height))
            (λ verdict u. P u × (verdict ≡ gone → none ≢ none)) P (λ s p. (p, λ e. cc))
      cases (some t) =
          Triple_mono P _ (λ verdict. P) (λ verdict u. P u × (verdict ≡ gone → some t ≢ none)) P P
            (Quiet-Keeps P _ stable (Quiet-weigh w tip height (some t)))
            (λ verdict u q. (q, λ e f. cc)) (λ u q. q)

-- `P` holds in the halted walk; `start_blocks` and `spent` are read as it begins.
module _ (w : World) (P : Decoder → Type 0) (stable : IsStable P) (blocks : List Block)
    (same : (s : Decoder) → P s → s.blocks ≡ blocks) where
  -- The doomed blocks are the top of the table, and not all of the heights were spent on them.
  abbrev pub Outcome : ℕ → HaltedRead → Decoder → Type 0
  Outcome total (stopped why) u = P u
  Outcome total (found stored_tip doomed fork_point) u =
      P u × ((rest : List Block) × (blocks ≡ doomed ++ rest)) × (length doomed < total)

  abbrev FoundBlock : ℕ → Option (Option Block) → Decoder → Type 0
  FoundBlock height none u = P u
  FoundBlock height (some b) u = P u × (b ≡ find_block height blocks)

  find_rule :
      (height : ℕ) → Triple P (attempt (get_block_by_index w (some height))) (FoundBlock height) P
  unfolding get_block_by_index
  find_rule height =
      attempt_rule P _ (λ b u. P u × (b ≡ find_block height u.blocks)) P (FoundBlock height)
        (query_rule w P stable _ (λ s. refl))
        (λ b u (p, e). (p, e ∙ ap (find_block height) (same u p))) (λ u p. p)

  FoundBlock-IsStable :
      (height : ℕ) (stored : Option (Option Block)) → IsStable (FoundBlock height stored)
  FoundBlock-IsStable height none s u q p = stable s u q p
  FoundBlock-IsStable height (some b) s u q (p, e) = (stable s u q p, e)

  FoundBlock-kept :
      (height : ℕ) (stored : Option (Option Block)) (u : Decoder) → FoundBlock height stored u → P u
  FoundBlock-kept height none u p = p
  FoundBlock-kept height (some b) u (p, e) = p

  -- The block that is found is the next one down.
  next_block :
      (height : ℕ) (doomed rest : List Block) (stored : Option (Option Block)) (u : Decoder)
      → blocks ≡ doomed ++ rest
      → IsDescending rest
      → Below (height + 1) rest
      → NotBelow (height + 1) doomed
      → FoundBlock height stored u
      → stored_hash stored ≢ none
      → (below : List Block) × (rest
          ≡ (record {
            block_index = height;
            block_hash = some (hash_or_empty (stored_hash stored));
          })
            ∷ below)
  next_block height doomed rest none u e d under over f there = absurd (there refl)
  next_block height doomed rest (some none) u e d under over f there = absurd (there refl)
  next_block height doomed rest (some (some b)) u e d under over (p, f) there =
      let here : find_block height rest ≡ some b =
        sym (find_block-append height doomed rest over) ∙ ap (find_block height) (sym e) ∙ sym f in
      let (below, g) = find_block-Below height rest b d under here in
      let index = find_block-height height rest b here in
      (below, g ∙ ap (λ c. c ∷ below) (whole_block height b.block_index b.block_hash index there))

  Outcome-mono :
      (low high : ℕ)
      → low ≤ high
      → (r : HaltedRead) (u : Decoder) → Outcome low r u
      → Outcome high r u
  Outcome-mono low high h (stopped why) u p = p
  Outcome-mono low high h (found stored_tip doomed fork_point) u (p, rest, short) =
      (p, rest, omega arith)

  read_down_rule :
      (tip stored_tip : Option ℕ) (lowest total count : ℕ) (doomed rest : List Block)
      → blocks ≡ doomed ++ rest
      → IsDescending rest
      → Below (lowest + count) rest
      → NotBelow (lowest + count) doomed
      → length doomed + count ≤ total
      → Triple P (read_down w tip stored_tip lowest count doomed) (Outcome total) P
  unfolding read_down return
  read_down_rule tip stored_tip lowest total zero doomed rest e d under over sum =
      return_rule P (stopped no_fork_point) (Outcome total) P (λ s p. p)
  read_down_rule tip stored_tip lowest total (suc count) doomed rest e d under over sum =
      let height = lowest + count in
      bind_rule P _ _ (FoundBlock height) (Outcome total) P (find_rule height) (λ stored.
        bind_rule (FoundBlock height stored) _ _
          (Weighed w (FoundBlock height stored) (FoundBlock-IsStable height stored) stored)
          (Outcome total) P
          (Triple_mono (FoundBlock height stored) _
            (Weighed w (FoundBlock height stored) (FoundBlock-IsStable height stored) stored)
            (Weighed w (FoundBlock height stored) (FoundBlock-IsStable height stored) stored)
            (FoundBlock height stored) P
            (weigh_rule w (FoundBlock height stored) (FoundBlock-IsStable height stored) tip height
              stored)
            (λ v u h. h) (FoundBlock-kept height stored))
          (verdict_rule
            (Weighed w (FoundBlock height stored) (FoundBlock-IsStable height stored) stored)
            (Outcome total) P _ _ _
            (λ s (p, h). (FoundBlock-kept height stored s p, (rest, e), omega arith))
            (λ s (p, h).
              let (below, g) =
                next_block height doomed rest stored s e d
                  (Below-mono (lowest + suc count) (height + 1) rest (omega arith) under)
                  (NotBelow-mono (lowest + suc count) (height + 1) doomed (omega arith) over) p
                  (h refl) in
              let next : Block = record {
                block_index = height;
                block_hash = some (hash_or_empty (stored_hash stored));
              } in
              let down : IsDescending (next ∷ below) = subst IsDescending g d in
              read_down_rule tip stored_tip lowest total count (doomed ++ next ∷ []) below
                (e ∙ ap (λ bs. doomed ++ bs) g ∙ sym (append_assoc doomed (next ∷ []) below)) down.1
                down.0
                (NotBelow-snoc (lowest + suc count) height doomed next over (omega arith)
                  (omega arith))
                (omega (arith, length-append doomed (next ∷ []))) s
                (FoundBlock-kept height stored s p))
            (λ why s (p, h). FoundBlock-kept height stored s p)))

  read_from_rule :
      (tip : Option ℕ) (allowed spent : ℕ) (stored_tip : Option ℕ)
      → IsDescending blocks
      → stored_tip ≡ max_height blocks
      → Triple P (read_from w tip allowed spent stored_tip) (Outcome (suc (allowed - spent))) P
  read_from_rule tip allowed spent none d e =
      return_rule P (stopped no_fork_point) (Outcome (suc (allowed - spent))) P (λ s p. p)
  read_from_rule tip allowed spent (some stored_tip) d e =
      let lowest = lowest_height w stored_tip allowed spent in
      let total = suc stored_tip - lowest in
      Triple_mono P _ (Outcome total) (Outcome (suc (allowed - spent))) P P
        (read_down_rule tip (some stored_tip) lowest total total [] blocks refl d
          (Below-max_height stored_tip (lowest + total) blocks d e (omega arith)) tt (omega arith))
        (Outcome-mono total (suc (allowed - spent)) (omega arith)) (λ u p. p)

  abbrev Tipped : Option (Option ℕ) → Decoder → Type 0
  Tipped none u = P u
  Tipped (some stored_tip) u = P u × (stored_tip ≡ max_height blocks)

  pub read_halted_walk_rule :
      (tip : Option ℕ) (allowed spent : ℕ)
      → IsDescending blocks
      → Triple P (read_halted_walk w tip allowed spent) (Outcome (suc (allowed - spent))) P
  unfolding read_halted_walk get_last_block_index return
  read_halted_walk_rule tip allowed spent d =
      bind_rule P _ _ Tipped (Outcome (suc (allowed - spent))) P
        (attempt_rule P _ (λ h u. P u × (h ≡ max_height u.blocks)) P Tipped
          (query_rule w P stable _ (λ s. refl)) (λ h u (p, e). (p, e ∙ ap max_height (same u p)))
          (λ u p. p))
        cases
    where
      cases :
          (stored_tip : Option (Option ℕ))
          → Triple
              (Tipped stored_tip)
              (elim stored_tip [
                | none ↦ return (stopped stored_tip_unread)
                | some index ↦ read_from w tip allowed spent index
              ])
              (Outcome (suc (allowed - spent)))
              P
      cases none s p = p
      cases (some index) s (p, e) = read_from_rule tip allowed spent index d e s p
