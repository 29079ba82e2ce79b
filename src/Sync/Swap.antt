-- ===== src/Sync/Swap.antt =====
-- Another hash at the stored tip is acted on only once two readings of it agree.
use xchain_decoder.Prelude.{
  ℕ, zero, suc, ◌≤◌, ◌<◌, ◌≡◌, ◌⊎◌, refl, sym, ap, ◌∙◌, inl, inr, Bool, true, false, Option, none,
  some, [], ◌∷◌, Bool-cases, arith, Result, err, ok,
}
use xchain_decoder.Prelude.Text.{Text}
use xchain_decoder.Reorg.{
  Thrown, Block, Decoder, Reading, unread, null_hash, no_string, hash, return, ask, attempt, ◌>>=◌,
}
use xchain_decoder.Reorg.Store.{find_block, get_block_by_index}
use xchain_decoder.Reorg.Tip.{settle_node_reading, tip_settle_max_reads}
use xchain_decoder.Reorg.Walk.{is_same}
use xchain_decoder.Reorg.Triple.{
  Post, Post_always, Triple, bind_rule, return_rule, if_rule, Triple_mono, attempt_rule,
}
use xchain_decoder.Reorg.Quiet.{IsStable}
use xchain_decoder.Reorg.Rounds.{query_rule}
use xchain_decoder.Sync.{
  Outside, Loop, truthy, same_reading, read_hash, equal_height_swap_holds, swapped, act_on,
  compare_tip, read_stored, reconcile, reconcile_equal_height_tip,
}

module _ (o : Outside) (height : ℕ) (s : Decoder) where
  abbrev HasRead : ℕ → Reading → Type 0
  HasRead t r = truthy (o.world.get_block_hash t height) ≡ some r

  -- Two readings after the start, in this order, that agree on `settled`.
  abbrev pub AgreeOn : Reading → Type 0
  AgreeOn settled =
      (a : ℕ) × (b : ℕ) × (earlier : Reading) × (s.clock ≤ a)
      × (a < b)
      × HasRead a earlier
      × HasRead b settled
      × (same_reading settled earlier ≡ true)

  -- The table is as it was.
  abbrev Unchanged : Decoder → Type 0
  Unchanged u = (u.blocks ≡ s.blocks) × (s.clock ≤ u.clock)

  Unchanged-IsStable : IsStable Unchanged
  Unchanged-IsStable u v (b, d, c, r, h) (e, f) = (b ∙ e, omega arith)

  abbrev Seen : Reading → Decoder → Type 0
  Seen r u = (t : ℕ) × (s.clock ≤ t) × (t < u.clock) × HasRead t r

  -- With a floor under the clock, so that one reading comes after another.
  abbrev From : ℕ → Decoder → Type 0
  From mid u = Unchanged u × (mid ≤ u.clock)

  abbrev ReadFrom : ℕ → Option Reading → Decoder → Type 0
  ReadFrom mid none u = Unchanged u
  ReadFrom mid (some r) u = Unchanged u × ((t : ℕ) × (mid ≤ t) × (t < u.clock) × HasRead t r)

  was_read :
      (mid : ℕ) (u : Decoder) (answer : Option Reading)
      → truthy (o.world.get_block_hash u.clock height) ≡ answer
      → From mid u
      → ReadFrom mid answer (record u { clock = suc u.clock })
  was_read mid u none e ((b, c), f) = (b, omega arith)
  was_read mid u (some r) e ((b, c), f) = ((b, omega arith), (u.clock, f, omega arith, e))

  read_hash_rule : (mid : ℕ) → Triple (From mid) (read_hash o height) (ReadFrom mid) Unchanged
  unfolding read_hash ask return ◌>>=◌
  read_hash_rule mid u p = was_read mid u (truthy (o.world.get_block_hash u.clock height)) refl p

  abbrev Settled : Option Reading → Decoder → Type 0
  Settled none u = Unchanged u
  Settled (some r) u = Unchanged u × AgreeOn r

  settle_rule :
      (reads : ℕ) (previous : Reading)
      → Triple
          (λ u. Unchanged u × Seen previous u)
          (settle_node_reading same_reading (read_hash o height) reads previous)
          Settled
          Unchanged
  unfolding settle_node_reading return
  settle_rule zero previous = λ u (p, k). p
  settle_rule (suc reads) previous = λ u (p, (t, f, l, e)).
      bind_rule (From u.clock) _ _ (ReadFrom u.clock) Settled Unchanged (read_hash_rule u.clock)
        (next_rule (settle_rule reads) u.clock t f l e) u (p, omega arith)
    where
      next_rule :
          ((r : Reading)
            → Triple
                (λ u. Unchanged u × Seen r u)
                (settle_node_reading same_reading (read_hash o height) reads r)
                Settled
                Unchanged)
          → (mid t : ℕ) → s.clock ≤ t
          → t < mid
          → HasRead t previous
          → (next : Option Reading)
          → Triple
              (ReadFrom mid next)
              (elim next [
                | none ↦ return none
                | some r ↦ elim (same_reading r previous) [
                  | true ↦ return (some r)
                  | false ↦ settle_node_reading same_reading (read_hash o height) reads r
                ]
              ])
              Settled
              Unchanged
      next_rule later mid t f l e none = λ u p. p
      next_rule later mid t f l e (some r) = λ u (p, (b, fb, lb, g)).
          elim (Bool-cases (same_reading r previous)) [
            | inl same ↦ rw same (p, (t, b, previous, f, omega arith, e, g, same))
            | inr other ↦ rw other (later r u (p, (b, omega arith, lb, g)))
          ]

  abbrev Swapped : Option Text → Type 0
  Swapped stored = (settled : Reading) × AgreeOn settled × (is_same stored settled ≡ false)

  abbrev Held : Option Text → Bool → Decoder → Type 0
  Held stored holds u = Unchanged u × (holds ≡ true → Swapped stored)

  swap_holds_rule :
      (node_hash : Reading) (stored : Option Text)
      → Triple
          (λ u. Unchanged u × Seen node_hash u)
          (equal_height_swap_holds o height node_hash stored)
          (Held stored)
          Unchanged
  unfolding equal_height_swap_holds
  swap_holds_rule node_hash stored =
      bind_rule (λ u. Unchanged u × Seen node_hash u) _ _ Settled (Held stored) Unchanged
        (settle_rule tip_settle_max_reads node_hash) decide
    where
      decide :
          (settled : Option Reading)
          → Triple (Settled settled) (return (swapped stored settled)) (Held stored) Unchanged
      decide none = return_rule Unchanged false (Held stored) Unchanged (λ u p. (p, λ e. cc))
      decide (some r) = elim (Bool-cases (is_same stored r)) [
        | inl same ↦ rw same (
            return_rule (Settled (some r)) false (Held stored) Unchanged (λ u (p, a). (p, λ e. cc)))
        | inr apart ↦ rw apart (
            return_rule (Settled (some r)) true (Held stored) Unchanged
              (λ u (p, a). (p, λ e. (r, a, apart))))
      ]

  -- The table is as it was, or the stored block lost its height to another hash, read twice.
  abbrev pub OnlyOnSwap : Decoder → Type 0
  OnlyOnSwap u =
      (u.blocks ≡ s.blocks)
      ⊎ ((stored : Block) × (settled : Reading) × (find_block height s.blocks ≡ some stored)
          × AgreeOn settled
          × (is_same stored.block_hash settled ≡ false))

  whatever :
      {A : Type 0} (P : Decoder → Type 0) (r : Result Thrown A × Decoder)
      → ((u : Decoder) → P u)
      → Post (λ a. P) P r
  whatever P (err e, u) h = h u
  whatever P (ok a, u) h = h u

  act_on_rule :
      (fuel : ℕ) (loop : Loop) (stored : Block) (holds : Bool)
      → find_block height s.blocks ≡ some stored
      → Triple
          (Held stored.block_hash holds)
          (act_on o fuel loop holds)
          (λ a. OnlyOnSwap)
          OnlyOnSwap
  act_on_rule fuel loop stored false e =
      return_rule (Held stored.block_hash false) (false, loop) (λ a. OnlyOnSwap) OnlyOnSwap
        (λ u (p, h). inl p.0)
  act_on_rule fuel loop stored true e = λ u (p, h).
      let (settled, agreed, apart) = h refl in
      whatever OnlyOnSwap (reconcile o fuel loop u) (λ v. inr (stored, settled, e, agreed, apart))

  abbrev Ready : Option Reading → Option (Option Block) → Decoder → Type 0
  Ready (some node_hash) (some (some stored)) u =
      (Unchanged u × Seen node_hash u) × (find_block height s.blocks ≡ some stored)
  Ready node_hash stored u = Unchanged u

  compare_tip_rule :
      (fuel : ℕ) (loop : Loop) (node_hash : Option Reading) (stored : Option (Option Block))
      → Triple
          (Ready node_hash stored)
          (compare_tip o fuel loop height node_hash stored)
          (λ a. OnlyOnSwap)
          OnlyOnSwap
  unfolding compare_tip return
  compare_tip_rule fuel loop none stored = λ u p. inl p.0
  compare_tip_rule fuel loop (some node_hash) none = λ u p. inl p.0
  compare_tip_rule fuel loop (some node_hash) (some none) = λ u p. inl p.0
  compare_tip_rule fuel loop (some node_hash) (some (some stored)) =
      if_rule (Ready (some node_hash) (some (some stored))) (is_same stored.block_hash node_hash) _
        _ (λ a. OnlyOnSwap) OnlyOnSwap (λ same u p. inl p.0.0.0)
        (λ other u (p, e).
          bind_rule (λ u. Unchanged u × Seen node_hash u) _ _ (Held stored.block_hash)
            (λ a. OnlyOnSwap) OnlyOnSwap
            (Triple_mono (λ u. Unchanged u × Seen node_hash u) _ (Held stored.block_hash)
              (Held stored.block_hash) Unchanged OnlyOnSwap
              (swap_holds_rule node_hash stored.block_hash) (λ a u h. h) (λ u h. inl h.0))
            (λ holds. act_on_rule fuel loop stored holds e) u p)

  abbrev Answered : Option Reading → Decoder → Type 0
  Answered none u = Unchanged u
  Answered (some r) u = Unchanged u × Seen r u

  Answered-IsStable : (answer : Option Reading) → IsStable (Answered answer)
  Answered-IsStable none u v q p = Unchanged-IsStable u v q p
  Answered-IsStable (some r) u v (b, d, c, e, h) (p, (t, f, l, g)) =
      (Unchanged-IsStable u v (b, d, c, e, h) p, (t, f, omega arith, g))

  Answered-kept : (answer : Option Reading) (u : Decoder) → Answered answer u → Unchanged u
  Answered-kept none u p = p
  Answered-kept (some r) u p = p.0

  Answered-found :
      (answer : Option Reading) (u : Decoder) (b : Option Block)
      → Answered answer u
      → b ≡ find_block height u.blocks
      → Ready answer (some b) u
  Answered-found none u b p e = p
  Answered-found (some r) u none p e = p.0
  Answered-found (some r) u (some stored) p e = (p, ap (find_block height) (sym p.0.0) ∙ sym e)

  Answered-missing :
      (answer : Option Reading) (u : Decoder) → Answered answer u → Ready answer none u
  Answered-missing none u p = p
  Answered-missing (some r) u p = p.0

  find_rule :
      (answer : Option Reading)
      → Triple
          (Answered answer)
          (attempt (get_block_by_index o.world (some height)))
          (Ready answer)
          (Answered answer)
  unfolding get_block_by_index
  find_rule answer =
      attempt_rule (Answered answer) _ (λ b u. Answered answer u × (b ≡ find_block height u.blocks))
        (Answered answer) (Ready answer)
        (query_rule o.world (Answered answer) (Answered-IsStable answer) _ (λ u. refl))
        (λ b u (p, e). Answered-found answer u b p e) (Answered-missing answer)

  read_stored_rule :
      (answer : Reading)
      → Triple
          (Answered (truthy answer))
          (read_stored o height answer)
          (Ready (truthy answer))
          (Answered (truthy answer))
  unfolding read_stored return
  read_stored_rule unread = λ u p. p
  read_stored_rule null_hash = find_rule none
  read_stored_rule no_string = find_rule (some no_string)
  read_stored_rule (hash t) = find_rule (truthy (hash t))

  first_reading :
      (answer : Reading)
      → o.world.get_block_hash s.clock height ≡ answer
      → Answered (truthy answer) (record s { clock = suc s.clock })
  first_reading unread e = (refl, omega arith)
  first_reading null_hash e = (refl, omega arith)
  first_reading no_string e =
      ((refl, omega arith), (s.clock, omega arith, omega arith, ap truthy e))
  first_reading (hash []) e = (refl, omega arith)
  first_reading (hash (c ∷ cs)) e =
      ((refl, omega arith), (s.clock, omega arith, omega arith, ap truthy e))

  check_rule :
      (fuel : ℕ) (loop : Loop)
      → Post (λ a. OnlyOnSwap) OnlyOnSwap (reconcile_equal_height_tip o fuel height loop s)
  unfolding reconcile_equal_height_tip ask ◌>>=◌
  check_rule fuel loop =
      let answer = o.world.get_block_hash s.clock height in
      bind_rule (Answered (truthy answer)) _ _ (Ready (truthy answer)) (λ a. OnlyOnSwap) OnlyOnSwap
        (Triple_mono (Answered (truthy answer)) _ (Ready (truthy answer)) (Ready (truthy answer))
          (Answered (truthy answer)) OnlyOnSwap (read_stored_rule answer) (λ a u h. h)
          (λ u h. inl (Answered-kept (truthy answer) u h).0))
        (compare_tip_rule fuel
          (record loop { tip_hash_checked_at = loop.last_blockchain_info_refresh_at })
          (truthy answer))
        (record s { clock = suc s.clock }) (first_reading answer refl)

-- The check at the stored tip leaves the table as it was, unless a block is stored at the tip's height and
-- the node gave another hash for that height at two clocks, one after the other, both times the same.
pub reconcile_equal_height_tip_settled :
    (o : Outside) (fuel height : ℕ) (loop : Loop) (s : Decoder)
    → let u = (reconcile_equal_height_tip o fuel height loop s).1 in
      (u.blocks ≡ s.blocks)
      ⊎ ((stored : Block) × (settled : Reading) × (find_block height s.blocks ≡ some stored)
          × AgreeOn o height s settled
          × (is_same stored.block_hash settled ≡ false))
reconcile_equal_height_tip_settled o fuel height loop s =
    Post_always (OnlyOnSwap o height s) (reconcile_equal_height_tip o fuel height loop s)
      (check_rule o height s fuel loop)
