-- ===== src/Reorg/Settled.antt =====
-- A lower tip of the node is taken only on two readings that agree.
pub mod Genesis
use xchain_decoder.Reorg.Settled.Genesis.{IsOwnGenesis, Since, Asked, Checked, genesis_rule}
use xchain_decoder.Prelude.{ℕ, zero, suc, Bool, true, false, ◌||◌, Option, none, some, ◌==◌, ok}
use xchain_decoder.Reorg.{Info, World, Decoder, return, ask, modify, ◌>>=◌, ◌>>◌}
use xchain_decoder.Prelude.{
  ◌≡◌, ◌≤◌, ◌<◌, ◌⊎◌, refl, sym, ◌∙◌, ap, inl, inr, arith, Bool-cases, ==_iff, leb→le,
}
use mathlib.Core.Path.{subst}
use xchain_decoder.Reorg.Tip.{
  verify_chain_genesis, compare_genesis, is_foreign_or_malformed, node_tip_still_catching_up,
  past_genesis, gated, read_reorg_tip, settle_node_reading, refresh_reorg_tip, settle_tip, or_kept,
  is_taken_at_once, number_or_zero, tip_settle_max_reads,
}
use xchain_decoder.Reorg.Depth.{is_set, text_of, nonempty_text}
use xchain_decoder.Prelude.Text.{Text}
use xchain_decoder.Chain.{chain_genesis_unpinned, chain_genesis_mismatch}
use xchain_decoder.Reorg.Triple.{Post, Triple, bind_rule, return_rule, if_rule, Triple_mono}

-- At clock `t` the node reported this height, not catching up and on no other tier, and at the next clock its
-- genesis was not another one.
pub record IsReported (w : World) (height : Option ℕ) (t : ℕ) : Type 0 where
  pub info : Info
  pub answered : w.get_blockchain_info t ≡ some (some info)
  pub blocks : info.blocks ≡ height
  pub own_tier : is_foreign_or_malformed w info ≡ false
  pub synced : node_tip_still_catching_up info ≡ false
  pub own_genesis : IsOwnGenesis w (suc t)

module _ (w : World) (node_tip : Option ℕ) where
  -- The kept tip, or a height that the node reported between the two clocks.
  abbrev Known : ℕ → ℕ → Option ℕ → Type 0
  Known from until height =
      (height ≡ node_tip) ⊎ ((t : ℕ) × (from ≤ t) × (t < until) × IsReported w height t)

  abbrev Read : ℕ → Option ℕ → Decoder → Type 0
  Read from height u = Since from u × Known from u.clock height

  kept_rule :
      (from : ℕ) (answer : Option (Option Info))
      → Triple (Asked w from answer) (return node_tip) (Read from) (Since from)
  kept_rule from answer =
      return_rule (Asked w from answer) node_tip (Read from) (Since from)
        (λ s (t, f, here, a). (omega arith, inl refl))

  past_genesis_rule :
      (from : ℕ) (info : Info)
      → is_foreign_or_malformed w info ≡ false
      → Triple
          (Asked w from (some (some info)))
          (past_genesis w node_tip info)
          (Read from)
          (Since from)
  past_genesis_rule from info own =
      let Here = Asked w from (some (some info)) in
      let Then = Checked w from (some (some info)) in
      bind_rule Here _ _ Then (Read from) (Since from) (genesis_rule w from (some (some info)))
        (λ mismatch.
          if_rule (Then mismatch) (is_set mismatch || node_tip_still_catching_up info) _ _
            (Read from) (Since from)
            (λ refused.
              return_rule (Then mismatch) node_tip (Read from) (Since from)
                (λ s (p, h). (p, inl refl)))
            (λ fine.
              return_rule (Then mismatch) info.blocks (Read from) (Since from)
                (λ s (p, (t, f, until, e, g)). (
                  p,
                  inr (
                    t,
                    f,
                    until,
                    record {
                      info = info;
                      answered = e;
                      blocks = refl;
                      own_tier = own;
                      synced = right_false (is_set mismatch) (node_tip_still_catching_up info) fine;
                      own_genesis = g (unset mismatch (node_tip_still_catching_up info) fine);
                    },
                  ),
                ))))
    where
      right_false : (a b : Bool) → (a || b) ≡ false → b ≡ false
      right_false true b e = cc
      right_false false b e = e

      unset : (o : Option Text) (b : Bool) → (is_set o || b) ≡ false → o ≡ none
      unset none b e = refl
      unset (some why) b e = cc

  gated_rule :
      (from : ℕ) (answer : Option (Option Info))
      → Triple (Asked w from answer) (gated w node_tip answer) (Read from) (Since from)
  gated_rule from none = kept_rule from none
  gated_rule from (some none) = kept_rule from (some none)
  gated_rule from (some (some info)) =
      if_rule (Asked w from (some (some info))) (is_foreign_or_malformed w info) _ _ (Read from)
        (Since from) (λ foreign. kept_rule from (some (some info))) (past_genesis_rule from info)

  read_reorg_tip_rule :
      (from : ℕ) → Triple (Since from) (read_reorg_tip w node_tip) (Read from) (Since from)
  unfolding read_reorg_tip ask
  read_reorg_tip_rule from =
      bind_rule (Since from) _ _ (Asked w from) (Read from) (Since from)
        (λ s p. (s.clock, p, refl, refl)) (gated_rule from)

  abbrev Twice : ℕ → ℕ → ℕ → Type 0
  Twice from until n =
      (a : ℕ) × (b : ℕ) × (from ≤ a)
      × (a < b)
      × (b < until)
      × IsReported w (some n) a
      × IsReported w (some n) b

  abbrev Agreed : ℕ → Option ℕ → Decoder → Type 0
  Agreed from r u =
      Since from u
      × ((r ≡ none) ⊎ ((n : ℕ) × (r ≡ some n) × ((some n ≡ node_tip) ⊎ Twice from u.clock n)))

  pair :
      (from mid until n previous : ℕ)
      → n ≡ previous
      → Known from mid (some previous)
      → Known mid until (some n)
      → from ≤ mid
      → (some n ≡ node_tip) ⊎ Twice from until n
  pair from mid until n previous e k (inl tip) h = inl tip
  pair from mid until n previous e (inl tip) k h = inl (ap some e ∙ tip)
  pair from mid until n previous e (inr (a, fa, ua, ra)) (inr (b, fb, ub, rb)) h =
      inr (a, b, fa, omega arith, ub, subst (λ k. IsReported w (some k) a) (sym e) ra, rb)

  Known-wider :
      (from mid until : ℕ) (r : Option ℕ) → from ≤ mid → Known mid until r → Known from until r
  Known-wider from mid until r h (inl tip) = inl tip
  Known-wider from mid until r h (inr (t, f, u, p)) = inr (t, omega arith, u, p)

  settle_rule :
      (from reads previous : ℕ)
      → Triple
          (λ u. Since from u × Known from u.clock (some previous))
          (settle_node_reading ◌==◌ (read_reorg_tip w node_tip) reads previous)
          (Agreed from)
          (Since from)
  unfolding settle_node_reading return
  settle_rule from zero previous = λ s (p, k). (p, inl refl)
  settle_rule from (suc reads) previous = λ s (p, k).
      bind_rule (Since s.clock) _ _ (Read s.clock) (Agreed from) (Since from)
        (Triple_mono (Since s.clock) _ (Read s.clock) (Read s.clock) (Since s.clock) (Since from)
          (read_reorg_tip_rule s.clock) (λ a u h. h) (λ u h. omega arith))
        (next_rule (settle_rule from reads) s.clock p k) s (omega arith)
    where
      next_rule :
          ((n : ℕ)
            → Triple
                (λ u. Since from u × Known from u.clock (some n))
                (settle_node_reading ◌==◌ (read_reorg_tip w node_tip) reads n)
                (Agreed from)
                (Since from))
          → (mid : ℕ) → from ≤ mid
          → Known from mid (some previous)
          → (next : Option ℕ)
          → Triple
              (Read mid next)
              (elim next [
                | none ↦ return none
                | some n ↦ elim (n == previous) [
                  | true ↦ return (some n)
                  | false ↦ settle_node_reading ◌==◌ (read_reorg_tip w node_tip) reads n
                ]
              ])
              (Agreed from)
              (Since from)
      next_rule later mid p k none = λ u (q, l). (omega arith, inl refl)
      next_rule later mid p k (some n) = λ u (q, l). elim (Bool-cases (n == previous)) [
        | inl same ↦ rw same (
          omega arith,
          inr (n, refl, pair from mid u.clock n previous ((==_iff n previous).0 same) k l p),
        )
        | inr other ↦ rw other (later n u (omega arith, Known-wider from mid u.clock (some n) p l))
      ]

module _ (w : World) (kept : ℕ) where
  -- A height under the kept tip has been reported twice.
  abbrev Lowered : ℕ → Option ℕ → Decoder → Type 0
  Lowered from r u = (n : ℕ) → r ≡ some n → n < kept → Twice w (some kept) from u.clock n

  settled_low :
      (from : ℕ) (r : Option ℕ) (u : Decoder)
      → Agreed w (some kept) from r u
      → Lowered from (or_kept r (some kept)) u
  settled_low from r u (p, inl nothing) n e low =
      let h : some kept ≡ some n = rw nothing at e in absurd (let g : kept ≡ n = cc in omega arith)
  settled_low from r u (p, inr (m, f, k)) n e low =
      let h : some m ≡ some n = rw f at e in
      let same : m ≡ n = cc in
      elim k [
        | inl tip ↦ absurd (let g : m ≡ kept = cc in omega arith)
        | inr twice ↦ subst (λ x. Twice w (some kept) from u.clock x) same twice
      ]

  refresh_rule :
      (from : ℕ)
      → Triple (λ u. from ≤ u.clock) (refresh_reorg_tip w (some kept)) (Lowered from) (λ u. Unit)
  unfolding refresh_reorg_tip
  refresh_rule from =
      bind_rule (λ u. from ≤ u.clock) _ _ (Read w (some kept) from) (Lowered from) (λ u. Unit)
        (Triple_mono (λ u. from ≤ u.clock) _ (Read w (some kept) from) (Read w (some kept) from)
          (λ u. from ≤ u.clock) (λ u. Unit) (read_reorg_tip_rule w (some kept) from) (λ a u h. h)
          (λ u h. tt))
        (λ tip.
          if_rule (Read w (some kept) from tip) (is_taken_at_once tip (some kept)) _ _
            (Lowered from) (λ u. Unit) (taken tip) (settles tip))
    where
      taken :
          (tip : Option ℕ)
          → is_taken_at_once tip (some kept) ≡ true
          → Triple (Read w (some kept) from tip) (return tip) (Lowered from) (λ u. Unit)
      taken none e =
          return_rule (Read w (some kept) from none) none (Lowered from) (λ u. Unit)
            (λ s p n f low. cc)
      taken (some tip) e =
          return_rule (Read w (some kept) from (some tip)) (some tip) (Lowered from) (λ u. Unit)
            (λ s p n f low. absurd (let g : tip ≡ n = cc in omega (arith, leb→le kept tip e)))

      settles :
          (tip : Option ℕ)
          → is_taken_at_once tip (some kept) ≡ false
          → Triple
              (Read w (some kept) from tip)
              (settle_tip w (some kept) (number_or_zero tip))
              (Lowered from)
              (λ u. Unit)
      settles none e = cc
      settles (some tip) e =
          bind_rule (Read w (some kept) from (some tip)) _ _ (Agreed w (some kept) from)
            (Lowered from) (λ u. Unit)
            (Triple_mono (Read w (some kept) from (some tip)) _ (Agreed w (some kept) from)
              (Agreed w (some kept) from) (λ u. from ≤ u.clock) (λ u. Unit)
              (settle_rule w (some kept) from tip_settle_max_reads tip) (λ a u h. h) (λ u h. tt))
            (λ r.
              return_rule (Agreed w (some kept) from r) (or_kept r (some kept)) (Lowered from)
                (λ u. Unit) (settled_low from r))

-- A refresh in the middle of a rollback lowers the node's tip only if the node reported the lower height at
-- two clocks of the refresh, each time with a well-formed answer that names no other tier and is past the
-- initial download, and each time followed at once by a reading of block 0 that does not contradict a pinned
-- genesis (a reading that gives no hash does not).
pub refresh_reorg_tip_lowered :
    (w : World) (kept lower : ℕ) (s u : Decoder)
    → refresh_reorg_tip w (some kept) s ≡ (ok (some lower), u)
    → lower < kept
    → (a : ℕ) × (b : ℕ) × (s.clock ≤ a)
      × (a < b)
      × (b < u.clock)
      × IsReported w (some lower) a
      × IsReported w (some lower) b
refresh_reorg_tip_lowered w kept lower s u e low =
    let post =
      subst (λ r. Post (Lowered w kept s.clock) (λ u. Unit) r) e
        (refresh_rule w kept s.clock s (omega arith)) in
    post lower refl low
