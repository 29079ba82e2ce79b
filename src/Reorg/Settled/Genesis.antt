-- ===== src/Reorg/Settled/Genesis.antt =====
-- What `verifyChainGenesis` lets through while the node's tip is read.
use xchain_decoder.Prelude.{ℕ, suc, true, Option, none, some}
use xchain_decoder.Reorg.{Info, World, Decoder, return, ask, modify, ◌>>=◌, ◌>>◌}
use xchain_decoder.Prelude.{◌≡◌, ◌≤◌, ◌<◌, ◌⊎◌, refl, sym, ap, inl, inr, arith}
use xchain_decoder.Reorg.Tip.{verify_chain_genesis, compare_genesis}
use xchain_decoder.Reorg.Depth.{text_of, nonempty_text}
use xchain_decoder.Prelude.Text.{Text}
use xchain_decoder.Chain.{chain_genesis_unpinned, chain_genesis_mismatch}
use xchain_decoder.Reorg.Triple.{Triple, bind_rule, return_rule, if_rule}

-- A pinned genesis is not contradicted by the hash that the node gives for block 0 at clock `t`: it gives
-- none, or one that passes.
abbrev pub IsOwnGenesis : World → ℕ → Type 0
IsOwnGenesis w t =
    (chain_genesis_unpinned w.chain_genesis_hash ≡ true)
    ⊎ ((nonempty_text (text_of (w.get_block_hash t 0)) ≡ none)
        ⊎ ((reported : Text) × (nonempty_text (text_of (w.get_block_hash t 0)) ≡ some reported)
            × (chain_genesis_mismatch w.chain_genesis_hash (some reported) ≡ none)))

abbrev pub Since : ℕ → Decoder → Type 0
Since from u = from ≤ u.clock

module _ (w : World) where
  abbrev pub Asked : ℕ → Option (Option Info) → Decoder → Type 0
  Asked from answer u =
      (t : ℕ) × (from ≤ t) × (u.clock ≡ suc t) × (w.get_blockchain_info t ≡ answer)

  -- … and what block 0 was read as next.
  abbrev Hashed : ℕ → Option (Option Info) → Option Text → Decoder → Type 0
  Hashed from answer reported u =
      (t : ℕ) × (from ≤ t)
      × (u.clock ≡ suc (suc t))
      × (w.get_blockchain_info t ≡ answer)
      × (nonempty_text (text_of (w.get_block_hash (suc t) 0)) ≡ reported)

  abbrev pub Checked : ℕ → Option (Option Info) → Option Text → Decoder → Type 0
  Checked from answer mismatch u =
      Since from u
      × ((t : ℕ) × (from ≤ t)
          × (t < u.clock)
          × (w.get_blockchain_info t ≡ answer)
          × (mismatch ≡ none → IsOwnGenesis w (suc t)))

  mismatch_rule :
      (from : ℕ) (answer : Option (Option Info)) (reported : Text) (mismatch : Option Text)
      → chain_genesis_mismatch w.chain_genesis_hash (some reported) ≡ mismatch
      → Triple
          (Hashed from answer (some reported))
          (elim mismatch [
            | some why ↦ return (some why)
            | none ↦ (do
              modify
                  (λ s. record s { chain_genesis_checked_at = w.now s.clock; clock = suc s.clock })
              return none)
          ])
          (Checked from answer)
          (Since from)
  unfolding modify return ◌>>=◌
  mismatch_rule from answer reported none e =
      λ s (t, f, here, a, r). (omega arith, (t, f, omega arith, a, λ n. inr (inr (reported, r, e))))
  mismatch_rule from answer reported (some why) e =
      λ s (t, f, here, a, r). (omega arith, (t, f, omega arith, a, λ n. cc))

  hash_rule :
      (from : ℕ) (answer : Option (Option Info)) (reported : Option Text)
      → Triple
          (Hashed from answer reported)
          (elim reported [ none ↦ return none | some r ↦ compare_genesis w r ])
          (Checked from answer)
          (Since from)
  hash_rule from answer none =
      return_rule (Hashed from answer none) none (Checked from answer) (Since from)
        (λ s (t, f, here, a, r). (omega arith, (t, f, omega arith, a, λ n. inr (inl r))))
  hash_rule from answer (some reported) =
      mismatch_rule from answer reported
        (chain_genesis_mismatch w.chain_genesis_hash (some reported)) refl

  pub genesis_rule :
      (from : ℕ) (answer : Option (Option Info))
      → Triple (Asked from answer) (verify_chain_genesis w) (Checked from answer) (Since from)
  unfolding verify_chain_genesis ask
  genesis_rule from answer =
      if_rule (Asked from answer) (chain_genesis_unpinned w.chain_genesis_hash) _ _
        (Checked from answer) (Since from)
        (λ free.
          return_rule (Asked from answer) none (Checked from answer) (Since from)
            (λ s (t, f, here, a). (omega arith, (t, f, omega arith, a, λ n. inl free))))
        (λ pinned.
          bind_rule (Asked from answer) _ _
            (λ reading. Hashed from answer (nonempty_text (text_of reading))) (Checked from answer)
            (Since from)
            (λ s (t, f, here, a). (
              t,
              f,
              ap suc here,
              a,
              ap (λ k. nonempty_text (text_of (w.get_block_hash k 0))) (sym here),
            ))
            (λ reading. hash_rule from answer (nonempty_text (text_of reading))))
