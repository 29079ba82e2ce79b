-- ===== src/Sync/Errors.antt =====
-- A rollback that fails: the parse loop waits, parks, or stops.
use xchain_decoder.Prelude.{
  ◌≡◌, ◌≢◌, ◌⊎◌, refl, inl, inr, Option, none, some, Option-cases, Result, err, ok,
}
use xchain_decoder.Reorg.{
  Decoder, Run, Thrown, wait, halt, halted_before, depth_unread, delete_aborted, fault,
  still_running, return, throw, ask, attempt, settle_result, ◌>>=◌,
}
use xchain_decoder.Reorg.Store.{get_last_block_index, count_reorg_deletes_above_tip}
use xchain_decoder.Prelude.Text.{Text}
use xchain_decoder.Reorg.Depth.{nonempty_text}
use xchain_decoder.Sync.{
  Outside, Loop, Wait, with_block, with_tx, get_last_tx_index, reset_batch_counters,
  rederive_or_keep, park_on_reorg_halt, needs_reset, park, park_or_rethrow, set_reorg_wait,
}

module _ {A : Type 0} where
  settled_ok :
      (r : Result Thrown A × Decoder)
      → (a : Option A) × (u : Decoder) × (settle_result r ≡ (ok a, u))
  settled_ok (err e, u) = (none, u, refl)
  settled_ok (ok a, u) = (some a, u, refl)

  attempt_ok :
      (m : Run A) (s : Decoder) → (a : Option A) × (u : Decoder) × (attempt m s ≡ (ok a, u))
  unfolding attempt
  attempt_ok m s = settled_ok (m s)

rederive_or_keep_ok :
    (o : Outside) (loop : Loop) (s : Decoder)
    → (after : Loop) × (u : Decoder) × (rederive_or_keep o loop s ≡ (ok after, u))
      × (after.reorg_halt_parked ≡ loop.reorg_halt_parked)
unfolding rederive_or_keep return ◌>>=◌ reset_batch_counters
rederive_or_keep_ok o loop s =
    let (index, u, e) = attempt_ok (get_last_block_index o.world) s in
    elim (Option-cases index) [
      | inl unread ↦ (loop, u, rw (e, unread) refl, refl)
      | inr (i, read) ↦
          let (tx, v, f) = attempt_ok (get_last_tx_index o) u in
          elim (Option-cases tx) [
            | inl unread ↦ (with_block o i loop, v, rw (e, read, f, unread) refl, refl)
            | inr (t, there) ↦ (
              reset_batch_counters (with_tx t (with_block o i loop)),
              v,
              rw (e, read, f, there) refl,
              refl,
            )
          ]
    ]

park_ok :
    (o : Outside) (loop : Loop) (s : Decoder)
    → (after : Loop) × (u : Decoder) × (park o loop s ≡ (ok after, u))
      × (after.reorg_halt_parked ≢ none)
unfolding park park_on_reorg_halt return ◌>>=◌
park_ok o loop s =
    let (here, u, e, f) = rederive_or_keep_ok o loop s in
    let (count, v, g) = attempt_ok (count_reorg_deletes_above_tip o.world) u in
    (park_on_reorg_halt (needs_reset count) here, v, rw (e, g) refl, λ h. cc)

-- The errors that hold the loop: a wait for a proof, and a halt.
abbrev pub IsWait : Thrown → Type 0
IsWait (wait class block) = Unit
IsWait _ = ⊥

abbrev pub IsHalt : Thrown → Type 0
IsHalt (halt reason) = Unit
IsHalt halted_before = Unit
IsHalt _ = ⊥

-- A rollback that waits for a proof leaves the loop running, with the wait for its block published, an empty
-- hash as none, and no
-- park of its own; a halt leaves it parked, also when the database cannot be read; and every other error,
-- and no other, goes through.
pub park_or_rethrow_cases :
    (o : Outside) (thrown : Thrown) (loop : Loop) (s : Decoder)
    → let run = park_or_rethrow o thrown loop s in
      (IsWait thrown
        × ((after : Loop) × (published : Wait) × (run.0 ≡ ok after)
            × (after.reorg_wait ≡ some published)
            × ((stored : Option Text) × (thrown
                  ≡ wait published.class
                      (record { block_index = published.stored_height; block_hash = stored }))
                × (published.stored_hash ≡ nonempty_text stored))
            × (after.reorg_halt_parked ≡ loop.reorg_halt_parked)))
      ⊎ ((IsHalt thrown × ((after : Loop) × (run.0 ≡ ok after) × (after.reorg_halt_parked ≢ none)))
          ⊎ ((¬ IsWait thrown) × (¬ IsHalt thrown) × (run.0 ≡ err thrown)))
unfolding park_or_rethrow set_reorg_wait ask return throw ◌>>=◌
park_or_rethrow_cases o (wait class block) loop s =
    inl (tt, (_, _, refl, refl, (block.block_hash, refl, refl), refl))
park_or_rethrow_cases o (halt reason) loop s =
    let (after, u, e, f) = park_ok o loop s in inr (inl (tt, (after, rw e refl, f)))
park_or_rethrow_cases o halted_before loop s =
    let (after, u, e, f) = park_ok o loop s in inr (inl (tt, (after, rw e refl, f)))
park_or_rethrow_cases o depth_unread loop s = inr (inr (λ h. h, λ h. h, refl))
park_or_rethrow_cases o delete_aborted loop s = inr (inr (λ h. h, λ h. h, refl))
park_or_rethrow_cases o fault loop s = inr (inr (λ h. h, λ h. h, refl))
park_or_rethrow_cases o still_running loop s = inr (inr (λ h. h, λ h. h, refl))
