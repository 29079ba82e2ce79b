-- ===== src/Dispenser/Grace/Laws.antt =====
-- Which marks the two floors let through.
use xchain_decoder.Prelude.{
  ℕ, ◌+◌, ◌≤◌, ◌≡◌, ◌↔◌, refl, inl, inr, true, none, some, if◌then◌else◌, Bool-cases, arith,
}
use xchain_decoder.Prelude.Integers.{ℤ, pos, ◌-ℤ◌, ◌≤ℤ◌, sub-le_iff, sub-mono}
use xchain_decoder.Prelude.Text.{Text}
use xchain_decoder.Activation.{BlockTime}
use xchain_decoder.Dispenser.Grace.{
  dispenser_cancel_grace_seconds, is_dispenser_cancel_grace_active,
  is_dispenser_cancel_grace_parent_floor_active, is_dispenser_purge_grace_active,
  cancel_grace_floor, purge_grace_floor, earlier,
}

earlier-le : (block : ℕ) (parent : BlockTime) → earlier block parent ≤ block
earlier-le block none = omega arith
earlier-le block (some parent) = omega arith

-- The floor of a cancelled dispenser is that of an instant not after the block, and of the parent's
-- protocol time where that is earlier and its gate is open.
cancel_anchor :
    (network : Text) (block : ℕ) (parent : BlockTime) (floor : ℤ)
    → cancel_grace_floor network (some block) parent ≡ some floor
    → (anchor : ℕ) × (anchor ≤ block) × (floor ≡ anchor -ℤ dispenser_cancel_grace_seconds)
unfolding cancel_grace_floor
cancel_anchor network block parent floor h =
    elim (Bool-cases (is_dispenser_cancel_grace_active network (some block))) [
      | inr shut ↦ cc (rw shut at h)
      | inl active ↦
          elim (Bool-cases (is_dispenser_cancel_grace_parent_floor_active network (some block))) [
            | inl with_parent ↦ (
              earlier block parent,
              earlier-le block parent,
              let h' = rw (active, with_parent) at h in cc,
            )
            | inr alone ↦ (block, omega arith, let h' = rw (active, alone) at h in cc)
          ]
    ]

-- While the cancel grace is in force there is a floor, and a mark that is at most the grace before
-- the block is not below it, whatever the parent's protocol time is.
pub cancel_grace_floor_covers :
    (network : Text) (block : ℕ) (parent : BlockTime) (mark : ℕ)
    → is_dispenser_cancel_grace_active network (some block) ≡ true
    → block ≤ mark + dispenser_cancel_grace_seconds
    → (floor : ℤ) × (cancel_grace_floor network (some block) parent ≡ some floor)
      × (floor ≤ℤ pos mark)
unfolding cancel_grace_floor
cancel_grace_floor_covers network block parent mark active le =
    let anchor =
      if is_dispenser_cancel_grace_parent_floor_active network (some block)
      then earlier block parent
      else block in
    let early : anchor ≤ block =
      elim (Bool-cases (is_dispenser_cancel_grace_parent_floor_active network (some block))) [
        | inl with_parent ↦ rw with_parent (earlier-le block parent)
        | inr alone ↦ rw alone (omega arith)
      ] in
    (
      anchor -ℤ dispenser_cancel_grace_seconds,
      rw active refl,
      (sub-le_iff anchor dispenser_cancel_grace_seconds mark).1 (omega arith),
    )

purge_floor_eq :
    (network : Text) (block : ℕ) (floor : ℤ)
    → purge_grace_floor network (some block) ≡ some floor
    → floor ≡ block -ℤ dispenser_cancel_grace_seconds
unfolding purge_grace_floor
purge_floor_eq network block floor h =
    elim (Bool-cases (is_dispenser_purge_grace_active network (some block))) [
      | inr shut ↦ cc (rw shut at h)
      | inl active ↦ let h' = rw active at h in cc
    ]

-- A floor of purged dispensers admits a mark exactly if it is at most the grace before the block.
pub purge_grace_floor_exact :
    (network : Text) (block : ℕ) (floor : ℤ) (mark : ℕ)
    → purge_grace_floor network (some block) ≡ some floor
    → (floor ≤ℤ pos mark) ↔ (block ≤ mark + dispenser_cancel_grace_seconds)
purge_grace_floor_exact network block floor mark h =
    rw (purge_floor_eq network block floor h) (sub-le_iff block dispenser_cancel_grace_seconds mark)

-- Where both floors are set, the cancelled dispensers' is not above the purged ones'.
pub cancel_grace_floor-le-purge :
    (network : Text) (block : ℕ) (parent : BlockTime) (cancelled purged : ℤ)
    → cancel_grace_floor network (some block) parent ≡ some cancelled
    → purge_grace_floor network (some block) ≡ some purged
    → cancelled ≤ℤ purged
cancel_grace_floor-le-purge network block parent cancelled purged h h' =
    let (anchor, le, e) = cancel_anchor network block parent cancelled h in
    rw (e, purge_floor_eq network block purged h')
      (sub-mono anchor block dispenser_cancel_grace_seconds le)
