-- ===== src/Reorg/Quiet/Tip.antt =====
-- Reading the node's tip is quiet.
use xchain_decoder.Prelude.{ℕ, zero, suc, Bool, true, false, Option, none, some}
use xchain_decoder.Prelude.Text.{Text}
use xchain_decoder.Reorg.{Info, World, Run, return}
use xchain_decoder.Reorg.Depth.{text_of, nonempty_text}
use xchain_decoder.Reorg.Tip.{
  verify_chain_genesis, read_reorg_tip, settle_node_reading, refresh_reorg_tip, compare_genesis,
  gated,
}
use xchain_decoder.Prelude.{refl, arith}
use xchain_decoder.Reorg.Quiet.{
  Quiet, quiet, Quiet-bind, Quiet-return, Quiet-ask, Quiet-if, Quiet-modify,
}

Quiet-or_checked :
    (mismatch : Option Text) (m : Run (Option Text))
    → Quiet m
    → Quiet (elim mismatch [ some why ↦ return (some why) | none ↦ m ])
Quiet-or_checked none m q = q
Quiet-or_checked (some why) m q = search quiet

Quiet-compare_genesis : (w : World) (reported : Text) → Quiet (compare_genesis w reported)
Quiet-compare_genesis w reported = Quiet-or_checked _ _ (
    Quiet-bind _ _ (Quiet-modify _ (λ s. (refl, refl, omega arith, refl, λ h. h)))
      (λ done. Quiet-return none))

Quiet-if_reported :
    (w : World) (reported : Option Text)
    → Quiet (elim reported [ none ↦ return {A = Option Text} none | some r ↦ compare_genesis w r ])
Quiet-if_reported w none = search quiet
Quiet-if_reported w (some reported) = Quiet-compare_genesis w reported

pub Quiet-verify_chain_genesis : (w : World) → Quiet (verify_chain_genesis w)
unfolding verify_chain_genesis
Quiet-verify_chain_genesis w =
    Quiet-if _ _ _ (Quiet-return none) (
      Quiet-bind _ _ (Quiet-ask _) (λ answer. Quiet-if_reported w (nonempty_text (text_of answer))))

Quiet-gated :
    (w : World) (node_tip : Option ℕ) (answer : Option (Option Info))
    → Quiet (gated w node_tip answer)
Quiet-gated w node_tip none = search quiet
Quiet-gated w node_tip (some none) = search quiet
Quiet-gated w node_tip (some (some info)) = search (quiet, Quiet-verify_chain_genesis)

pub Quiet-read_reorg_tip : (w : World) (node_tip : Option ℕ) → Quiet (read_reorg_tip w node_tip)
unfolding read_reorg_tip
Quiet-read_reorg_tip w node_tip = search (quiet, Quiet-gated)

module _ {A : Type 0} (same : A → A → Bool) where
  Quiet-if_agreed :
      (n : A) (b : Bool) (m : Run (Option A))
      → Quiet m
      → Quiet (elim b [ true ↦ return (some n) | false ↦ m ])
  Quiet-if_agreed n true m q = search quiet
  Quiet-if_agreed n false m q = q

  Quiet-if_read :
      (next : Option A) (previous : A) (m : A → Run (Option A))
      → ((n : A) → Quiet (m n))
      → Quiet (elim next [
        | none ↦ return {A = Option A} none
        | some n ↦ elim (same n previous) [ true ↦ return (some n) | false ↦ m n ]
      ])
  Quiet-if_read none previous m q = search quiet
  Quiet-if_read (some n) previous m q = Quiet-if_agreed n (same n previous) (m n) (q n)

  pub Quiet-settle_node_reading :
      (read_once : Run (Option A)) (reads : ℕ) (previous : A)
      → Quiet read_once
      → Quiet (settle_node_reading same read_once reads previous)
  unfolding settle_node_reading
  Quiet-settle_node_reading read_once zero previous q = search quiet
  Quiet-settle_node_reading read_once (suc reads) previous q = Quiet-bind _ _ q (λ next.
      Quiet-if_read next previous (settle_node_reading same read_once reads)
        (λ n. Quiet-settle_node_reading read_once reads n q))

pub Quiet-refresh_reorg_tip :
    (w : World) (node_tip : Option ℕ) → Quiet (refresh_reorg_tip w node_tip)
unfolding refresh_reorg_tip
Quiet-refresh_reorg_tip w node_tip = search (quiet, Quiet-read_reorg_tip, Quiet-settle_node_reading)
