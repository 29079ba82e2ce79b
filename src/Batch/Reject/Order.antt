-- ===== src/Batch/Reject/Order.antt =====
-- `hasProvablyRejectedBatch` and the order of the commands.
use mathlib.Core.Bool.{Bool-set}
use mathlib.Core.List.{Perm, Permᴰ}
use mathlib.Core.Logic.{∥∥₁_elim}
use xchain_decoder.Prelude.{◌≡◌, refl, ap, ◌∙◌, List, ◌∷◌, length, arith}
use xchain_decoder.Prelude.Text.{Text, codes}
use xchain_decoder.Prelude.Maps.{TextMap}
use xchain_decoder.Activation.{BlockTime}
use xchain_decoder.Batch.Names.{has_provably_rejected_sub_command}
use xchain_decoder.Batch.Keys.{max_identical_mint_ticks}
use xchain_decoder.Batch.Keys.Mints.{count, max_identical_mint_ticks_max}
use xchain_decoder.Batch.Reject.{batch_cost_weight, mint_ticks, has_provably_rejected_batch}
use xchain_decoder.Batch.Reject.Tally.{limit_keys}
use xchain_decoder.Batch.Reject.Verdict.{exceeding, exceeding_eq}

-- A function of lists that neither a tail's order nor the order of the first two can change.
module _ {ℓ κ} {A : Type ℓ} {B : Type κ} (f : List A → B)
    (under : (x : A) (xs ys : List A) → f xs ≡ f ys → f (x ∷ xs) ≡ f (x ∷ ys))
    (first_two : (x y : A) (xs : List A) → f (x ∷ y ∷ xs) ≡ f (y ∷ x ∷ xs)) where
  permᴰ_invariant : {xs ys : List A} → Permᴰ xs ys → f xs ≡ f ys
  permᴰ_invariant Permᴰ.nil = refl
  permᴰ_invariant (Permᴰ.cons {a} {b} {l₁} {l₂} e d) =
      under a l₁ l₂ (permᴰ_invariant d) ∙ ap (λ x. f (x ∷ l₂)) e
  permᴰ_invariant (Permᴰ.swap {a} {b} {a'} {b'} {l} e e') =
      first_two a b l ∙ ap (λ x. f (x ∷ a ∷ l)) e' ∙ ap (λ x. f (a' ∷ x ∷ l)) e
  permᴰ_invariant (Permᴰ.trans d d') = permᴰ_invariant d ∙ permᴰ_invariant d'

module _ (aliases : TextMap Text) {xs ys : List Text} (d : Permᴰ xs ys) where
  length-perm : length xs ≡ length ys
  length-perm = permᴰ_invariant (λ l. length l) (λ x l r e. omega (arith, e)) (λ x y l. refl) d

  weight-perm : batch_cost_weight xs aliases ≡ batch_cost_weight ys aliases
  unfolding batch_cost_weight
  weight-perm =
      permᴰ_invariant (λ l. batch_cost_weight l aliases) (λ x l r e. omega (arith, e))
        (λ x y l. omega arith) d

  names-perm : has_provably_rejected_sub_command xs ≡ has_provably_rejected_sub_command ys
  unfolding has_provably_rejected_sub_command
  names-perm =
      permᴰ_invariant (λ l. has_provably_rejected_sub_command l) (λ x l r e. ground (arith, e))
        (λ x y l. ground arith) d

  keys-perm : (k : Text) → count k (limit_keys xs aliases) ≡ count k (limit_keys ys aliases)
  unfolding count
  keys-perm k =
      permᴰ_invariant (λ l. count k (limit_keys l aliases)) (λ x l r e. omega (arith, e))
        (λ x y l. omega arith) d

  mints-perm : (k : Text) → count k (mint_ticks xs aliases) ≡ count k (mint_ticks ys aliases)
  unfolding mint_ticks count
  mints-perm k =
      permᴰ_invariant (λ l. count k (mint_ticks l aliases)) (λ x l r e. ground (arith, e))
        (λ x y l. ground arith) d

  most-perm :
      max_identical_mint_ticks (mint_ticks xs aliases)
      ≡ max_identical_mint_ticks (mint_ticks ys aliases)
  most-perm =
      let (upper, (k, at_k)) = max_identical_mint_ticks_max (mint_ticks xs aliases) in
      let (upper', (k', at_k')) = max_identical_mint_ticks_max (mint_ticks ys aliases) in
      omega (arith, at_k, at_k', upper k', upper' k, mints-perm k, mints-perm k')

  exceeding-perm : exceeding xs aliases ≡ exceeding ys aliases
  exceeding-perm = rw (
    exceeding_eq,
    exceeding_eq,
    most-perm,
    keys-perm (codes "BATCH"),
    keys-perm (codes "ISSUE"),
    keys-perm (codes "DEPLOY"),
  )

  verdict-perm :
      (network : Text) (time : BlockTime)
      → has_provably_rejected_batch xs aliases network time
        ≡ has_provably_rejected_batch ys aliases network time
  unfolding has_provably_rejected_batch
  verdict-perm network time = rw (length-perm, names-perm, exceeding-perm, weight-perm)

-- Two batches with the same commands in another order have the same verdict.
pub has_provably_rejected_batch-Perm :
    (commands commands' : List Text) (aliases : TextMap Text) (network : Text) (time : BlockTime)
    → Perm commands commands'
    → has_provably_rejected_batch commands aliases network time
      ≡ has_provably_rejected_batch commands' aliases network time
has_provably_rejected_batch-Perm commands commands' aliases network time p =
    ∥∥₁_elim p (Bool-set _ _) (λ d. verdict-perm aliases d network time)
