-- ===== src/Batch/Capture/Laws.antt =====
-- What capture sees of a transaction's action string.
use mathlib.Core.Path.{subst}
use xchain_decoder.Prelude.{
  ◌≡◌, ◌≢◌, refl, sym, ap, ◌∙◌, ◌⊎◌, inl, inr, true, false, List, [], ◌∷◌, ◌++◌, map, if◌then◌else◌,
  All, In, here, there, Bool-cases, not-In-nil, arith,
}
use xchain_decoder.Prelude.Text.{Text, Free, starts_with, join, codes}
use xchain_decoder.Prelude.Maps.{All-get}
use xchain_decoder.Activation.{BlockTime}
use xchain_decoder.Batch.Limits.{action_aliases}
use xchain_decoder.Batch.Split.{batch_sub_commands, batch_prefix}
use xchain_decoder.Batch.Split.Laws.{batch_sub_commands-join}
use xchain_decoder.Batch.Names.{
  sub_command_action_name, expand_alias_name, expand_sub_command_alias,
}
use xchain_decoder.Batch.Names.Laws.{
  sub_command_action_name-expand, action_aliases-AreFree, action_aliases-IsCanonical,
  expand_alias_name_idem, expand_alias_name_cases,
}
use xchain_decoder.Batch.Reject.{has_provably_rejected_batch}
use xchain_decoder.Batch.Reject.Verdict.{IsRejected, empty_name, has_provably_rejected_batch_iff}
use xchain_decoder.Batch.Capture.{is_batch_sub_command_capture_active, capture_commands}

-- Below the gate, and for every string that is no BATCH, capture reads the string itself.
pub capture_commands_legacy :
    (decoded_data network : Text) (time : BlockTime)
    → (is_batch_sub_command_capture_active network time ≡ false)
      ⊎ (starts_with (codes "BATCH|") decoded_data ≡ false)
    → capture_commands decoded_data network time ≡ decoded_data ∷ []
unfolding capture_commands batch_sub_commands
capture_commands_legacy decoded_data network time (inl shut) = rw shut
capture_commands_legacy decoded_data network time (inr other) =
    elim (Bool-cases (is_batch_sub_command_capture_active network time)) [
      | inl active ↦ rw (active, other)
      | inr shut ↦ rw shut
    ]

-- Above the gate, a batch of commands without ';' is captured through its commands, each under its
-- canonical name and in their order, or not at all if the batch is rejected.
pub capture_commands-batch :
    (command : Text) (commands : List Text) (network : Text) (time : BlockTime)
    → All (Free b';') (command ∷ commands)
    → is_batch_sub_command_capture_active network time ≡ true
    → capture_commands (batch_prefix (codes "0") ++ join b';' (command ∷ commands)) network time ≡ (
        if has_provably_rejected_batch (command ∷ commands) action_aliases network time
        then []
        else map (λ c. expand_sub_command_alias c action_aliases) (command ∷ commands))
unfolding capture_commands
capture_commands-batch command commands network time free active =
    rw (active, batch_sub_commands-join command commands free)

module _ {ℓ κ} {A : Type ℓ} {B : Type κ} (f : A → B) where
  In-map : (y : B) (xs : List A) → In y (map f xs) → (x : A) × In x xs × (y ≡ f x)
  In-map y [] m = absurd (not-In-nil m)
  In-map y (x ∷ xs) (here e) = (x, here refl, e)
  In-map y (x ∷ xs) (there m) = let (x', m', e) = In-map y xs m in (x', there m', e)

  In-map_of_In : (x : A) (xs : List A) → In x xs → In (f x) (map f xs)
  In-map_of_In x [] m = absurd (not-In-nil m)
  In-map_of_In x (y ∷ ys) (here e) = here (ap f e)
  In-map_of_In x (y ∷ ys) (there m) = there (In-map_of_In x ys m)

values_nonempty : All (λ e. e.1 ≢ []) action_aliases
values_nonempty = ground arith

expand_alias_name_nonempty : (name : Text) → name ≢ [] → expand_alias_name name action_aliases ≢ []
expand_alias_name_nonempty name h = elim (expand_alias_name_cases name action_aliases) [
  | inl same ↦ λ e. h (sym same ∙ e)
  | inr found ↦ All-get (λ v. v ≢ []) name action_aliases values_nonempty found
]

kept_command :
    (c : Text) (commands : List Text) (network : Text) (time : BlockTime)
    → In c (
        if has_provably_rejected_batch commands action_aliases network time
        then []
        else map (λ c. expand_sub_command_alias c action_aliases) commands)
    → (¬ IsRejected commands action_aliases network time)
      × In c (map (λ c. expand_sub_command_alias c action_aliases) commands)
kept_command c commands network time m =
    elim (Bool-cases (has_provably_rejected_batch commands action_aliases network time)) [
      | inl yes' ↦ absurd (not-In-nil (rw yes' at m))
      | inr no' ↦ (
        λ r. cc (no', (has_provably_rejected_batch_iff commands action_aliases network time).1 r),
        rw no' at m,
      )
    ]

-- Above the gate, for a batch of commands without ';': no captured command is without a name, no
-- captured command's name is an alias, and where a command is captured the batch is not rejected.
pub capture_commands_dispatched :
    (command : Text) (commands : List Text) (network : Text) (time : BlockTime) (c : Text)
    → All (Free b';') (command ∷ commands)
    → is_batch_sub_command_capture_active network time ≡ true
    → In c
        (capture_commands (batch_prefix (codes "0") ++ join b';' (command ∷ commands)) network time)
    → (sub_command_action_name c ≢ [])
      × (expand_alias_name (sub_command_action_name c) action_aliases ≡ sub_command_action_name c)
      × (¬ IsRejected (command ∷ commands) action_aliases network time)
capture_commands_dispatched command commands network time c free active m =
    let (kept, m') =
      kept_command c (command ∷ commands) network time
        (subst (In c) (capture_commands-batch command commands network time free active) m) in
    let (c', here', e) =
      In-map (λ c. expand_sub_command_alias c action_aliases) c (command ∷ commands) m' in
    let expanded =
      ap sub_command_action_name e
      ∙ sub_command_action_name-expand c' action_aliases action_aliases-AreFree in
    let named : sub_command_action_name c' ≢ [] = λ empty. kept (
      empty_name (
        subst (λ n. In n (map sub_command_action_name (command ∷ commands))) empty
          (In-map_of_In sub_command_action_name c' (command ∷ commands) here'))) in
    (
      λ empty. expand_alias_name_nonempty (sub_command_action_name c') named (sym expanded ∙ empty),
      ap (λ n. expand_alias_name n action_aliases) expanded
          ∙ expand_alias_name_idem action_aliases (sub_command_action_name c')
              action_aliases-IsCanonical
          ∙ sym expanded,
      kept,
    )
