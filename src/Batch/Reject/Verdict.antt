-- ===== src/Batch/Reject/Verdict.antt =====
-- `hasProvablyRejectedBatch` against the reasons for a rejection.
use xchain_decoder.Prelude.{
  ℕ, ◌≤◌, ◌<◌, ◌≡◌, ◌↔◌, ◌⊎◌, inl, inr, Bool, true, false, ◌||◌, ◌&&◌, List, [], ◌∷◌, map, ltb,
  if◌then◌else◌, length, any, In, here, there, not-In-nil, arith, tests, Bool-cases, ltb→lt, lt→ltb,
  sym, ◌∙◌,
}
use xchain_decoder.Prelude.Text.{Text, text_eq, text_eq_iff, codes}
use xchain_decoder.Prelude.Maps.{TextMap}
use xchain_decoder.Activation.{BlockTime}
use xchain_decoder.Batch.Limits.{command_limit, weight_budget}
use xchain_decoder.Batch.Names.{sub_command_action_name, has_provably_rejected_sub_command}
use xchain_decoder.Batch.Keys.{max_identical_mint_ticks}
use xchain_decoder.Batch.Keys.Mints.{count, max_identical_mint_ticks_max}
use xchain_decoder.Batch.Reject.{
  is_batch_cost_weighting_active, batch_cost_weight, mint_ticks, has_provably_rejected_batch, caps,
  exceeds, tally_keys,
}
use xchain_decoder.Batch.Reject.Tally.{limit_keys, tally_keys-count}

-- The reasons, in terms of the command list.
pub data IsRejected (commands : List Text) (aliases : TextMap Text) (network : Text)
    (time : BlockTime) : Type 0 where
  too_many :
      (if is_batch_cost_weighting_active network time then weight_budget else command_limit)
        < length commands
      → IsRejected commands aliases network time
  empty_name :
      In [] (map sub_command_action_name commands) → IsRejected commands aliases network time
  nested_batch :
      1 ≤ count (codes "BATCH") (limit_keys commands aliases)
      → IsRejected commands aliases network time
  two_issues :
      2 ≤ count (codes "ISSUE") (limit_keys commands aliases)
      → IsRejected commands aliases network time
  two_deploys :
      2 ≤ count (codes "DEPLOY") (limit_keys commands aliases)
      → IsRejected commands aliases network time
  two_mints :
      (tick : Text)
      → 2 ≤ count tick (mint_ticks commands aliases)
      → IsRejected commands aliases network time
  too_heavy :
      is_batch_cost_weighting_active network time ≡ true
      → weight_budget < batch_cost_weight commands aliases
      → IsRejected commands aliases network time

empty_name→In :
    (commands : List Text)
    → has_provably_rejected_sub_command commands ≡ true
    → In [] (map sub_command_action_name commands)
unfolding has_provably_rejected_sub_command
empty_name→In [] h = cc
empty_name→In (c ∷ cs) h = elim (Bool-cases (text_eq (sub_command_action_name c) [])) [
  | inl empty ↦ here (sym ((text_eq_iff _ _).0 empty))
  | inr named ↦ there (empty_name→In cs (rw named at h))
]

In→empty_name :
    (commands : List Text)
    → In [] (map sub_command_action_name commands)
    → has_provably_rejected_sub_command commands ≡ true
unfolding has_provably_rejected_sub_command
In→empty_name [] m = absurd (not-In-nil m)
In→empty_name (c ∷ cs) (here e) = rw ((text_eq_iff (sub_command_action_name c) []).1 (sym e))
In→empty_name (c ∷ cs) (there m) = grind (arith, In→empty_name cs m)

or_true : (a b : Bool) → (a || b) ≡ true → (a ≡ true) ⊎ (b ≡ true)
or_true a b h = ground arith

and_true : (a b : Bool) → (a && b) ≡ true → (a ≡ true) × (b ≡ true)
and_true a b h = ground arith

module _ (commands : List Text) (aliases : TextMap Text) where
  abbrev pub exceeding : Bool
  exceeding = any (exceeds (tally_keys commands aliases []) (mint_ticks commands aliases)) caps

  -- The scan of the cap table, on the counts.
  pub exceeding_eq : exceeding ≡ (
      ltb 0 (count (codes "BATCH") (limit_keys commands aliases))
      || (ltb 1 (count (codes "ISSUE") (limit_keys commands aliases))
          || (ltb 1 (max_identical_mint_ticks (mint_ticks commands aliases))
              || (ltb 1 (count (codes "DEPLOY") (limit_keys commands aliases)) || false))))
  unfolding exceeds text_eq
  exceeding_eq = rw (
    tally_keys-count commands aliases (codes "BATCH"),
    tally_keys-count commands aliases (codes "ISSUE"),
    tally_keys-count commands aliases (codes "DEPLOY"),
  )

module _ (commands : List Text) (aliases : TextMap Text) (network : Text) (time : BlockTime) where
  exceeding→IsRejected :
      exceeding commands aliases ≡ true → IsRejected commands aliases network time
  exceeding→IsRejected h =
      let batches = count (codes "BATCH") (limit_keys commands aliases) in
      let issues = count (codes "ISSUE") (limit_keys commands aliases) in
      let deploys = count (codes "DEPLOY") (limit_keys commands aliases) in
      let mints = max_identical_mint_ticks (mint_ticks commands aliases) in
      let (tick, most) = (max_identical_mint_ticks_max (mint_ticks commands aliases)).1 in
      elim (or_true (ltb 0 batches) _ (sym (exceeding_eq commands aliases) ∙ h)) [
        | inl batch ↦ nested_batch (ltb→lt 0 batches batch)
        | inr h' ↦ elim (or_true (ltb 1 issues) _ h') [
          | inl issue ↦ two_issues (ltb→lt 1 issues issue)
          | inr h'' ↦ elim (or_true (ltb 1 mints) _ h'') [
            | inl mint ↦ two_mints tick (omega (tests, most))
            | inr h''' ↦ two_deploys (ground arith)
          ]
        ]
      ]

  abbrev limit : ℕ
  limit = if is_batch_cost_weighting_active network time then weight_budget else command_limit

  rejected→IsRejected :
      has_provably_rejected_batch commands aliases network time ≡ true
      → IsRejected commands aliases network time
  unfolding has_provably_rejected_batch
  rejected→IsRejected h =
      let long = ltb limit (length commands) in
      let empty = has_provably_rejected_sub_command commands in
      let over = exceeding commands aliases in
      let heavy =
        is_batch_cost_weighting_active network time
        && ltb weight_budget (batch_cost_weight commands aliases) in
      elim (or_true (long || empty || over) heavy h) [
        | inl h' ↦ elim (or_true (long || empty) over h') [
          | inl h'' ↦ elim (or_true long empty h'') [
            | inl is_long ↦ too_many (ltb→lt limit (length commands) is_long)
            | inr is_empty ↦ empty_name (empty_name→In commands is_empty)
          ]
          | inr is_over ↦ exceeding→IsRejected is_over
        ]
        | inr is_heavy ↦ too_heavy (and_true _ _ is_heavy).0 (ltb→lt _ _ (and_true _ _ is_heavy).1)
      ]

  IsRejected→rejected :
      IsRejected commands aliases network time
      → has_provably_rejected_batch commands aliases network time ≡ true
  unfolding has_provably_rejected_batch
  IsRejected→rejected (too_many h) = ground (arith, lt→ltb limit (length commands) h)
  IsRejected→rejected (empty_name h) = ground (arith, In→empty_name commands h)
  IsRejected→rejected (nested_batch h) = ground (arith, exceeding_eq commands aliases, lt→ltb 0 _ h)
  IsRejected→rejected (two_issues h) = ground (arith, exceeding_eq commands aliases, lt→ltb 1 _ h)
  IsRejected→rejected (two_deploys h) = ground (arith, exceeding_eq commands aliases, lt→ltb 1 _ h)
  IsRejected→rejected (two_mints tick h) =
      let most : 1 < max_identical_mint_ticks (mint_ticks commands aliases) =
        omega (arith, (max_identical_mint_ticks_max (mint_ticks commands aliases)).0 tick) in
      ground (arith, exceeding_eq commands aliases, lt→ltb 1 _ most)
  IsRejected→rejected (too_heavy active h) =
      ground (arith, lt→ltb weight_budget (batch_cost_weight commands aliases) h)

  -- A batch is rejected exactly for one of the reasons: too many commands, a command with an empty name,
  -- a nested BATCH, two top-level ISSUEs, two DEPLOYs, two MINTs of one literal tick, or, while
  -- weights are in force, a weight over the budget.
  pub has_provably_rejected_batch_iff :
      (has_provably_rejected_batch commands aliases network time ≡ true)
      ↔ IsRejected commands aliases network time
  has_provably_rejected_batch_iff = (rejected→IsRejected, IsRejected→rejected)
