-- ===== src/Batch/Reject/Tally.antt =====
-- The tally of `hasProvablyRejectedBatch` against plain counting.
use xchain_decoder.Prelude.{ℕ, ◌+◌, ◌≡◌, List, [], ◌∷◌, map, arith}
use xchain_decoder.Prelude.Text.{Text, text_eq_iff}
use xchain_decoder.Prelude.Maps.{TextMap, get, set}
use xchain_decoder.Batch.Keys.{sub_command_limit_key, or_zero}
use xchain_decoder.Batch.Keys.Mints.{count, tally-set}
use xchain_decoder.Batch.Reject.{tally_keys}

abbrev pub limit_keys : List Text → TextMap Text → List Text
limit_keys commands aliases = map (λ command. sub_command_limit_key command aliases) commands

tally_keys-count_from :
    (commands : List Text) (aliases : TextMap Text) (tally : TextMap ℕ) (k : Text)
    → or_zero (get k (tally_keys commands aliases tally))
      ≡ or_zero (get k tally) + count k (limit_keys commands aliases)
unfolding tally_keys count
tally_keys-count_from [] aliases tally k = omega arith
tally_keys-count_from (command ∷ commands) aliases tally k =
    let key = sub_command_limit_key command aliases in
    let n = or_zero (get key tally) + 1 in
    ground (
      arith,
      tally_keys-count_from commands aliases (set key n tally) k,
      tally-set key k n tally,
      text_eq_iff key k,
    )

pub tally_keys-count :
    (commands : List Text) (aliases : TextMap Text) (k : Text)
    → or_zero (get k (tally_keys commands aliases [])) ≡ count k (limit_keys commands aliases)
unfolding get
tally_keys-count commands aliases k = omega (arith, tally_keys-count_from commands aliases [] k)
