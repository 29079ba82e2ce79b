-- ===== src/Batch/Split/Laws.antt =====
-- Sub-commands and the string that carries them.
use mathlib.Core.Path.{subst}
use xchain_decoder.Prelude.{
  ◌≡◌, ◌≢◌, sym, ap, ◌∙◌, some, List, [], ◌∷◌, ◌++◌, All, Bool-cases, inl, inr,
}
use xchain_decoder.Prelude.Text.{
  Text, starts_with, starts_with→append, split, split-join, split-IsSplit, Free, join, codes,
}
use xchain_decoder.Batch.Split.{batch_sub_commands, batch_prefix}

-- A non-empty list of commands without ';', written behind `BATCH|0|` and joined by ';', is the list
-- that comes back.
pub batch_sub_commands-join :
    (command : Text) (commands : List Text)
    → All (Free b';') (command ∷ commands)
    → batch_sub_commands (batch_prefix (codes "0") ++ join b';' (command ∷ commands))
      ≡ some (command ∷ commands)
unfolding batch_sub_commands starts_with
batch_sub_commands-join command commands h = rw (split-join b';' command commands h)

rest_commands :
    (rest : Text) (commands : List Text)
    → batch_sub_commands (batch_prefix (codes "0") ++ rest) ≡ some commands
    → commands ≡ split b';' rest
unfolding batch_sub_commands starts_with
rest_commands rest commands h = cc

-- Where there are sub-commands, the string is `BATCH|0|` and their join by ';', so nothing of it is lost or
-- reordered, and no sub-command holds a ';'.
pub batch_sub_commands_exact :
    (decoded_data : Text) (commands : List Text)
    → batch_sub_commands decoded_data ≡ some commands
    → commands ≢ []
    → (decoded_data ≡ batch_prefix (codes "0") ++ join b';' commands) × All (Free b';') commands
unfolding batch_sub_commands
batch_sub_commands_exact decoded_data commands h some_command =
    elim (Bool-cases (starts_with (codes "BATCH|") decoded_data)) [
      | inl batch ↦ elim (Bool-cases (starts_with (batch_prefix (codes "0")) decoded_data)) [
        | inl known ↦
            let (rest, whole) = starts_with→append (batch_prefix (codes "0")) decoded_data known in
            let same =
              rest_commands rest commands
                (subst (λ d. batch_sub_commands d ≡ some commands) whole h) in
            let pieces = split-IsSplit b';' rest in
            rw same
              (whole ∙ ap (λ t. batch_prefix (codes "0") ++ t) (sym pieces.joined), pieces.free)
        | inr unknown ↦ absurd (some_command (cc (rw (batch, unknown) at h)))
      ]
      | inr other ↦ cc (rw other at h)
    ]
