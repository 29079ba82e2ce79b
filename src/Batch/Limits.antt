-- ===== src/Batch/Limits.antt =====
-- src/protocol/indexer_batch_limits.js and src/protocol/action_aliases.js.
use xchain_decoder.Prelude.{ℕ, [], ◌∷◌}
use xchain_decoder.Prelude.Text.{Text, codes}
use xchain_decoder.Prelude.Maps.{TextMap}

abbrev pub command_limit : ℕ
command_limit = 250

abbrev pub action_limits : TextMap ℕ
action_limits = (codes "BATCH", 0) ∷ (codes "ISSUE", 1) ∷ (codes "MINT", 1) ∷ []

abbrev pub gated_action_limits : TextMap ℕ
gated_action_limits = (codes "DEPLOY", 1) ∷ []

abbrev pub child_issue_key : Text
child_issue_key = codes "ISSUE.CHILD"

abbrev pub weight_budget : ℕ
weight_budget = 250

abbrev pub command_weights : TextMap ℕ
command_weights =
    (codes "AIRDROP", 25)
    ∷ (codes "DEPLOY", 30)
    ∷ (codes "DIVIDEND", 25)
    ∷ (codes "EXECUTE", 30)
    ∷ (codes "XEXEC", 30)
    ∷ []

abbrev pub action_aliases : TextMap Text
action_aliases =
    (codes "TRANSFER", codes "SEND")
    ∷ (codes "ADDR", codes "ADDRESS")
    ∷ (codes "DROP", codes "AIRDROP")
    ∷ (codes "CAST", codes "BROADCAST")
    ∷ (codes "MSG", codes "MESSAGE")
    ∷ []
