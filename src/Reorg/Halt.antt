-- ===== src/Reorg/Halt.antt =====
-- `haltReorg` of src/XChainDecoder/reorg_halt.js: the durable marker of a halted rollback.
use xchain_decoder.Prelude.{suc, Bool, true, false, none, some, if◌then◌else◌}
use xchain_decoder.Reorg.{World, HaltReason, Decoder, Run, return, attempt, modify, ◌>>=◌, ◌>>◌}
use xchain_decoder.Reorg.Store.{mark_reorg_halted}

abbrev pub remember : World → HaltReason → Decoder → Decoder
remember w reason s = record s {
  reorg_halted = true;
  reorg_halt_reason = some reason;
  reorg_halt_at = w.now s.clock;
  reorg_halt_checked_at = w.now (suc s.clock);
  clock = suc (suc s.clock);
}

-- One attempt to write the marker, `false` if it throws.
abbrev pub attempt_marker : World → Run Bool
attempt_marker w = do
  persisted ← attempt (mark_reorg_halted w)
  elim persisted [ none ↦ return false | some answer ↦ return answer ]

abbrev pub record_outcome : Bool → Run (Unit {0})
record_outcome persisted = modify (λ s. record s { reorg_halt_marker_persisted = persisted })

-- At most two attempts.
unfoldable pub halt_reorg : World → HaltReason → Run (Unit {0})
halt_reorg w reason = do
  modify (remember w reason)
  first ← attempt_marker w
  persisted ← if first then return true else attempt_marker w
  record_outcome persisted
