-- ===== src/Reorg/Store.antt =====
-- src/db/blocks.js and src/db/reorg_halt.js: the reads and writes of `blocks` and `events`. A read that
-- throws has used up its retries; a delete that throws has rolled back.
use xchain_decoder.Prelude.{
  ℕ, Bool, true, false, not, ◌&&◌, Option, none, some, List, [], ◌∷◌, ◌==◌, ltb, leb, max, length,
  take, if◌then◌else◌, any,
}
use xchain_decoder.Prelude.Text.{Text}
use xchain_decoder.Batch.Keys.{trim}
use xchain_decoder.Reorg.{
  Block, Event, reorg, reorg_halt, reorg_halt_cleared, Written, not_written, World, fault, Decoder,
  Run, return, throw, ask, attempt, get_state, modify, ◌>>=◌, ◌>>◌,
}

-- `SELECT MAX(block_index)`, `none` for the code's -1.
unfoldable pub max_height : List Block → Option ℕ
max_height [] = none
max_height (b ∷ bs) = elim (max_height bs) [
  | none ↦ some b.block_index
  | some h ↦ some (max b.block_index h)
]

unfoldable pub find_block : ℕ → List Block → Option Block
find_block index [] = none
find_block index (b ∷ bs) =
    let rest = find_block index bs in if b.block_index == index then some b else rest

unfoldable pub remove_block : ℕ → List Block → List Block
remove_block index [] = []
remove_block index (b ∷ bs) =
    let rest = remove_block index bs in if b.block_index == index then rest else b ∷ rest

-- A read of the tables, which may throw.
abbrev pub query : {A : Type 0} → World → (Decoder → A) → Run A
query w q = do fails ← ask w.read_fails; s ← get_state; if fails then throw fault else return (q s)

unfoldable pub get_last_block_index : World → Run (Option ℕ)
unfolding max_height
get_last_block_index w = query w (λ s. max_height s.blocks)

abbrev pub find_at : Option ℕ → List Block → Option Block
find_at none blocks = none
find_at (some index) blocks = find_block index blocks

unfoldable pub get_block_by_index : World → Option ℕ → Run (Option Block)
get_block_by_index w index = query w (λ s. find_at index s.blocks)

-- The marker is committed with the delete, and left out for a null hash.
abbrev pub mark : Block → List Event → List Event
mark b events = elim b.block_hash [
  | none ↦ events
  | some h ↦ reorg (some (b.block_index ∷ [])) ∷ events
]

abbrev pub without_block : Block → Decoder → Decoder
without_block b s = record s {
  blocks = remove_block b.block_index s.blocks;
  events = mark b s.events;
}

unfoldable pub delete_block_by_index : World → Block → Run (Unit {0})
delete_block_by_index w b = do
  fails ← ask w.write_fails
  if fails then throw fault else modify (without_block b)

pub data HaltState : Type 0 where
  not_halted : HaltState
  halted : HaltState
  unaudited_clear : HaltState

unfoldable pub is_audited_clear : Option Text → Bool
is_audited_clear none = false
is_audited_clear (some reason) = leb 8 (length (trim reason))

-- The newest of the halt rows and of the clears decides.
unfoldable pub halt_state : List Event → HaltState
unfolding is_audited_clear
halt_state [] = not_halted
halt_state (reorg heights ∷ events) = halt_state events
halt_state (reorg_halt ∷ events) = halted
halt_state (reorg_halt_cleared reason ∷ events) =
    if is_audited_clear reason then not_halted else unaudited_clear

unfoldable pub read_reorg_halt_state : World → Run HaltState
read_reorg_halt_state w = query w (λ s. halt_state s.events)

abbrev pub is_halted : HaltState → Bool
is_halted not_halted = false
is_halted _ = true

unfoldable pub is_reorg_halted : World → Run Bool
is_reorg_halted w = do state ← read_reorg_halt_state w; return (is_halted state)

-- The REORG rows, newest first.
abbrev pub reorg_rows : List Event → List (Option (List ℕ))
reorg_rows [] = []
reorg_rows (reorg heights ∷ events) = heights ∷ reorg_rows events
reorg_rows (_ ∷ events) = reorg_rows events

abbrev pub above : Option ℕ → ℕ → Bool
above none height = true
above (some tip) height = ltb tip height

-- `heightsAboveTip.add`
abbrev pub add : Option ℕ → ℕ → List ℕ → List ℕ
add tip height heights =
    if above tip height && not (any (λ h. h == height) heights) then height ∷ heights else heights

abbrev pub add_all : Option ℕ → List ℕ → List ℕ → List ℕ
add_all tip [] heights = heights
add_all tip (h ∷ hs) heights = add_all tip hs (add tip h heights)

-- `none` as soon as a row cannot be read.
unfoldable pub heights_above_tip : Option ℕ → List (Option (List ℕ)) → List ℕ → Option (List ℕ)
heights_above_tip tip [] heights = some heights
heights_above_tip tip (none ∷ rows) heights = none
heights_above_tip tip (some payload ∷ rows) heights =
    heights_above_tip tip rows (add_all tip payload heights)

abbrev pub scan_limit : ℕ
scan_limit = 10000

abbrev pub counted : Option (List ℕ) → Run ℕ
counted none = throw fault
counted (some heights) = return (length heights)

unfoldable pub count_reorg_deletes_above_tip : World → Run ℕ
count_reorg_deletes_above_tip w = do
  tip ← get_last_block_index w
  rows ← query w (λ s. take scan_limit (reorg_rows s.events))
  counted (heights_above_tip tip rows [])

abbrev pub insert_halt : Written → Decoder → Decoder
insert_halt Written.written s = record s { events = reorg_halt ∷ s.events }
insert_halt _ s = s

abbrev pub confirm : World → Written → Run Bool
confirm w not_written = return false
confirm w _ = do
  live ← attempt (is_reorg_halted w)
  elim live [ none ↦ return false | some found ↦ return found ]

abbrev pub write_halt : World → HaltState → Run Bool
write_halt w halted = return true
write_halt w _ = do outcome ← ask w.insert_event; modify (insert_halt outcome); confirm w outcome

unfoldable pub mark_reorg_halted : World → Run Bool
mark_reorg_halted w = do live ← read_reorg_halt_state w; write_halt w live
