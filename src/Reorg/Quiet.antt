-- ===== src/Reorg/Quiet.antt =====
-- Code that touches no stored block: only the clock, the caches and the halt marker move.
pub mod Depth
pub mod Tip
use mathlib.Core.Path.{subst}
use xchain_decoder.Prelude.{
  ℕ, zero, suc, ◌≤◌, ◌≡◌, refl, ◌∙◌, Bool, true, false, Option, none, some, List, Result, err, ok,
  arith, if◌then◌else◌,
}
use xchain_decoder.Reorg.{
  Block, World, Written, written, duplicated, not_written, Proof, proven, unproven, HaltReason,
  Info, Why, Decoder, Run, Thrown, return, throw, ask, attempt, modify, get_state, follow,
  settle_result, ◌>>=◌, ◌>>◌, Header, Reading,
}
use xchain_decoder.Reorg.Store.{
  query, reorg_rows, get_last_block_index, get_block_by_index, read_reorg_halt_state, HaltState,
  not_halted, halted, unaudited_clear, is_reorg_halted, mark_reorg_halted, write_halt, confirm,
  insert_halt, counted, count_reorg_deletes_above_tip, heights_above_tip,
}
use xchain_decoder.Reorg.Halt.{halt_reorg, attempt_marker, record_outcome, remember}
use xchain_decoder.Reorg.ReorgedAway.{
  prove_reorged_away, cached_refusal, ask_again, prove_fork_reorged_away,
}
use xchain_decoder.Reorg.Triple.{Post, Keeps, bind_rule}

abbrev pub IsQuiet : Decoder → Decoder → Type 0
IsQuiet s u =
    (u.blocks ≡ s.blocks)
    × (u.blocks_deleted ≡ s.blocks_deleted)
    × (s.clock ≤ u.clock)
    × (reorg_rows u.events ≡ reorg_rows s.events)
    × (u.halt_error ≡ none → s.halt_error ≡ none)

IsQuiet_refl : (s : Decoder) → IsQuiet s s
IsQuiet_refl s = (refl, refl, omega arith, refl, λ h. h)

IsQuiet_trans : (s u v : Decoder) → IsQuiet s u → IsQuiet u v → IsQuiet s v
IsQuiet_trans s u v (b, d, c, r, h) (b2, d2, c2, r2, h2) =
    (b2 ∙ b, d2 ∙ d, omega arith, r2 ∙ r, λ e. h (h2 e))

-- A property that only quiet changes cannot break.
abbrev pub IsStable : (Decoder → Type 0) → Type 0
IsStable P = (s u : Decoder) → IsQuiet s u → P s → P u

module _ {A : Type 0} where
  pub record Quiet (m : Run A) : Type 0 where
    pub run : (s : Decoder) → Post (λ a. IsQuiet s) (IsQuiet s) (m s)

  Post-IsQuiet_trans :
      (s u : Decoder) (r : Result Thrown A × Decoder)
      → IsQuiet s u
      → Post (λ a. IsQuiet u) (IsQuiet u) r
      → Post (λ a. IsQuiet s) (IsQuiet s) r
  Post-IsQuiet_trans s u (err e, v) q h = IsQuiet_trans s u v q h
  Post-IsQuiet_trans s u (ok a, v) q h = IsQuiet_trans s u v q h

  pub Quiet-return : (a : A) → Quiet (return a)
  unfolding return
  Quiet-return a = record { run = λ s. IsQuiet_refl s }

  pub Quiet-ask : (answer : ℕ → A) → Quiet (ask answer)
  unfolding ask
  Quiet-ask answer = record { run = λ s. (refl, refl, omega arith, refl, λ h. h) }

  pub Quiet-if : (b : Bool) (m n : Run A) → Quiet m → Quiet n → Quiet (if b then m else n)
  Quiet-if true m n p q = p
  Quiet-if false m n p q = q

  settled :
      (P Q : Decoder → Type 0) (r : Result Thrown A × Decoder)
      → ((u : Decoder) → Q u → P u)
      → Post (λ a. Q) Q r
      → Post (λ a. P) P r
  settled P Q (err e, u) f h = f u h
  settled P Q (ok a, u) f h = f u h

  pub Quiet-Keeps : (P : Decoder → Type 0) (m : Run A) → IsStable P → Quiet m → Keeps P m
  Quiet-Keeps P m stable q s p = settled P (IsQuiet s) (m s) (λ u t. stable s u t p) (q.run s)

pub Quiet-throw : {A : Type 0} (e : Thrown) → Quiet (throw {A = A} e)
unfolding throw
Quiet-throw e = record { run = λ s. IsQuiet_refl s }

module _ {A : Type 0} where
  attempted :
      (s : Decoder) (r : Result Thrown A × Decoder)
      → Post (λ a. IsQuiet s) (IsQuiet s) r
      → Post (λ a. IsQuiet s) (IsQuiet s) (settle_result r)
  attempted s (err e, v) h = h
  attempted s (ok a, v) h = h

  pub Quiet-attempt : (m : Run A) → Quiet m → Quiet (attempt m)
  unfolding attempt
  Quiet-attempt m q = record { run = λ s. attempted s (m s) (q.run s) }

module _ {A B : Type 0} where
  followed :
      (s : Decoder) (r : Result Thrown A × Decoder) (f : A → Run B)
      → Post (λ a. IsQuiet s) (IsQuiet s) r
      → ((a : A) → Quiet (f a))
      → Post (λ a. IsQuiet s) (IsQuiet s) (follow r f)
  followed s (err e, v) f h k = h
  followed s (ok a, v) f h k = Post-IsQuiet_trans s v (f a v) h ((k a).run v)

  pub Quiet-bind : (m : Run A) (f : A → Run B) → Quiet m → ((a : A) → Quiet (f a)) → Quiet (m >>= f)
  unfolding ◌>>=◌
  Quiet-bind m f q k = record { run = λ s. followed s (m s) f (q.run s) k }

pub Quiet-get_state : Quiet get_state
unfolding get_state
Quiet-get_state = record { run = λ s. IsQuiet_refl s }

pub Quiet-modify : (f : Decoder → Decoder) → ((s : Decoder) → IsQuiet s (f s)) → Quiet (modify f)
unfolding modify
Quiet-modify f h = record { run = h }

pub ruleset quiet =
    (Quiet-bind, Quiet-return, Quiet-ask, Quiet-throw, Quiet-get_state, Quiet-attempt, Quiet-if)

pub Quiet-query : {A : Type 0} (w : World) (q : Decoder → A) → Quiet (query w q)
Quiet-query w q = search quiet

pub Quiet-get_last_block_index : (w : World) → Quiet (get_last_block_index w)
unfolding get_last_block_index
Quiet-get_last_block_index w = Quiet-query w _

pub Quiet-get_block_by_index : (w : World) (index : Option ℕ) → Quiet (get_block_by_index w index)
unfolding get_block_by_index
Quiet-get_block_by_index w index = Quiet-query w _

pub Quiet-read_reorg_halt_state : (w : World) → Quiet (read_reorg_halt_state w)
unfolding read_reorg_halt_state
Quiet-read_reorg_halt_state w = Quiet-query w _

pub Quiet-is_reorg_halted : (w : World) → Quiet (is_reorg_halted w)
unfolding is_reorg_halted
Quiet-is_reorg_halted w = search (quiet, Quiet-read_reorg_halt_state)

Quiet-counted : (heights : Option (List ℕ)) → Quiet (counted heights)
Quiet-counted none = search quiet
Quiet-counted (some heights) = search quiet

pub Quiet-count_reorg_deletes_above_tip : (w : World) → Quiet (count_reorg_deletes_above_tip w)
unfolding count_reorg_deletes_above_tip
Quiet-count_reorg_deletes_above_tip w =
    search (quiet, Quiet-get_last_block_index, Quiet-query, Quiet-counted)

IsQuiet-insert_halt : (outcome : Written) (s : Decoder) → IsQuiet s (insert_halt outcome s)
IsQuiet-insert_halt written s = (refl, refl, omega arith, refl, λ h. h)
IsQuiet-insert_halt duplicated s = IsQuiet_refl s
IsQuiet-insert_halt not_written s = IsQuiet_refl s

pub Quiet-or_false :
    (answer : Option Bool) → Quiet (elim answer [ none ↦ return false | some found ↦ return found ])
Quiet-or_false none = search quiet
Quiet-or_false (some found) = search quiet

Quiet-confirm : (w : World) (outcome : Written) → Quiet (confirm w outcome)
Quiet-confirm w written = search (quiet, Quiet-or_false, Quiet-is_reorg_halted)
Quiet-confirm w duplicated = search (quiet, Quiet-or_false, Quiet-is_reorg_halted)
Quiet-confirm w not_written = search quiet

Quiet-write_halt : (w : World) (live : HaltState) → Quiet (write_halt w live)
Quiet-write_halt w halted = search quiet
Quiet-write_halt w not_halted = search (quiet, Quiet-confirm, Quiet-modify, IsQuiet-insert_halt)
Quiet-write_halt w unaudited_clear =
    search (quiet, Quiet-confirm, Quiet-modify, IsQuiet-insert_halt)

pub Quiet-mark_reorg_halted : (w : World) → Quiet (mark_reorg_halted w)
unfolding mark_reorg_halted
Quiet-mark_reorg_halted w = search (quiet, Quiet-read_reorg_halt_state, Quiet-write_halt)

IsQuiet-remember : (w : World) (reason : HaltReason) (s : Decoder) → IsQuiet s (remember w reason s)
IsQuiet-remember w reason s = (refl, refl, omega arith, refl, λ h. h)

Quiet-record_outcome : (persisted : Bool) → Quiet (record_outcome persisted)
Quiet-record_outcome persisted = Quiet-modify _ (λ s. (refl, refl, omega arith, refl, λ h. h))

Quiet-attempt_marker : (w : World) → Quiet (attempt_marker w)
Quiet-attempt_marker w = search (quiet, Quiet-mark_reorg_halted, Quiet-or_false)

pub Quiet-halt_reorg : (w : World) (reason : HaltReason) → Quiet (halt_reorg w reason)
unfolding halt_reorg
Quiet-halt_reorg w reason =
    search (quiet, Quiet-attempt_marker, Quiet-record_outcome, Quiet-modify, IsQuiet-remember)

pub Quiet-prove_reorged_away : (w : World) (block : Block) → Quiet (prove_reorged_away w block)
unfolding prove_reorged_away
Quiet-prove_reorged_away w block = search quiet

pub Quiet-ask_again :
    (w : World) (block : Block) (node_tip : Option ℕ) (now : ℕ)
    → Quiet (ask_again w block node_tip now)
Quiet-ask_again w block node_tip now = Quiet-bind _ _ (Quiet-prove_reorged_away w block) (λ result.
    Quiet-bind _ _ (Quiet-modify _ (λ s. (refl, refl, omega arith, refl, λ h. h)))
      (λ done. Quiet-return result))

Quiet-from_cache :
    (cached : Option Why) (m : Run Proof)
    → Quiet m
    → Quiet (elim cached [ some why ↦ return (unproven why) | none ↦ m ])
Quiet-from_cache none m q = q
Quiet-from_cache (some why) m q = search quiet

pub Quiet-prove_fork_reorged_away :
    (w : World) (block : Block) (node_tip : Option ℕ)
    → Quiet (prove_fork_reorged_away w block node_tip)
unfolding prove_fork_reorged_away
Quiet-prove_fork_reorged_away w block node_tip = Quiet-bind _ _ (Quiet-ask w.now) (λ now.
    Quiet-bind _ _ Quiet-get_state
      (λ s. Quiet-from_cache _ _ (Quiet-ask_again w block node_tip now)))
