-- ===== src/Prelude/Maps.antt =====
-- JavaScript `Map`s keyed by strings: association lists in insertion order.
use mathlib.Core.Path.{◌≡◌, refl, subst}
use mathlib.Core.List.{List, [], ◌∷◌}
use mathlib.Core.Option.{Option, none, some}
use mathlib.Core.Logic.{inl, inr}
use native.Mathlib.Omega.{arith}
use xchain_decoder.Prelude.Tests.{if◌then◌else◌, Bool-cases}
use xchain_decoder.Prelude.Lists.{All}
use xchain_decoder.Prelude.Text.{Text, text_eq, text_eq_iff}

abbrev pub TextMap {ℓ} : Type ℓ → Type ℓ
TextMap V = List (Text × V)

module _ {ℓ} {V : Type ℓ} where
  unfoldable pub get : Text → TextMap V → Option V
  get k [] = none
  get k ((j, v) ∷ m) = if text_eq j k then some v else get k m

  -- A key that is there keeps its place.
  unfoldable pub set : Text → V → TextMap V → TextMap V
  set k v [] = (k, v) ∷ []
  set k v ((j, w) ∷ m) = if text_eq j k then (j, v) ∷ m else (j, w) ∷ set k v m

  pub get-set :
      (k j : Text) (v : V) (m : TextMap V)
      → get j (set k v m) ≡ (if text_eq k j then some v else get j m)
  unfolding get set
  get-set k j v [] = refl
  get-set k j v ((i, w) ∷ m) =
      ground (arith, text_eq_iff k j, text_eq_iff i k, text_eq_iff i j, get-set k j v m)

  -- What holds of every value of the map holds of what a lookup finds.
  pub All-get {κ} :
      (P : V → Type κ) (k : Text) (m : TextMap V) {v : V}
      → All (λ e. P e.1) m
      → get k m ≡ some v
      → P v
  unfolding get
  All-get P k [] h e = cc
  All-get P k ((j, w) ∷ m) {v} h e = elim (Bool-cases (text_eq j k)) [
    | inl same ↦
        let found = rw same at e in let same_value : w ≡ v = cc found in subst P same_value h.0
    | inr other ↦ All-get P k m h.1 (rw other at e)
  ]
