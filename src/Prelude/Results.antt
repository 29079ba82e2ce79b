-- ===== src/Prelude/Results.antt =====
-- Code that may throw returns a `Result`; `Thrown` lists what it throws.
use mathlib.Core.Path.{◌≡◌, refl}

pub data Result {ℓ κ} (Thrown : Type ℓ) (Value : Type κ) : Type (ℓ ⊔ κ) where
  err : Thrown → Result Thrown Value
  ok : Value → Result Thrown Value

infixl 4 ◌>>=◌ ◌>>◌
abbrev pub ◌>>=◌ {ℓ κ μ} :
    {Thrown : Type ℓ} {Value : Type κ} {Next : Type μ}
    → Result Thrown Value
    → (Value → Result Thrown Next)
    → Result Thrown Next
err thrown >>= continue = err thrown
ok value >>= continue = continue value

abbrev pub ◌>>◌ {ℓ κ} :
    {Thrown : Type ℓ} {Next : Type κ}
    → Result Thrown (Unit {0})
    → Result Thrown Next
    → Result Thrown Next
first >> second = first >>= λ done. second

-- A chain that returns a value has returned one at each step.
pub >>=-eq-ok {ℓ κ μ} :
    {Thrown : Type ℓ} {Value : Type κ} {Next : Type μ} (m : Result Thrown Value)
    (f : Value → Result Thrown Next) {b : Next}
    → (m >>= f) ≡ ok b
    → (a : Value) × (m ≡ ok a) × (f a ≡ ok b)
>>=-eq-ok (ok a) f h = (a, refl, h)
>>=-eq-ok (err e) f h = cc
