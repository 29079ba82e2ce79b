-- ===== src/Prelude/Integers.antt =====
-- Integers over the native numbers, for differences that may fall below 0.
use Prim.Native.Nat.{ℕ, ◌+◌, ◌-◌, ◌≤◌}
use mathlib.Core.Logic.{◌↔◌, inl, inr}
use native.Mathlib.Omega.{arith}
use xchain_decoder.Prelude.Tests.{leb, leb→le, leb→lt, if◌then◌else◌, Bool-cases}

pub data ℤ : Type 0 where
  pos : ℕ → ℤ
  negsuc : ℕ → ℤ

infix 55 ◌-ℤ◌
unfoldable pub ◌-ℤ◌ : ℕ → ℕ → ℤ
a -ℤ b = if leb b a then pos (a - b) else negsuc (b - a - 1)

infix 50 ◌≤ℤ◌
abbrev pub ◌≤ℤ◌ : ℤ → ℤ → Type 0
pos a ≤ℤ pos b = a ≤ b
pos a ≤ℤ negsuc b = ⊥
negsuc a ≤ℤ pos b = Unit
negsuc a ≤ℤ negsuc b = b ≤ a

pub sub-le_iff : (a b c : ℕ) → (a -ℤ b ≤ℤ pos c) ↔ (a ≤ c + b)
unfolding ◌-ℤ◌
sub-le_iff a b c = elim (Bool-cases (leb b a)) [
  | inl le ↦ let h = leb→le b a le in rw le (λ x. omega arith, λ x. omega arith)
  | inr lt ↦ let h = leb→lt b a lt in rw lt (λ x. omega arith, λ x. tt)
]

pub sub-mono : (a b c : ℕ) → a ≤ b → a -ℤ c ≤ℤ b -ℤ c
unfolding ◌-ℤ◌
sub-mono a b c h = elim (Bool-cases (leb c a)) [
  | inl le ↦
      let h' = leb→le c a le in
      elim (Bool-cases (leb c b)) [
        | inl le' ↦ rw (le, le') (omega arith)
        | inr lt' ↦ let h'' = leb→lt c b lt' in absurd (omega arith)
      ]
  | inr lt ↦
      let h' = leb→lt c a lt in
      elim (Bool-cases (leb c b)) [
        | inl le' ↦ rw (lt, le') tt
        | inr lt' ↦ let h'' = leb→lt c b lt' in rw (lt, lt') (omega arith)
      ]
]
