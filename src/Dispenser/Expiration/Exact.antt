-- ===== src/Dispenser/Expiration/Exact.antt =====
-- The point of a run of digits, shifted by `exactUnsignedDecimal`, and powers of ten.
use mathlib.Core.Path.{subst}
use native.Mathlib.Nat.{pow-suc, add-mul, mul_assoc, mul_comm, mul-le-mul_right}
use xchain_decoder.Prelude.{
  ℕ, zero, suc, ◌+◌, ◌-◌, ◌*◌, ◌^◌, ◌≤◌, ◌<◌, ◌≡◌, ◌↔◌, refl, sym, ap, ◌∙◌, true, some, [], ◌∷◌,
  ◌++◌, All, leb, leb→le, leb→lt, ◌==◌, length, take, drop, length-drop, take-append-drop,
  Bool-cases, inl, inr, arith,
}
use xchain_decoder.Prelude.Text.{Text}
use xchain_decoder.Dispenser.Expiration.{
  all_zero, value, value_onto, zeros, shifted_down, shifted_up,
}

abbrev pub AreDigits : Text → Type 0
AreDigits = All (λ c. (b'0' ≤ c) × (c ≤ b'9'))

value_onto-shift : (n : ℕ) (xs : Text) → value_onto n xs ≡ n * 10 ^ length xs + value xs
value_onto-shift n [] = omega arith
value_onto-shift n (c ∷ cs) =
    let d = c - b'0' in
    let P = 10 ^ length cs in
    let whole = value_onto-shift (n * 10 + d) cs in
    let part = value_onto-shift (0 * 10 + d) cs in
    let power : 10 ^ suc (length cs) ≡ P * 10 = pow-suc 10 (length cs) in
    let split = add-mul (n * 10) d P in
    let turned : n * 10 * P ≡ n * (P * 10) = mul_assoc n 10 P ∙ ap (λ k. n * k) (mul_comm 10 P) in
    let small : (0 * 10 + d) * P ≡ d * P = ap (λ k. k * P) (omega arith) in rw power (omega arith)

value-append : (xs ys : Text) → value (xs ++ ys) ≡ value xs * 10 ^ length ys + value ys
value-append xs ys = value_onto-append 0 xs ys
  where
    value_onto-append :
        (n : ℕ) (xs ys : Text)
        → value_onto n (xs ++ ys) ≡ value_onto n xs * 10 ^ length ys + value ys
    value_onto-append n [] ys = value_onto-shift n ys
    value_onto-append n (x ∷ xs) ys = value_onto-append (n * 10 + (x - b'0')) xs ys

value-lt : (xs : Text) → AreDigits xs → value xs < 10 ^ length xs
value-lt [] h = omega arith
value-lt (c ∷ cs) h =
    let P = 10 ^ length cs in
    let shift = value_onto-shift (0 * 10 + (c - b'0')) cs in
    let power : 10 ^ suc (length cs) ≡ P * 10 = pow-suc 10 (length cs) in
    let top : (c - b'0') * P ≤ 9 * P = mul-le-mul_right P (omega (arith, h.0)) in
    let small : (0 * 10 + (c - b'0')) * P ≡ (c - b'0') * P = ap (λ k. k * P) (omega arith) in
    let later = value-lt cs h.1 in rw power (omega arith)

power-positive : (n : ℕ) → 0 < 10 ^ n
power-positive zero = omega arith
power-positive (suc n) =
    let power : 10 ^ suc n ≡ 10 ^ n * 10 = pow-suc 10 n in omega (arith, power-positive n)

all_zero-value : (xs : Text) → all_zero xs ≡ true → value xs ≡ 0
all_zero-value [] h = refl
all_zero-value (c ∷ cs) h =
    let shift = value_onto-shift (0 * 10 + (c - b'0')) cs in
    let later = all_zero-value cs (ground arith) in
    let zero_digit : c ≡ b'0' = ground arith in
    let none_here : (0 * 10 + (c - b'0')) * 10 ^ length cs ≡ 0 * 10 ^ length cs =
      ap (λ k. k * 10 ^ length cs) (omega arith) in
    omega arith

value-all_zero : (xs : Text) → AreDigits xs → value xs ≡ 0 → all_zero xs ≡ true
value-all_zero [] h e = refl
value-all_zero (c ∷ cs) h e =
    let P = 10 ^ length cs in
    let d = c - b'0' in
    let shift = value_onto-shift (0 * 10 + d) cs in
    let positive = power-positive (length cs) in
    let small : (0 * 10 + d) * P ≡ d * P = ap (λ k. k * P) (omega arith) in
    elim (Bool-cases (c == b'0')) [
      | inl zero_digit ↦ rw zero_digit (value-all_zero cs h.1 (omega arith))
      | inr other ↦
          let least : 1 ≤ d = ground (arith, h.0) in
          let grown : 1 * P ≤ d * P = mul-le-mul_right P least in absurd (omega arith)
    ]

quotient_unique : (v q r P : ℕ) → r < P → v * P ≡ q * P + r → (v ≡ q) × (r ≡ 0)
quotient_unique v q r P small e = elim (Bool-cases (leb v q)) [
  | inl le ↦ elim (Bool-cases (leb q v)) [
    | inl le' ↦
        let same : v ≡ q = omega (arith, leb→le v q le, leb→le q v le') in
        (same, let e' = sym (ap (λ k. k * P) same) ∙ e in omega arith)
    | inr lt ↦
        let grown : (v + 1) * P ≤ q * P = mul-le-mul_right P (omega (arith, leb→lt q v lt)) in
        let apart = add-mul v 1 P in absurd (omega arith)
  ]
  | inr lt ↦
      let grown : (q + 1) * P ≤ v * P = mul-le-mul_right P (omega (arith, leb→lt v q lt)) in
      let apart = add-mul q 1 P in absurd (omega arith)
]

AreDigits-drop : (n : ℕ) (xs : Text) → AreDigits xs → AreDigits (drop n xs)
AreDigits-drop zero xs h = h
AreDigits-drop (suc n) [] h = tt
AreDigits-drop (suc n) (x ∷ xs) h = AreDigits-drop n xs h.1

power_mono : (a b : ℕ) → a ≤ b → 10 ^ a ≤ 10 ^ b
power_mono zero b h = power-positive b
power_mono (suc a) zero h = absurd (omega arith)
power_mono (suc a) (suc b) h =
    let pa : 10 ^ suc a ≡ 10 ^ a * 10 = pow-suc 10 a in
    let pb : 10 ^ suc b ≡ 10 ^ b * 10 = pow-suc 10 b in
    let le = power_mono a b (omega arith) in omega arith

-- The integer is the digits' value over a power of ten, where that is an integer, and there is none
-- where it is not.
pub shifted_down_iff :
    (digits : Text) (places v : ℕ)
    → AreDigits digits
    → (shifted_down digits places ≡ some v) ↔ (v * 10 ^ places ≡ value digits)
unfolding shifted_down
shifted_down_iff digits places v h =
    let P = 10 ^ places in
    elim (Bool-cases (leb (length digits) places)) [
      | inl short ↦
          let below = value-lt digits h in
          let wider = power_mono (length digits) places (leb→le (length digits) places short) in
          elim (Bool-cases (all_zero digits)) [
            | inl zero_value ↦
                let e = all_zero-value digits zero_value in
                rw (short, zero_value)
                  (
                    λ x.
                        let none_left : 0 ≡ v = cc in ap (λ k. k * P) (sym none_left) ∙ omega arith,
                    λ x.
                        let only = quotient_unique v 0 0 P (power-positive places) (omega arith) in
                        ap some (sym only.0),
                  )
            | inr more ↦
                rw (short, more)
                  (
                    λ x. cc,
                    λ x.
                        let only =
                          quotient_unique v 0 (value digits) P (omega arith) (omega arith) in
                        cc (more, value-all_zero digits h only.1),
                  )
          ]
      | inr long ↦
          let kept = length digits - places in
          let low = drop kept digits in
          let high = take kept digits in
          let size : length low ≡ places =
            length-drop kept digits ∙ omega (arith, leb→lt (length digits) places long) in
          let whole : value digits ≡ value high * P + value low =
            ap value (sym (take-append-drop kept digits))
            ∙ value-append high low
            ∙ ap (λ n. value high * 10 ^ n + value low) size in
          let small : value low < P =
            subst (λ n. value low < 10 ^ n) size (value-lt low (AreDigits-drop kept digits h)) in
          elim (Bool-cases (all_zero low)) [
            | inl zero_low ↦
                let e = all_zero-value low zero_low in
                rw (long, zero_low)
                  (
                    λ x. let same : value high ≡ v = cc in ap (λ k. k * P) (sym same) ∙ omega arith,
                    λ x.
                        let only = quotient_unique v (value high) (value low) P small (x ∙ whole) in
                        ap some (sym only.0),
                  )
            | inr more ↦
                rw (long, more)
                  (
                    λ x. cc,
                    λ x.
                        let only = quotient_unique v (value high) (value low) P small (x ∙ whole) in
                        cc (more, value-all_zero low (AreDigits-drop kept digits h) only.1),
                  )
          ]
    ]

value-zeros : (n : ℕ) → value (zeros n) ≡ 0
value-zeros zero = refl
value-zeros (suc n) = value-zeros n

length-zeros : (n : ℕ) → length (zeros n) ≡ n
length-zeros zero = refl
length-zeros (suc n) = ap suc (length-zeros n)

-- The value of digits behind which zeros are appended is their value times that power of ten.
pub shifted_up-value :
    (digits : Text) (count v : ℕ) → shifted_up digits count ≡ some v → v ≡ value digits * 10 ^ count
unfolding shifted_up
shifted_up-value digits count v h =
    let whole = value-append digits (zeros count) in
    let none_low = value-zeros count in
    let size : value digits * 10 ^ length (zeros count) ≡ value digits * 10 ^ count =
      ap (λ n. value digits * 10 ^ n) (length-zeros count) in
    let printed : value (digits ++ zeros count) ≡ v = ground arith in omega arith
