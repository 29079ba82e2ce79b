-- ===== src/Dispenser/Expiration/Normal.antt =====
-- The results of `normalizeDispenserExpiration`.
use xchain_decoder.Prelude.{
  ℕ, ◌≤◌, ◌<◌, ◌≡◌, refl, ◌⊎◌, inl, inr, true, Option, none, some, leb, leb→le, leb→lt, ltb, ltb→le,
  Bool-cases, arith,
}
use xchain_decoder.Prelude.Text.{Text}
use xchain_decoder.Activation.{BlockTime}
use xchain_decoder.Dispenser.Expiration.{
  max_safe_dispenser_expiration, u64_max, is_blank, is_safe, clamped, exact_token,
  is_dispenser_wide_expiration_active, normalize_dispenser_expiration,
}

safe-le :
    (as_number : Option ℕ) (n : ℕ)
    → is_safe as_number ≡ true
    → as_number ≡ some n
    → n ≤ max_safe_dispenser_expiration
safe-le none n h e = cc
safe-le (some m) n h e =
    let same : m ≡ n = cc in let le = leb→le m max_safe_dispenser_expiration h in omega arith

clamped_cases :
    (exact : Option ℕ) (n : ℕ)
    → clamped exact ≡ some n
    → (x : ℕ) × (exact ≡ some x)
      × (n ≡ max_safe_dispenser_expiration)
      × (max_safe_dispenser_expiration < x)
      × (x ≤ u64_max)
clamped_cases none n h = cc
clamped_cases (some x) n h = elim (Bool-cases (leb x max_safe_dispenser_expiration)) [
  | inl small ↦ cc (rw small at h)
  | inr large ↦ elim (Bool-cases (ltb u64_max x)) [
    | inl wide ↦ cc (rw (large, wide) at h)
    | inr fits ↦
        let h' = rw (large, fits) at h in
        (x, refl, cc, leb→lt x max_safe_dispenser_expiration large, ltb→le u64_max x fits)
  ]
]

-- Where a token gives an expiration, it is the token's number, which is at most the largest safe integer,
-- or, with the wide gate open, the largest safe integer for an exact token above it of at most 64 bits.
pub normalize_dispenser_expiration_cases :
    (raw : Option Text) (network : Text) (time : BlockTime) (as_number : Option ℕ) (n : ℕ)
    → normalize_dispenser_expiration raw network time as_number ≡ some n
    → ((as_number ≡ some n) × (n ≤ max_safe_dispenser_expiration))
      ⊎ ((is_dispenser_wide_expiration_active network time ≡ true)
          × (n ≡ max_safe_dispenser_expiration)
          × (x : ℕ) × (exact_token raw ≡ some x)
          × (max_safe_dispenser_expiration < x)
          × (x ≤ u64_max))
unfolding normalize_dispenser_expiration
normalize_dispenser_expiration_cases raw network time as_number n h =
    elim (Bool-cases (is_blank raw)) [
      | inl blank ↦ cc (rw blank at h)
      | inr given ↦ elim (Bool-cases (is_safe as_number)) [
        | inl safe ↦ let e = rw (given, safe) at h in inl (e, safe-le as_number n safe e)
        | inr unsafe ↦ elim (Bool-cases (is_dispenser_wide_expiration_active network time)) [
          | inr shut ↦ cc (rw (given, unsafe, shut) at h)
          | inl active ↦
              let (x, e, top, above, fits) =
                clamped_cases (exact_token raw) n (rw (given, unsafe, active) at h) in
              inr (active, top, x, e, above, fits)
        ]
      ]
    ]
