-- ===== src/Chain/Laws.antt =====
-- What `chainTierMismatch` and `chainGenesisMismatch` refuse.
use mathlib.Core.Path.{subst}
use xchain_decoder.Prelude.{
  ℕ, ◌+◌, ◌≤◌, ◌⊎◌, ap₂, ◌≡◌, ◌≢◌, ◌↔◌, refl, sym, ◌∙◌, Option, none, some, [], ◌∷◌, Bool-cases,
  inl, inr, arith,
}
use xchain_decoder.Prelude.Text.{Text, text_eq, text_eq_iff}
use xchain_decoder.Prelude.Maps.{get, All-get}
use xchain_decoder.Prelude.{All}
use xchain_decoder.Chain.{
  lower, object_members, chain_to_network, differing_tier, chain_tier_mismatch, lowered,
  chain_genesis_mismatch,
}

-- A name with an entry of another network, or with none and an inherited member.
abbrev IsOtherTier : Text → Option Text → Option Text → Type 0
IsOtherTier network entry inherited =
    ((mapped : Text) × (entry ≡ some mapped) × (mapped ≢ network))
    ⊎ ((entry ≡ none) × ((member : Text) × (inherited ≡ some member)))

tier_case :
    (network chain : Text) (entry inherited : Option Text)
    → ((mapped : Text) → entry ≡ some mapped → mapped ≢ [])
    → ((reason : Text) × (differing_tier network chain entry inherited ≡ some reason))
      ↔ IsOtherTier network entry inherited
tier_case network chain none none full =
    (λ (r, e). cc, λ h. elim h [ inl (n, e, d) ↦ cc | inr (e, (m, f)) ↦ cc ])
tier_case network chain none (some member) full =
    (λ (r, e). inr (refl, (member, refl)), λ h. (_, refl))
tier_case network chain (some []) inherited full =
    (λ (r, e). cc, λ h. elim h [ inl (n, e, d) ↦ absurd (full [] refl refl) | inr (e, f) ↦ cc ])
tier_case network chain (some (c ∷ cs)) inherited full =
    elim (Bool-cases (text_eq (c ∷ cs) network)) [
      | inl same ↦ rw same (
        λ (r, e). cc,
        λ h. elim h [
          | inl (n, e, d) ↦
              let named : c ∷ cs ≡ n = cc in
              absurd (d (sym named ∙ (text_eq_iff (c ∷ cs) network).0 same))
          | inr (e, f) ↦ cc
        ],
      )
      | inr other ↦ rw other (
        λ (r, e). inl (c ∷ cs, refl, λ e. cc (other, (text_eq_iff (c ∷ cs) network).1 e)),
        λ h. (_, refl),
      )
    ]

networks_nonempty : All (λ e. e.1 ≢ []) chain_to_network
networks_nonempty = ground arith

unnamed :
    (network chain : Text)
    → [] ≡ chain
    → ¬ (IsOtherTier network (get chain chain_to_network) (get chain object_members))
unfolding get text_eq
unnamed network chain empty h =
    let here =
      subst (λ x. IsOtherTier network (get x chain_to_network) (get x object_members)) (sym empty)
        h in
    elim here [ inl (n, e, d) ↦ cc | inr (e, (m, f)) ↦ cc ]

-- The tier check refuses a reported chain exactly if the table maps its name to another network than the
-- configured one, or has no such name and an object inherits a member of that name ("constructor",
-- "toString" and the like): a missing field and every other name are let through.
pub chain_tier_mismatch_iff :
    (network : Text) (reported : Option Text)
    → ((reason : Text) × (chain_tier_mismatch network reported ≡ some reason)) ↔ (
        (chain : Text) × (reported ≡ some chain)
        × (((mapped : Text) × (get chain chain_to_network ≡ some mapped) × (mapped ≢ network))
            ⊎ ((get chain chain_to_network ≡ none)
                × ((member : Text) × (get chain object_members ≡ some member)))))
unfolding chain_tier_mismatch
chain_tier_mismatch_iff network none = (λ (r, e). cc, λ (c, e, h). cc)
chain_tier_mismatch_iff network (some []) =
    (λ (r, e). cc, λ (c, e, h). absurd (unnamed network c (let empty : [] ≡ c = cc in empty) h))
chain_tier_mismatch_iff network (some (c ∷ cs)) =
    let known =
      tier_case network (c ∷ cs) (get (c ∷ cs) chain_to_network) (get (c ∷ cs) object_members)
        (λ mapped found. All-get (λ v. v ≢ []) (c ∷ cs) chain_to_network networks_nonempty found) in
    (
      λ h. (c ∷ cs, refl, known.0 h),
      λ (chain, e, h).
          let same : c ∷ cs ≡ chain = cc in
          known.1 (
            subst (λ x. IsOtherTier network (get x chain_to_network) (get x object_members))
              (sym same) h),
    )

-- Two units that are equal, or the capital and the small form of one letter.
abbrev pub IsSameLetter : ℕ → ℕ → Type 0
IsSameLetter a b =
    (a ≡ b) ⊎ (((65 ≤ a) × (a ≤ 90) × (b ≡ a + 32)) ⊎ ((65 ≤ b) × (b ≤ 90) × (a ≡ b + 32)))

-- Texts that differ in case alone.
pub data IsSameText : Text → Text → Type 0 where
  ended : IsSameText [] []
  letter :
      {a b : ℕ} {xs ys : Text} → IsSameLetter a b → IsSameText xs ys → IsSameText (a ∷ xs) (b ∷ ys)

IsSameLetter-lower : (a b : ℕ) → lower a ≡ lower b → IsSameLetter a b
IsSameLetter-lower a b e = ground arith

lower-IsSameLetter : (a b : ℕ) → IsSameLetter a b → lower a ≡ lower b
lower-IsSameLetter a b h = ground arith

lowered-IsSameText : (xs ys : Text) → IsSameText xs ys → lowered xs ≡ lowered ys
lowered-IsSameText _ _ ended = refl
lowered-IsSameText _ _ (letter {a} {b} {xs} {ys} h hs) =
    ap₂ ◌∷◌ (lower-IsSameLetter a b h) (lowered-IsSameText xs ys hs)

IsSameText-lowered : (xs ys : Text) → lowered xs ≡ lowered ys → IsSameText xs ys
IsSameText-lowered [] [] e = ended
IsSameText-lowered [] (y ∷ ys) e = cc
IsSameText-lowered (x ∷ xs) [] e = cc
IsSameText-lowered (x ∷ xs) (y ∷ ys) e =
    letter (IsSameLetter-lower x y cc) (IsSameText-lowered xs ys cc)

-- The genesis check refuses exactly two hashes that are both there, not empty, and differ in more than the
-- case of their letters A to Z.
pub chain_genesis_mismatch_iff :
    (pinned reported : Option Text)
    → ((reason : Text) × (chain_genesis_mismatch pinned reported ≡ some reason)) ↔ (
        (one : Text) × (other : Text) × (pinned ≡ some one)
        × (reported ≡ some other)
        × (one ≢ [])
        × (other ≢ [])
        × ¬ (IsSameText one other))
unfolding chain_genesis_mismatch
chain_genesis_mismatch_iff none reported = (λ (r, e). cc, λ (x, y, e, f, h, k, d). cc)
chain_genesis_mismatch_iff (some []) reported =
    (λ (r, e). cc, λ (x, y, e, f, h, k, d). absurd (h cc))
chain_genesis_mismatch_iff (some (p ∷ ps)) none = (λ (r, e). cc, λ (x, y, e, f, h, k, d). cc)
chain_genesis_mismatch_iff (some (p ∷ ps)) (some []) =
    (λ (r, e). cc, λ (x, y, e, f, h, k, d). absurd (k cc))
chain_genesis_mismatch_iff (some (p ∷ ps)) (some (r ∷ rs)) =
    let one = lowered (p ∷ ps) in
    let other = lowered (r ∷ rs) in
    elim (Bool-cases (text_eq one other)) [
      | inl same ↦ rw same (
        λ (x, e). cc,
        λ (x, y, e, f, h, k, d).
            let alike = IsSameText-lowered (p ∷ ps) (r ∷ rs) ((text_eq_iff one other).0 same) in
            let left : p ∷ ps ≡ x = cc in
            let right : r ∷ rs ≡ y = cc in
            absurd (d (subst (IsSameText x) right (subst (λ t. IsSameText t (r ∷ rs)) left alike))),
      )
      | inr apart ↦ rw apart (
        λ (x, e). (
          p ∷ ps,
          r ∷ rs,
          refl,
          refl,
          λ e. cc,
          λ e. cc,
          λ alike.
              cc (apart, (text_eq_iff one other).1 (lowered-IsSameText (p ∷ ps) (r ∷ rs) alike)),
        ),
        λ h. (_, refl),
      )
    ]
