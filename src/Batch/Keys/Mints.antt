-- ===== src/Batch/Keys/Mints.antt =====
-- The running maximum of `maxIdenticalMintTicks` against plain counting.
use xchain_decoder.Prelude.{
  ℕ, ◌+◌, ◌≤◌, ◌≡◌, refl, ◌⊎◌, inl, inr, Bool-cases, List, [], ◌∷◌, ltb, if◌then◌else◌, arith,
}
use xchain_decoder.Prelude.Text.{Text, text_eq, text_eq_iff}
use xchain_decoder.Prelude.Maps.{TextMap, get, set, get-set}
use xchain_decoder.Batch.Keys.{or_zero, count_ticks, max_identical_mint_ticks}

-- How often a text occurs.
unfoldable pub count : Text → List Text → ℕ
count k [] = 0
count k (x ∷ xs) = (if text_eq x k then 1 else 0) + count k xs

abbrev pub tally : Text → TextMap ℕ → ℕ
tally k counts = or_zero (get k counts)

pub tally-set :
    (tick k : Text) (n : ℕ) (counts : TextMap ℕ)
    → tally k (set tick n counts) ≡ (if text_eq tick k then n else tally k counts)
tally-set tick k n counts = elim (Bool-cases (text_eq tick k)) [
  | inl same ↦ rw (get-set, same)
  | inr other ↦ rw (get-set, other)
]

count_ticks-upper :
    (ticks : List Text) (counts : TextMap ℕ) (most : ℕ)
    → ((k : Text) → tally k counts ≤ most)
    → (k : Text) → tally k counts + count k ticks ≤ count_ticks ticks counts most
unfolding count_ticks count
count_ticks-upper [] counts most h k = omega (arith, h k)
count_ticks-upper (tick ∷ ticks) counts most h k =
    let n = tally tick counts + 1 in
    let later =
      count_ticks-upper ticks (set tick n counts) (if ltb most n then n else most)
        (λ j. ground (arith, tally-set tick j n counts, h j)) k in
    ground (arith, tally-set tick k n counts, text_eq_iff tick k, later)

module _ (tick : Text) (ticks : List Text) (counts : TextMap ℕ) (most : ℕ) where
  abbrev next_count : ℕ
  next_count = tally tick counts + 1

  abbrev next_counts : TextMap ℕ
  next_counts = set tick next_count counts

  abbrev next_most : ℕ
  next_most = if ltb most next_count then next_count else most

  next_most-upper :
      ((k : Text) → tally k counts ≤ most) → (k : Text) → tally k next_counts ≤ next_most
  next_most-upper h k = ground (arith, tally-set tick k next_count counts, h k)

count_ticks-attained :
    (ticks : List Text) (counts : TextMap ℕ) (most : ℕ)
    → ((k : Text) → tally k counts ≤ most)
    → (count_ticks ticks counts most ≡ most)
      ⊎ ((k : Text) × (count_ticks ticks counts most ≡ tally k counts + count k ticks))
unfolding count_ticks count
count_ticks-attained [] counts most h = inl refl
count_ticks-attained (tick ∷ ticks) counts most h =
    let n = next_count tick ticks counts most in
    let counts' = next_counts tick ticks counts most in
    let most' = next_most tick ticks counts most in
    let h' = next_most-upper tick ticks counts most h in
    elim (count_ticks-attained ticks counts' most' h') [
      | inl same ↦ elim (Bool-cases (ltb most n)) [
        | inl more ↦ inr (
          tick,
          ground (
            arith,
            tally-set tick tick n counts,
            text_eq_iff tick tick,
            count_ticks-upper ticks counts' most' h' tick,
          ),
        )
        | inr less ↦ inl (ground arith)
      ]
      | inr (k, e) ↦ inr (k, ground (arith, tally-set tick k n counts, text_eq_iff tick k, e))
    ]

-- The result is the number of times that some tick occurs, and no tick occurs more often.
pub max_identical_mint_ticks_max :
    (ticks : List Text)
    → ((k : Text) → count k ticks ≤ max_identical_mint_ticks ticks)
      × ((k : Text) × (max_identical_mint_ticks ticks ≡ count k ticks))
unfolding max_identical_mint_ticks get
max_identical_mint_ticks_max ticks = (
  λ k. omega (arith, count_ticks-upper ticks [] 0 (λ j. omega arith) k),
  elim (count_ticks-attained ticks [] 0 (λ j. omega arith)) [
    | inl none_seen ↦ ([], omega (arith, count_ticks-upper ticks [] 0 (λ j. omega arith) []))
    | inr (k, e) ↦ (k, omega (arith, e))
  ],
)
