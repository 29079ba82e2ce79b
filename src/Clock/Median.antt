-- ===== src/Clock/Median.antt =====
-- `medianTimePast` against counting.
use xchain_decoder.Prelude.{
  ℕ, zero, suc, ◌/◌, ◌≤◌, ◌<◌, ◌≡◌, refl, sym, ap, ◌∙◌, inl, inr, some, List, [], ◌∷◌, length,
  get_elem?, leb, leb→le, leb→lt, lt→ltb, le→ltb, ltb, if◌then◌else◌, Bool-cases, All, arith,
}
use xchain_decoder.Activation.{BlockTime}
use xchain_decoder.Clock.{insert, sort, window, median_time_past}

-- How many members are below a bound, and how many are not above it.
abbrev pub count_below : ℕ → List ℕ → ℕ
count_below m [] = 0
count_below m (t ∷ ts) = let rest = count_below m ts in if ltb t m then suc rest else rest

abbrev pub count_up_to : ℕ → List ℕ → ℕ
count_up_to m ts = count_below (suc m) ts

count-insert : (m t : ℕ) (ts : List ℕ) → count_below m (insert t ts) ≡ count_below m (t ∷ ts)
count-insert m t [] = refl
count-insert m t (u ∷ us) = ground (arith, count-insert m t us)

count-sort : (m : ℕ) (ts : List ℕ) → count_below m (sort ts) ≡ count_below m ts
unfolding sort
count-sort m [] = refl
count-sort m (t ∷ ts) = count-insert m t (sort ts) ∙ ground (arith, count-sort m ts)

length-insert : (t : ℕ) (ts : List ℕ) → length (insert t ts) ≡ suc (length ts)
length-insert t [] = refl
length-insert t (u ∷ us) = ground (arith, length-insert t us)

length-sort : (ts : List ℕ) → length (sort ts) ≡ length ts
unfolding sort
length-sort [] = refl
length-sort (t ∷ ts) = length-insert t (sort ts) ∙ ap suc (length-sort ts)

abbrev IsSorted : List ℕ → Type 0
IsSorted [] = Unit
IsSorted (t ∷ ts) = All (λ u. t ≤ u) ts × IsSorted ts

All-insert : (b t : ℕ) (ts : List ℕ) → b ≤ t → All (λ u. b ≤ u) ts → All (λ u. b ≤ u) (insert t ts)
All-insert b t [] h hs = (h, tt)
All-insert b t (u ∷ us) h hs = elim (Bool-cases (leb t u)) [
  | inl le ↦ rw le (h, hs)
  | inr lt ↦ rw lt (hs.0, All-insert b t us h hs.1)
]

All-le : (a b : ℕ) (ts : List ℕ) → a ≤ b → All (λ u. b ≤ u) ts → All (λ u. a ≤ u) ts
All-le a b [] h hs = tt
All-le a b (t ∷ ts) h hs = let le = hs.0 in (omega arith, All-le a b ts h hs.1)

insert-IsSorted : (t : ℕ) (ts : List ℕ) → IsSorted ts → IsSorted (insert t ts)
insert-IsSorted t [] h = (tt, tt)
insert-IsSorted t (u ∷ us) h = elim (Bool-cases (leb t u)) [
  | inl le ↦ let le' = leb→le t u le in rw le ((le', All-le t u us le' h.0), h)
  | inr lt ↦
      let lt' = leb→lt t u lt in
      rw lt (All-insert u t us (omega arith) h.0, insert-IsSorted t us h.1)
]

sort-IsSorted : (ts : List ℕ) → IsSorted (sort ts)
unfolding sort
sort-IsSorted [] = tt
sort-IsSorted (t ∷ ts) = insert-IsSorted t (sort ts) (sort-IsSorted ts)

count_below-All : (m b : ℕ) (ts : List ℕ) → m ≤ b → All (λ u. b ≤ u) ts → count_below m ts ≡ 0
count_below-All m b [] h hs = refl
count_below-All m b (t ∷ ts) h hs =
    let le = hs.0 in rw (le→ltb t m (omega arith)) (count_below-All m b ts h hs.1)

get-All : (b i m : ℕ) (ts : List ℕ) → All (λ u. b ≤ u) ts → get_elem? ts i ≡ some m → b ≤ m
get-All b i m [] h e = cc
get-All b zero m (t ∷ ts) h e = let le = h.0 in let same : t ≡ m = cc in omega arith
get-All b (suc i) m (t ∷ ts) h e = get-All b i m ts h.1 e

sorted_rank :
    (i m : ℕ) (ts : List ℕ)
    → IsSorted ts
    → get_elem? ts i ≡ some m
    → (count_below m ts ≤ i) × (i < count_up_to m ts)
sorted_rank i m [] h e = cc
sorted_rank zero m (t ∷ ts) h e =
    let same : t ≡ m = cc in
    let none_below = count_below-All m t ts (omega arith) h.0 in
    rw (le→ltb t m (omega arith), lt→ltb t (suc m) (omega arith)) (omega arith, omega arith)
sorted_rank (suc i) m (t ∷ ts) h e =
    let le = get-All t i m ts h.0 e in
    let (below, up_to) = sorted_rank i m ts h.1 e in
    rw (lt→ltb t (suc m) (omega arith)) (
      elim (Bool-cases (ltb t m)) [ inl lt ↦ rw lt (omega arith) | inr ge ↦ rw ge (omega arith) ],
      omega arith,
    )

get_elem?-within : (i : ℕ) (ts : List ℕ) → i < length ts → (m : ℕ) × (get_elem? ts i ≡ some m)
get_elem?-within i [] h = absurd (omega arith)
get_elem?-within zero (t ∷ ts) h = (t, refl)
get_elem?-within (suc i) (t ∷ ts) h = get_elem?-within i ts (omega arith)

-- The median of a window that has a usable time is found, and it is the time with at most half of the
-- window's times below it and more than half of them not above it.
pub median_time_past_rank :
    (times : List BlockTime)
    → 1 ≤ length (window times)
    → (m : ℕ) × (median_time_past (some times) ≡ some m)
      × (count_below m (window times) ≤ length (window times) / 2)
      × (length (window times) / 2 < count_up_to m (window times))
unfolding median_time_past
median_time_past_rank times h =
    let w = window times in
    let half = length w / 2 in
    let (m, found) = get_elem?-within half (sort w) (rw (length-sort w) (omega arith)) in
    let (below, up_to) = sorted_rank half m (sort w) (sort-IsSorted w) found in
    (m, found, rw (sym (count-sort m w)) below, rw (sym (count-sort (suc m) w)) up_to)
