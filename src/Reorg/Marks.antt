-- ===== src/Reorg/Marks.antt =====
-- The depth that the REORG rows show: what the rows of a rollback add to it.
use xchain_decoder.Prelude.{
  ℕ, ◌+◌, ◌≤◌, ◌≡◌, ◌≢◌, refl, sym, ◌∙◌, inl, inr, Bool, true, false, not, ◌&&◌, Option, none, some,
  List, [], ◌∷◌, any, All, length, ◌==◌, Bool-cases, arith, ==_iff,
}
use xchain_decoder.Reorg.{Block}
use xchain_decoder.Reorg.Store.{above, add, add_all, heights_above_tip}
use xchain_decoder.Reorg.Rollback.{mark_row, mark_rows}
use mathlib.Core.Path.{subst}

abbrev pub mem : ℕ → List ℕ → Bool
mem k hs = any (λ h. h == k) hs

-- One count with another that began with `extra` more heights, none of them above the first one's tip.
pub record IsAhead (tip : Option ℕ) (extra : ℕ) (xs ys : List ℕ) : Type 0 where
  pub longer : extra + length xs ≤ length ys
  pub shared : (k : ℕ) → above tip k ≡ true → mem k ys ≡ true → mem k xs ≡ true

module _ (tip low : Option ℕ) (wider : (k : ℕ) → above tip k ≡ true → above low k ≡ true) where
  mem-cons : (k h : ℕ) (hs : List ℕ) → mem k (h ∷ hs) ≡ true → (h == k) ≡ false → mem k hs ≡ true
  mem-cons k h hs e f = ground arith

  IsAhead-alone :
      (extra h : ℕ) (xs ys : List ℕ)
      → (above tip h ≡ true → mem h xs ≡ true)
      → IsAhead tip extra xs ys
      → IsAhead tip extra xs (h ∷ ys)
  IsAhead-alone extra h xs ys known a = record {
    longer = omega (arith, a.longer);
    shared = λ k up m. elim (Bool-cases (h == k)) [
      | inl same ↦
          let e : h ≡ k = (==_iff h k).0 same in
          subst (λ x. mem x xs ≡ true) e (known (subst (λ x. above tip x ≡ true) (sym e) up))
      | inr other ↦ a.shared k up (mem-cons k h ys m other)
    ];
  }

  IsAhead-both :
      (extra h : ℕ) (xs ys : List ℕ) → IsAhead tip extra xs ys → IsAhead tip extra (h ∷ xs) (h ∷ ys)
  IsAhead-both extra h xs ys a = record {
    longer = omega (arith, a.longer);
    shared = λ k up m. elim (Bool-cases (h == k)) [
      | inl same ↦ rw same refl
      | inr other ↦ rw other (a.shared k up (mem-cons k h ys m other))
    ];
  }

  IsAhead-add :
      (extra h : ℕ) (xs ys : List ℕ)
      → IsAhead tip extra xs ys
      → IsAhead tip extra (add tip h xs) (add low h ys)
  IsAhead-add extra h xs ys a = elim (Bool-cases (above tip h)) [
    | inl up ↦ elim (Bool-cases (mem h xs)) [
      | inl known ↦ elim (Bool-cases (mem h ys)) [
        | inl there ↦ rw (up, known, wider h up, there) a
        | inr new ↦ rw (up, known, wider h up, new) (IsAhead-alone extra h xs ys (λ e. known) a)
      ]
      | inr fresh ↦ elim (Bool-cases (mem h ys)) [
        | inl there ↦ absurd (let e : false ≡ true = rw fresh at (a.shared h up there) in cc)
        | inr new ↦ rw (up, fresh, wider h up, new) (IsAhead-both extra h xs ys a)
      ]
    ]
    | inr down ↦ elim (Bool-cases (above low h && not (mem h ys))) [
      | inl grows ↦
          rw (down, grows)
            (IsAhead-alone extra h xs ys (λ e. absurd (let f : false ≡ true = rw down at e in cc))
              a)
      | inr stays ↦ rw (down, stays) a
    ]
  ]

  IsAhead-add_all :
      (extra : ℕ) (hs xs ys : List ℕ)
      → IsAhead tip extra xs ys
      → IsAhead tip extra (add_all tip hs xs) (add_all low hs ys)
  IsAhead-add_all extra [] xs ys a = a
  IsAhead-add_all extra (h ∷ hs) xs ys a =
      IsAhead-add_all extra hs (add tip h xs) (add low h ys) (IsAhead-add extra h xs ys a)

  pub heights_above_tip-IsAhead :
      (extra : ℕ) (rows : List (Option (List ℕ))) (xs ys counted : List ℕ)
      → IsAhead tip extra xs ys
      → heights_above_tip tip rows xs ≡ some counted
      → (heights : List ℕ) × (heights_above_tip low rows ys ≡ some heights)
        × (extra + length counted ≤ length heights)
  unfolding heights_above_tip
  heights_above_tip-IsAhead extra [] xs ys counted a e =
      let same : xs ≡ counted = cc in (ys, refl, rw⁻¹ same a.longer)
  heights_above_tip-IsAhead extra (none ∷ rows) xs ys counted a e = absurd (cc)
  heights_above_tip-IsAhead extra (some hs ∷ rows) xs ys counted a e =
      heights_above_tip-IsAhead extra rows (add_all tip hs xs) (add_all low hs ys) counted
        (IsAhead-add_all extra hs xs ys a) e

-- The heights of deleted blocks, the lowest and last one first.
abbrev pub pushed : Option ℕ → List Block → List ℕ
pushed low [] = []
pushed low (b ∷ bs) = add low b.block_index (pushed low bs)

abbrev pub IsHashed : List Block → Type 0
IsHashed = All (λ b. b.block_hash ≢ none)

pub heights_above_tip-mark_rows :
    (low : Option ℕ) (bs : List Block) (rows : List (Option (List ℕ)))
    → IsHashed bs
    → heights_above_tip low (mark_rows bs rows) [] ≡ heights_above_tip low rows (pushed low bs)
unfolding heights_above_tip
heights_above_tip-mark_rows low [] rows h = refl
heights_above_tip-mark_rows low (b ∷ bs) rows (h, hs) =
    heights_above_tip-mark_rows low bs (mark_row b rows) hs ∙ one b.block_hash h
  where
    one :
        (t : Option (List ℕ))
        → t ≢ none
        → heights_above_tip low
            (elim t [ none ↦ rows | some x ↦ some (b.block_index ∷ []) ∷ rows ])
            (pushed low bs)
          ≡ heights_above_tip low rows (add low b.block_index (pushed low bs))
    one none f = absurd (f refl)
    one (some x) f = refl
