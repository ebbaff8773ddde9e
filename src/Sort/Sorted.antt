-- ===== src/Sort/Sorted.antt =====
-- The whole sort.
use boot.Base.{
  ℕ, ◌<◌, ◌≤◌, ◌^◌, ◌≡◌, ◌⊎◌, refl, arith, List, [], ◌∷◌, length, ok, fault, ltb, ◌==◌, Bool-cases,
  inl, inr,
}
use mathlib.Core.Path.{subst}
use mathlib.Core.List.{Perm}
use boot.Sort.{sort, sort_passes, skip_gaps, gap_sort, ciura_gaps}
use boot.Sort.Order.{LessThan, IsAscending}
use boot.Sort.Passes.{Kept, Kept-trans, gap_sort-Kept, gap_sort_one}
use boot.Base.{false, ◌∙◌}

-- The gaps descend from `top`, none is 0, and one of them is 1.
abbrev AreGaps : ℕ → List ℕ → Type 0
AreGaps top [] = ⊥
AreGaps top (gap ∷ gaps) = (0 < gap) × (gap ≤ top) × ((gap ≡ 1) ⊎ AreGaps gap gaps)

ciura_gaps-AreGaps : AreGaps (2 ^ 32) ciura_gaps
ciura_gaps-AreGaps = (
  omega arith,
  omega arith,
  inr (
    omega arith,
    omega arith,
    inr (
      omega arith,
      omega arith,
      inr (
        omega arith,
        omega arith,
        inr (
          omega arith,
          omega arith,
          inr (
            omega arith,
            omega arith,
            inr (
              omega arith,
              omega arith,
              inr (
                omega arith,
                omega arith,
                inr (
                  omega arith,
                  omega arith,
                  inr (
                    omega arith,
                    omega arith,
                    inr (
                      omega arith,
                      omega arith,
                      inr (
                        omega arith,
                        omega arith,
                        inr (
                          omega arith,
                          omega arith,
                          inr (
                            omega arith,
                            omega arith,
                            inr (
                              omega arith,
                              omega arith,
                              inr (
                                omega arith,
                                omega arith,
                                inr (
                                  omega arith,
                                  omega arith,
                                  inr (
                                    omega arith,
                                    omega arith,
                                    inr (
                                      omega arith,
                                      omega arith,
                                      inr (
                                        omega arith,
                                        omega arith,
                                        inr (
                                          omega arith,
                                          omega arith,
                                          inr (
                                            omega arith,
                                            omega arith,
                                            inr (
                                              omega arith,
                                              omega arith,
                                              inr (
                                                omega arith,
                                                omega arith,
                                                inr (
                                                  omega arith,
                                                  omega arith,
                                                  inr (
                                                    omega arith,
                                                    omega arith,
                                                    inr (omega arith, omega arith, inl refl),
                                                  ),
                                                ),
                                              ),
                                            ),
                                          ),
                                        ),
                                      ),
                                    ),
                                  ),
                                ),
                              ),
                            ),
                          ),
                        ),
                      ),
                    ),
                  ),
                ),
              ),
            ),
          ),
        ),
      ),
    ),
  ),
)

skip_gaps-AreGaps :
    (top size : ℕ) (gaps : List ℕ)
    → 0 < size
    → AreGaps top gaps
    → AreGaps size (skip_gaps size gaps)
unfolding skip_gaps
skip_gaps-AreGaps top size [] pos g = g
skip_gaps-AreGaps top size (gap ∷ gaps) pos (g0, g1, inl one) = ground arith
skip_gaps-AreGaps top size (gap ∷ gaps) pos (g0, g1, inr more) = elim (Bool-cases (ltb size gap)) [
  | inl t ↦ rw t (skip_gaps-AreGaps gap size gaps pos more)
  | inr f ↦ rw f (g0, ground arith, inr more)
]

module _ {A : Type 0} ⦃lt : LessThan A⦄ (d : A) where
  later :
      (gap : ℕ) (gaps : List ℕ)
      → (gap == 1) ≡ false
      → (gap ≡ 1) ⊎ AreGaps gap gaps
      → AreGaps gap gaps
  later gap gaps f (inl one) = absurd (grind arith)
  later gap gaps f (inr more) = more

  sort_passes_lem :
      (gaps : List ℕ) (top size : ℕ) (a : List A)
      → AreGaps top gaps
      → top ≤ size
      → length a ≡ size
      → (b : List A) × (sort_passes gaps size a ≡ ok b) × Kept a b × IsAscending d size b
  unfolding sort_passes
  sort_passes_lem [] top size a g h e = absurd g
  sort_passes_lem (gap ∷ gaps) top size a (g0, g1, g2) h e = elim (Bool-cases (gap == 1)) [
    | inl t ↦
        let (b, r, k, s) = gap_sort_one d a in
        (b, rw t (subst (λ n. gap_sort a n 1 ≡ ok b) e r), k, subst (λ n. IsAscending d n b) e s)
    | inr f ↦
        let (b, r, k) = gap_sort-Kept d gap a g0 (omega arith) in
        let (c, r', k', s) =
          sort_passes_lem gaps gap size b (later gap gaps f g2) (omega arith) (k.same_length ∙ e) in
        (c, rw (f, subst (λ n. gap_sort a n gap ≡ ok b) e r) r', Kept-trans a b c k k', s)
  ]

  -- `sort` of an array of 1 to 2 ^ 32 - 1 elements returns, stays inside the array, and leaves the
  -- same elements in ascending order.
  pub sort-IsAscending :
      (a : List A)
      → 0 < length a
      → (b : List A) × (sort a ≡ ok b)
        × Perm b a
        × (length b ≡ length a)
        × IsAscending d (length a) b
  unfolding sort
  sort-IsAscending a pos =
      let g = skip_gaps-AreGaps (2 ^ 32) (length a) ciura_gaps pos ciura_gaps-AreGaps in
      let (b, r, k, s) =
        sort_passes_lem (skip_gaps (length a) ciura_gaps) (length a) (length a) a g (omega arith)
          refl in
      (b, r, k.elements, k.same_length, s)

-- `sort` of an empty array reads behind the last gap.
sort_empty : {A : Type 0} ⦃lt : LessThan A⦄ → sort {A = A} [] ≡ fault
unfolding sort skip_gaps sort_passes
sort_empty = refl
