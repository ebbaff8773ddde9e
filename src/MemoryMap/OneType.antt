-- ===== src/MemoryMap/OneType.antt =====
-- The groups of `validate` on regions of one type: all of them make one group.
use boot.Base.{
  ℕ, zero, suc, ◌+◌, ◌-◌, ◌*◌, ◌^◌, ◌<◌, ◌≤◌, ◌≡◌, ◌≢◌, refl, ◌∙◌, ap, sym, arith, List, [], ◌∷◌,
  length, ok, get_or, set, sub32, u16, length-set, load_in_range, store_in_range, replicate,
  get_or-set_self, get_or-set_ne, set_same,
}
use native.Mathlib.Decide.{dec_lt}
use boot.MemoryMap.{merge_rounds, merge_e820, count_types, merge_types}
use boot.MemoryMap.Regions.{region_at, read_region_lem}

set_twice : (xs : List ℕ) (i u v : ℕ) → set (set xs i u) i v ≡ set xs i v
set_twice [] i u v = refl
set_twice (x ∷ xs) zero u v = refl
set_twice (x ∷ xs) (suc i) u v = ap (λ t. x ∷ t) (set_twice xs i u v)

get_or-zeros : (n i : ℕ) → ◌≡◌ {A = ℕ} (get_or (replicate n 0) i 0) 0
get_or-zeros zero i = refl
get_or-zeros (suc n) zero = refl
get_or-zeros (suc n) (suc i) = get_or-zeros n i

-- `count` regions in the group `a`, and none in the four others.
abbrev pub counted : ℕ → ℕ → List ℕ
counted a count = set (replicate 5 0) a count

module _ (words : List ℕ) (a : ℕ) (five : a < 5) where
  counted_step :
      (i c : ℕ)
      → 3 * (i + 1) ≤ length words
      → (region_at words i).type ≡ a + 1
      → c + 1 < 2 ^ 16
      → (left : ℕ)
      → count_types (suc left) i words (counted a c)
        ≡ count_types left (i + 1) words (counted a (c + 1))
  unfolding count_types
  counted_step i c fits typed small left =
      let at : sub32 (region_at words i).type 1 ≡ a = omega arith in
      let l = length-set (replicate 5 0) a c in
      let here : get_or (counted a c) a 0 ≡ c =
        get_or-set_self (replicate 5 0) a c 0 (omega arith) in
      let z : u16 (c + 1) ≡ c + 1 = omega arith in
      rw (read_region_lem words i (omega arith), at)
        (rw (load_in_range (counted a c) a 0 (omega (arith, l)), here)
          (rw
            (
              z,
              store_in_range (counted a c) a (c + 1) (omega (arith, l)),
              set_twice (replicate 5 0) a c (c + 1),
            )
            refl))

  count_types-counted :
      (left i : ℕ)
      → 3 * (i + left) ≤ length words
      → ((k : ℕ) → k < i + left → (region_at words k).type ≡ a + 1)
      → i + left < 2 ^ 16
      → count_types left i words (counted a i) ≡ ok (counted a (i + left))
  count_types-counted zero i fits typed small =
      let k : i + 0 ≡ i = omega arith in unfold count_types in (rw k refl)
  count_types-counted (suc left) i fits typed small =
      let k : i + 1 + left ≡ i + suc left = omega arith in
      counted_step i i (omega arith) (typed i (omega arith)) (omega arith) left
      ∙ (count_types-counted left (i + 1) (omega arith) (λ k lt. typed k (omega arith))
            (omega arith)
          ∙ ap (λ c. ok (counted a c)) k)

-- All regions are counted in the group of their type.
pub count_types-one :
    (words : List ℕ) (n t : ℕ)
    → 3 * n ≤ length words
    → 1 ≤ t
    → t ≤ 5
    → ((k : ℕ) → k < n → (region_at words k).type ≡ t)
    → n < 2 ^ 16
    → count_types n 0 words (replicate 5 0) ≡ ok (counted (t - 1) n)
count_types-one words n t fits lo hi typed small =
    let none : counted (t - 1) 0 ≡ replicate 5 0 =
      ap (set (replicate 5 0) (t - 1)) (sym (get_or-zeros 5 (t - 1)))
      ∙ set_same (replicate 5 0) (t - 1) 0 in
    let e : 0 + n ≡ n = omega arith in
    ap (count_types n 0 words) (sym none)
    ∙ (count_types-counted words (t - 1) (omega arith) n 0 (omega arith)
          (λ k lt. omega (arith, typed k (omega arith))) (omega arith)
        ∙ ap (λ c. ok (counted (t - 1) c)) e)

merge_types_skip :
    (left i total : ℕ) (counts words : List ℕ)
    → i < length counts
    → get_or counts i 0 ≡ 0
    → total < 2 ^ 16
    → merge_types (suc left) i total counts words ≡ merge_types left (i + 1) total counts words
unfolding merge_types merge_e820 merge_rounds
merge_types_skip left i total counts words lt z small =
    let t : u16 (total + 0) ≡ total = omega arith in rw (load_in_range counts i 0 lt, z) (rw t refl)

merge_types_rest :
    (left i total : ℕ) (counts words : List ℕ)
    → i + left ≤ length counts
    → ((k : ℕ) → i ≤ k → get_or counts k 0 ≡ 0)
    → total < 2 ^ 16
    → merge_types left i total counts words ≡ ok (total, words)
merge_types_rest zero i total counts words le z small = unfold merge_types in refl
merge_types_rest (suc left) i total counts words le z small =
    merge_types_skip left i total counts words (omega arith) (z i (omega arith)) small
    ∙ merge_types_rest left (i + 1) total counts words (omega arith) (λ k h. z k (omega arith))
        small

merge_types_group :
    (left n : ℕ) (a : ℕ) (words new : List ℕ)
    → a + suc left ≡ 5
    → n < 2 ^ 16
    → merge_e820 words 0 n ≡ ok new
    → merge_types (suc left) a 0 (counted a n) words ≡ merge_types left (a + 1) n (counted a n) new
unfolding merge_types
merge_types_group left n a words new e small merged =
    let l = length-set (replicate 5 0) a n in
    let here : get_or (counted a n) a 0 ≡ n = get_or-set_self (replicate 5 0) a n 0 (omega arith) in
    let t : u16 (0 + n) ≡ n = omega arith in
    rw (load_in_range (counted a n) a 0 (omega (arith, l)), here) (rw (merged, t) refl)

-- Only that group is merged.
pub merge_types-one :
    (left i n a : ℕ) (words new : List ℕ)
    → i ≤ a
    → a < 5
    → i + left ≡ 5
    → n < 2 ^ 16
    → merge_e820 words 0 n ≡ ok new
    → merge_types left i 0 (counted a n) words ≡ ok (n, new)
merge_types-one zero i n a words new le lt e small merged = absurd (omega arith)
merge_types-one (suc left) i n a words new le lt e small merged =
    let l = length-set (replicate 5 0) a n in
    let other : (k : ℕ) → a ≢ k → get_or (counted a n) k 0 ≡ 0 =
      λ k ne. get_or-set_ne (replicate 5 0) a k n 0 ne ∙ get_or-zeros 5 k in
    elim (dec_lt i a) [
      | yes less ↦
          merge_types_skip left i 0 (counted a n) words (omega (arith, l)) (other i (omega arith))
            (omega arith)
          ∙ merge_types-one left (i + 1) n a words new (omega arith) lt (omega arith) small merged
      | no same ↦
          let here : i ≡ a = omega arith in
          rw here (
            merge_types_group left n a words new (omega arith) small merged
            ∙ merge_types_rest left (a + 1) n (counted a n) new (omega (arith, l))
                (λ k h. other k (omega arith)) small)
    ]
