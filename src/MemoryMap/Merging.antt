-- ===== src/MemoryMap/Merging.antt =====
-- `mergeE820` on regions that do not overlap, and the counts of `validate`.
use boot.Base.{
  ℕ, zero, suc, ◌+◌, ◌-◌, ◌*◌, ◌<◌, ◌≤◌, ◌≡◌, refl, arith, List, [], ◌∷◌, length, ok, false,
  Bool-cases, inl, inr, ltb, le→ltb_false, add32,
}
use boot.MemoryMap.{Smap32, merge_rounds, merge_e820, count_types, merge_types}
use boot.MemoryMap.Regions.{region_at, read_region_lem, regions}
use boot.Base.{drop, get_or, set, ◌^◌, sub32, u16, length-set, load_in_range, ◌∙◌, store_in_range}
use boot.Base.{ap}

-- Regions one behind the other: each ends before the next one begins, and no type is above that of
-- the next one. The types are those that `validate` counts.
abbrev pub InOrder : List Smap32 → Type 0
InOrder [] = Unit
InOrder (a ∷ []) = (1 ≤ a.type) × (a.type ≤ 5)
InOrder (a ∷ b ∷ rs) =
    ((1 ≤ a.type) × (a.type ≤ 5))
    × ((a.base + a.length ≤ b.base) × (a.type ≤ b.type))
    × InOrder (b ∷ rs)

-- A region and the one behind it.
pub InOrder-next :
    (words : List ℕ) (n j k : ℕ)
    → InOrder (regions n j words)
    → k + 1 < n
    → let a = region_at words (j + k) in
      let b = region_at words (j + k + 1) in (a.base + a.length ≤ b.base) × (a.type ≤ b.type)
InOrder-next words zero j k o h = absurd (omega arith)
InOrder-next words (suc zero) j k o h = absurd (omega arith)
InOrder-next words (suc (suc n)) j zero o h = let e : j + 0 ≡ j = omega arith in rw e (o.1.0, o.1.1)
InOrder-next words (suc (suc n)) j (suc k) o h =
    let e : j + suc k ≡ j + 1 + k = omega arith in
    rw e (InOrder-next words (suc n) (j + 1) k o.2 (omega arith))

pub InOrder-type :
    (words : List ℕ) (n j k : ℕ)
    → InOrder (regions n j words)
    → k < n
    → (1 ≤ (region_at words (j + k)).type) × ((region_at words (j + k)).type ≤ 5)
InOrder-type words zero j k o h = elim h [ ]
InOrder-type words (suc zero) j k o h = let e : j + k ≡ j = omega arith in rw e o
InOrder-type words (suc (suc n)) j zero o h = let e : j + 0 ≡ j = omega arith in rw e o.0
InOrder-type words (suc (suc n)) j (suc k) o h =
    let e : j + suc k ≡ j + 1 + k = omega arith in
    rw e (InOrder-type words (suc n) (j + 1) k o.2 (omega arith))

module _ (words : List ℕ) (n : ℕ) (fits : 3 * n ≤ length words)
    (o : InOrder (regions n 0 words)) where
  merge_rounds-same :
      (fuel at i len : ℕ) → 1 ≤ i → at + len ≤ n → merge_rounds fuel at i len words ≡ ok words
  unfolding merge_rounds
  merge_rounds-same zero at i len pos le = refl
  merge_rounds-same (suc fuel) at i len pos le = elim (Bool-cases (ltb i len)) [
    | inr e ↦ rw e refl
    | inl e ↦
        let lt : i < len = ground arith in
        let k : 0 + (at + i - 1) ≡ at + i - 1 = omega arith in
        let k' : at + i - 1 + 1 ≡ at + i = omega arith in
        let (apart, typed) = rw (k, k') at (InOrder-next words n 0 (at + i - 1) o (omega arith)) in
        let p = region_at words (at + i - 1) in
        let r = region_at words (at + i) in
        let stop : ltb r.base (add32 p.base p.length) ≡ false =
          le→ltb_false r.base (add32 p.base p.length) (omega arith) in
        rw
          (
            e,
            read_region_lem words (at + i - 1) (omega arith),
            read_region_lem words (at + i) (omega arith),
          )
          (rw stop (merge_rounds-same fuel at (i + 1) len (omega arith) le))
  ]

  merge_e820-same : (at len : ℕ) → at + len ≤ n → merge_e820 words at len ≡ ok words
  unfolding merge_e820
  merge_e820-same at len le = merge_rounds-same len at 1 len (omega arith) le

-- The sum of the counts.
abbrev pub sum : List ℕ → ℕ
sum [] = 0
sum (x ∷ xs) = x + sum xs

get_or-le-sum : (xs : List ℕ) (i : ℕ) → get_or xs i 0 ≤ sum xs
get_or-le-sum [] i = omega arith
get_or-le-sum (x ∷ xs) zero = omega arith
get_or-le-sum (x ∷ xs) (suc i) = omega (arith, get_or-le-sum xs i)

sum-set : (xs : List ℕ) (i v : ℕ) → i < length xs → sum (set xs i v) + get_or xs i 0 ≡ sum xs + v
sum-set [] i v h = elim h [ ]
sum-set (x ∷ xs) zero v h = omega arith
sum-set (x ∷ xs) (suc i) v h = omega (arith, sum-set xs i v (omega arith))

pub sum-drop :
    (xs : List ℕ) (i : ℕ) → i < length xs → sum (drop i xs) ≡ get_or xs i 0 + sum (drop (suc i) xs)
sum-drop [] i h = elim h [ ]
sum-drop (x ∷ xs) zero h = refl
sum-drop (x ∷ xs) (suc i) h = sum-drop xs i (omega arith)

module _ (words : List ℕ) (n : ℕ) (fits : 3 * n ≤ length words)
    (o : InOrder (regions n 0 words)) where
  count_step :
      (left i : ℕ) (counts : List ℕ)
      → i < n
      → length counts ≡ 5
      → sum counts + 1 < 2 ^ 16
      → let at = sub32 (region_at words i).type 1 in
        (at < 5)
        × (count_types (suc left) i words counts
            ≡ count_types left (i + 1) words (set counts at (get_or counts at 0 + 1)))
  unfolding count_types
  count_step left i counts lt five small =
      let r = region_at words i in
      let z : 0 + i ≡ i = omega arith in
      let (lo, hi) = rw z at (InOrder-type words n 0 i o lt) in
      let at = sub32 r.type 1 in
      let inside : at < 5 = omega arith in
      let c = get_or counts at 0 in
      let bound = get_or-le-sum counts at in
      let c' : u16 (c + 1) ≡ c + 1 = omega arith in
      (
        inside,
        rw
            (
              read_region_lem words i (omega arith),
              load_in_range counts at 0 (omega arith),
              c',
              store_in_range counts at (c + 1) (omega arith),
            )
            refl,
      )

  -- `count_types` counts every region once.
  pub count_types-sum :
      (left i : ℕ) (counts : List ℕ)
      → i + left ≤ n
      → length counts ≡ 5
      → sum counts + left < 2 ^ 16
      → (counts' : List ℕ) × (count_types left i words counts ≡ ok counts')
        × (length counts' ≡ 5)
        × (sum counts' ≡ sum counts + left)
  count_types-sum zero i counts le five small =
      (counts, unfold count_types in refl, five, omega arith)
  count_types-sum (suc left) i counts le five small =
      let at = sub32 (region_at words i).type 1 in
      let c = get_or counts at 0 in
      let (inside, step) = count_step left i counts (omega arith) five (omega arith) in
      let added = sum-set counts at (c + 1) (omega arith) in
      let (counts', runs, five', total) =
        count_types-sum left (i + 1) (set counts at (c + 1)) (omega arith)
          (length-set counts at (c + 1) ∙ five) (omega arith) in
      (counts', step ∙ runs, five', omega arith)

  drop_all : (xs : List ℕ) (i : ℕ) → i ≡ length xs → sum (drop i xs) ≡ 0
  drop_all [] zero e = refl
  drop_all [] (suc i) e = refl
  drop_all (x ∷ xs) zero e = absurd (omega arith)
  drop_all (x ∷ xs) (suc i) e = drop_all xs i (omega arith)

  merge_step :
      (left i total : ℕ) (counts : List ℕ)
      → i < length counts
      → total + get_or counts i 0 ≤ n
      → n < 2 ^ 16
      → merge_types (suc left) i total counts words
        ≡ merge_types left (i + 1) (total + get_or counts i 0) counts words
  unfolding merge_types
  merge_step left i total counts lt le small =
      let c = get_or counts i 0 in
      let t : u16 (total + c) ≡ total + c = omega arith in
      rw (load_in_range counts i 0 lt, merge_e820-same words n fits o total c (omega arith), t) refl

  -- `validate` goes through the groups and changes nothing.
  pub merge_types-same :
      (left i total : ℕ) (counts : List ℕ)
      → i + left ≡ length counts
      → total + sum (drop i counts) ≤ n
      → n < 2 ^ 16
      → merge_types left i total counts words ≡ ok (total + sum (drop i counts), words)
  merge_types-same zero i total counts e le small =
      let z = drop_all counts i (omega arith) in
      let t : total + 0 ≡ total = omega arith in unfold merge_types in (rw (z, t) refl)
  merge_types-same (suc left) i total counts e le small =
      let c = get_or counts i 0 in
      let split = sum-drop counts i (omega arith) in
      let k : i + 1 ≡ suc i = omega arith in
      let f : total + c + sum (drop (i + 1) counts) ≡ total + sum (drop i counts) =
        rw k (omega arith) in
      let rest =
        merge_types-same left (i + 1) (total + c) counts (omega arith) (omega arith) small in
      merge_step left i total counts (omega arith) (omega arith) small
      ∙ (rest ∙ ap (λ t. ok (t, words)) f)
