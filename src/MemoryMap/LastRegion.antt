-- ===== src/MemoryMap/LastRegion.antt =====
-- `validate` on regions of one type of which the last may overlap the one in front of it, or belong
-- in front of all others.
use boot.Base.{
  ℕ, zero, suc, ◌+◌, ◌-◌, ◌*◌, ◌^◌, ◌<◌, ◌≤◌, ◌≡◌, ◌⊎◌, inl, inr, refl, ◌∙◌, ap, sym, arith, List,
  [], ◌∷◌, ◌++◌, length, length-append, ok, fault,
}
use mathlib.Core.Path.{subst}
use native.Mathlib.Decide.{dec_lt}
use boot.MemoryMap.{Smap32, validate, sort_e820, merge_e820}
use boot.MemoryMap.Regions.{region_at, regions, entries, put}
use boot.MemoryMap.Compress.{low_ones, AllAddressed, compress_e820_low}
use boot.MemoryMap.Insertion.{IsOrdered, sort_e820-ordered, sort_e820-front}
use boot.MemoryMap.Merging.{InOrder, InOrder-next}
use boot.MemoryMap.Joining.{joined, regions-put, regions-last, merge_rounds-joined}
use boot.MemoryMap.OneType.{count_types-one, merge_types-one}

abbrev pub All : (Smap32 → Type 0) → List Smap32 → Type 0
All P [] = Unit
All P (r ∷ rs) = P r × All P rs

All-region_at :
    (P : Smap32 → Type 0) (words : List ℕ) (n j k : ℕ)
    → All P (regions n j words)
    → k < n
    → P (region_at words (j + k))
All-region_at P words zero j k a h = elim h [ ]
All-region_at P words (suc n) j zero a h =
    let e : j + 0 ≡ j = omega arith in subst (λ i. P (region_at words i)) (sym e) a.0
All-region_at P words (suc n) j (suc k) a h =
    let e : j + suc k ≡ j + 1 + k = omega arith in
    subst (λ i. P (region_at words i)) (sym e) (All-region_at P words n (j + 1) k a.1 (omega arith))

abbrev pub HasType : ℕ → Smap32 → Type 0
HasType t r = r.type ≡ t

-- `z` begins in front of `r`.
abbrev pub IsBehind : Smap32 → Smap32 → Type 0
IsBehind z r = z.base < r.base

-- The memory holds `rs`, `p` and `z`, all of the type `t`, of which all but `z` are in order.
module _ (new : List ℕ) (rs : List Smap32) (p z : Smap32) (t : ℕ)
    (e : regions (suc (suc (length rs))) 0 new ≡ rs ++ (p ∷ z ∷ []))
    (fits : 3 * (length rs + 2) ≤ length new) (lo : 1 ≤ t) (hi : t ≤ 5)
    (typed : All (HasType t) (rs ++ (p ∷ z ∷ []))) (order : InOrder (rs ++ (p ∷ []))) where
  abbrev m : ℕ
  m = length rs

  at_p : region_at new m ≡ p
  at_p = let k : 0 + m ≡ m = omega arith in rw k at ((regions-last rs new 0 p z e).0)

  at_z : region_at new (m + 1) ≡ z
  at_z = let k : 0 + m ≡ m = omega arith in rw k at ((regions-last rs new 0 p z e).1)

  order_at : InOrder (regions (m + 1) 0 new)
  order_at =
      let k : m + 1 ≡ suc m = omega arith in
      subst InOrder (sym ((regions-last rs new 0 p z e).2) ∙ ap (λ i. regions i 0 new) (sym k))
        order

  type_at : (k : ℕ) → k < m + 2 → (region_at new k).type ≡ t
  type_at k h =
      let i : 0 + k ≡ k = omega arith in
      rw i at (
        All-region_at (HasType t) new (suc (suc m)) 0 k (subst (All (HasType t)) (sym e) typed)
          (omega arith))

  IsOrdered-below : IsOrdered new (m + 1)
  IsOrdered-below i pos lt =
      let k : 0 + (i - 1) ≡ i - 1 = omega arith in
      let k' : i - 1 + 1 ≡ i = omega arith in
      let (apart, kinds) =
        rw (k, k') at (InOrder-next new (m + 1) 0 (i - 1) order_at (omega arith)) in
      ground arith

  IsOrdered-all : p.base ≤ z.base → IsOrdered new (m + 2)
  IsOrdered-all le i pos lt = elim (dec_lt i (m + 1)) [
    | yes below ↦ IsOrdered-below i pos below
    | no ge ↦
        let here : i ≡ m + 1 = omega arith in
        let k : m + 1 - 1 ≡ m = omega arith in
        let a = type_at m (omega arith) in
        let b = type_at (m + 1) (omega arith) in
        let bp = ap (λ r. r.base) at_p in
        let bz = ap (λ r. r.base) at_z in rw (here, k) (ground arith)
  ]

  -- `sortE820` runs past the front.
  front_lem :
      length new ≤ 3 * 65535 → All (IsBehind z) (rs ++ (p ∷ [])) → sort_e820 new (m + 2) ≡ fault
  front_lem small behind =
      let k : m + 1 ≡ suc m = omega arith in
      let behind_at : All (IsBehind z) (regions (suc m) 0 new) =
        subst (All (IsBehind z)) (sym ((regions-last rs new 0 p z e).2)) behind in
      sort_e820-front new (m + 2) (m + 1) (omega arith) (omega arith) (omega arith) small
        IsOrdered-below
        (λ i lt.
          let o : 0 + i ≡ i = omega arith in
          let b = rw o at (All-region_at (IsBehind z) new (suc m) 0 i behind_at (omega arith)) in
          let bz = ap (λ r. r.base) at_z in ground arith)

  -- The groups of `validate` join the last two.
  merged_lem :
      p.base + p.length < 2 ^ 32
      → z.base + z.length < 2 ^ 32
      → merge_e820 new 0 (m + 2) ≡ ok (put new m (joined p z))
  unfolding merge_e820
  merged_lem low low' =
      let bp = ap (λ r. r.base + r.length) at_p in
      let bz = ap (λ r. r.base + r.length) at_z in
      merge_rounds-joined new m fits order_at (m + 2) 1 (omega arith) (omega arith) (omega arith)
        (omega arith) (omega arith)
      ∙ (ap (λ r. ok (put new m (joined r (region_at new (m + 1))))) at_p
          ∙ ap (λ r. ok (put new m (joined p r))) at_z)

  regions-joined : regions (suc (suc m)) 0 (put new m (joined p z)) ≡ rs ++ (joined p z ∷ z ∷ [])
  regions-joined =
      let k : 0 + m ≡ m = omega arith in
      let bt = ap (λ r. r.type) at_p in
      let small : p.type < 2 ^ 16 = omega (arith, type_at m (omega arith)) in
      rw k at (regions-put rs new 0 p (joined p z) z (omega arith) small e)

-- For fewer than 2 ^ 16 entries inside the memory, which has room for fewer than 2 ^ 16 regions, and
-- none of which goes on behind 2 ^ 64: let the regions from below 2 ^ 32 - 1 be at least two, all of
-- one type from 1 to 5, of which all but the last stand in the order of their addresses and do not
-- overlap, and let the last two end below 4 GiB. When the last one begins in front of all others,
-- `validate` faults, since the sort runs past the front of the memory. When it does not begin in
-- front of the one before it, `validate` returns the number of regions, and they stand at the start
-- of the memory, but where the last two overlap, the length of the one before the last is its own
-- or the end of the last one, whichever is more, and the last one is still there.
pub validate-last :
    (words : List ℕ) (n : ℕ) (rs : List Smap32) (p z : Smap32) (t : ℕ)
    → n < 2 ^ 16
    → 6 * n ≤ length words
    → length words ≤ 3 * 65535
    → AllAddressed (entries n 0 words)
    → low_ones (entries n 0 words) ≡ rs ++ (p ∷ z ∷ [])
    → 1 ≤ t
    → t ≤ 5
    → All (HasType t) (rs ++ (p ∷ z ∷ []))
    → InOrder (rs ++ (p ∷ []))
    → p.base + p.length < 2 ^ 32
    → z.base + z.length < 2 ^ 32
    → All (IsBehind z) (rs ++ (p ∷ [])) ⊎ (p.base ≤ z.base)
    → (All (IsBehind z) (rs ++ (p ∷ [])) × (validate words n ≡ fault))
      ⊎ ((p.base ≤ z.base)
          × (new : List ℕ) × (validate words n ≡ ok (length rs + 2, new))
          × (regions (length rs + 2) 0 new ≡ rs ++ (joined p z ∷ z ∷ [])))
unfolding validate
validate-last words n rs p z t small fits room addressed e lo hi typed order low low' place =
    let (new, compressed, written, kept, few) = compress_e820_low words n small fits addressed in
    let m = length rs in
    let size : length (low_ones (entries n 0 words)) ≡ m + 2 =
      ap length e ∙ omega (arith, length-append rs (p ∷ z ∷ [])) in
    let k : m + 2 ≡ suc (suc m) = omega arith in
    let e' : regions (suc (suc m)) 0 new ≡ rs ++ (p ∷ z ∷ []) =
      ap (λ i. regions i 0 new) (sym (size ∙ k)) ∙ (written ∙ e) in
    let inside : 3 * (m + 2) ≤ length new = omega arith in
    let runs = rw size at compressed in
    elim place [
      | inl behind ↦ inl (
        behind,
        rw (runs, front_lem new rs p z t e' inside lo hi typed order (omega arith) behind) refl,
      )
      | inr le ↦
          let sorted =
            sort_e820-ordered new (m + 2) inside
              (IsOrdered-all new rs p z t e' inside lo hi typed order le) in
          let counts =
            count_types-one new (m + 2) t inside lo hi
              (type_at new rs p z t e' inside lo hi typed order) (omega arith) in
          let merged =
            merge_types-one 5 0 (m + 2) (t - 1) new (put new m (joined p z)) (omega arith)
              (omega arith) (omega arith) (omega arith)
              (merged_lem new rs p z t e' inside lo hi typed order low low') in
          inr (
            le,
            put new m (joined p z),
            rw (runs, sorted, counts) merged,
            rw k (regions-joined new rs p z t e' inside lo hi typed order),
          )
    ]
