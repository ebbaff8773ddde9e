-- ===== src/Kmalloc/Bubble.antt =====
-- The order of the records after the last loop of `vfree`.
use mathlib.Core.List.{Perm}
use mathlib.Core.List.Perm
use native.Mathlib.Decide.{ℕ_discrete}
use boot.Base.{
  ℕ, zero, suc, ◌+◌, ◌<◌, ◌≡◌, ◌≢◌, refl, ◌∙◌, arith, List, length, get_or, set, set_same,
  move-perm, length-set, get_or-set_self, get_or-set_ne, load_in_range, store_in_range, true, false,
  ok, Bool-cases, inl, inr,
}
use boot.Kmalloc.{PtInfo, by_free, bubble}
use boot.Sort.Order.{less, IsAscending}

abbrev pub none_info : PtInfo
none_info = record { free = 0; pdi = 0; first_free = 0 }

-- The records ascend, but for the one with the index `idx`, which may be too large.
abbrev pub IsAscendingBut : ℕ → ℕ → List PtInfo → Type 0
IsAscendingBut idx n a =
    (p q : ℕ) → p < q → q < n → p ≢ idx → less (get_or a q none_info) (get_or a p none_info) ≡ false

module _ (a : List PtInfo) (idx : ℕ) (fits : idx + 1 < length a) where
  abbrev next : PtInfo
  next = get_or a (idx + 1) none_info

  abbrev info : PtInfo
  info = get_or a idx none_info

  abbrev swapped : List PtInfo
  swapped = set (set a (idx + 1) info) idx next

  length-swapped : length swapped ≡ length a
  length-swapped = length-set (set a (idx + 1) info) idx next ∙ length-set a (idx + 1) info

  swapped_first : get_or swapped idx none_info ≡ next
  swapped_first =
      get_or-set_self (set a (idx + 1) info) idx next none_info
        (omega (arith, length-set a (idx + 1) info))

  swapped_second : get_or swapped (idx + 1) none_info ≡ info
  swapped_second =
      get_or-set_ne (set a (idx + 1) info) idx (idx + 1) next none_info (omega arith)
      ∙ get_or-set_self a (idx + 1) info none_info fits

  swapped_other :
      (p : ℕ) → idx ≢ p → idx + 1 ≢ p → get_or swapped p none_info ≡ get_or a p none_info
  swapped_other p n k =
      get_or-set_ne (set a (idx + 1) info) idx p next none_info n
      ∙ get_or-set_ne a (idx + 1) p info none_info k

  swapped-perm : Perm swapped a
  swapped-perm =
      let p = move-perm a (idx + 1) idx next none_info fits (omega arith) (omega arith) in
      rw (set_same a (idx + 1) none_info) at p

  -- An exchange moves the place of the exception up by one.
  swapped-IsAscendingBut :
      (n : ℕ)
      → idx + 1 < n
      → IsAscendingBut idx n a
      → less next info ≡ true
      → IsAscendingBut (idx + 1) n swapped
  swapped-IsAscendingBut n inside h lt p q pq qn ne = elim (ℕ_discrete p idx) [
    | yes e ↦
        let u : get_or swapped p none_info ≡ next = rw e swapped_first in
        elim (ℕ_discrete q (idx + 1)) [
          | yes f ↦
              let v : get_or swapped q none_info ≡ info = rw f swapped_second in
              rw (u, v) (by_free.asym next info lt)
          | no f ↦
              rw (u, swapped_other q (omega arith) (omega arith))
                (h (idx + 1) q (omega arith) qn (omega arith))
        ]
    | no e ↦
        let u = swapped_other p (omega arith) (omega arith) in
        elim (ℕ_discrete q idx) [
          | yes f ↦
              let v : get_or swapped q none_info ≡ next = rw f swapped_first in
              rw (u, v) (h p (idx + 1) (omega arith) inside e)
          | no f ↦ elim (ℕ_discrete q (idx + 1)) [
            | yes g ↦
                let v : get_or swapped q none_info ≡ info = rw g swapped_second in
                rw (u, v) (h p idx (omega arith) (omega arith) e)
            | no g ↦ rw (u, swapped_other q (omega arith) (omega arith)) (h p q pq qn e)
          ]
        ]
  ]

-- Where the next record is not smaller, there is no exception.
stop-IsAscending :
    (n idx : ℕ) (a : List PtInfo)
    → IsAscendingBut idx n a
    → less (get_or a (idx + 1) none_info) (get_or a idx none_info) ≡ false
    → IsAscending none_info n a
stop-IsAscending n idx a h stop p q pq qn = elim (ℕ_discrete p idx) [
  | yes e ↦ elim (ℕ_discrete q (idx + 1)) [
    | yes f ↦ rw (e, f) stop
    | no f ↦ rw e (
        by_free.trans (get_or a idx none_info) (get_or a (idx + 1) none_info) (get_or a q none_info)
          stop (h (idx + 1) q (omega arith) qn (omega arith)))
  ]
  | no e ↦ h p q pq qn e
]

bubble_lem :
    (left idx n : ℕ) (a : List PtInfo)
    → length a ≡ n
    → n ≡ idx + 1 + left
    → IsAscendingBut idx n a
    → (b : List PtInfo) × (bubble left idx a ≡ ok b) × Perm b a × IsAscending none_info n b
unfolding bubble
bubble_lem zero idx n a len last h = (a, refl, Perm.refl a, λ p q pq qn. h p q pq qn (omega arith))
bubble_lem (suc left) idx n a len last h =
    let fits : idx + 1 < length a = omega arith in
    let here : idx < length a = omega arith in
    let x = next a idx fits in
    let y = info a idx fits in
    let c = set a (idx + 1) y in
    let at_next = load_in_range a (idx + 1) none_info fits in
    let at_idx = load_in_range a idx none_info here in
    elim (Bool-cases (less x y)) [
      | inl t ↦
          let (b, run, perm, up) =
            bubble_lem left (idx + 1) n (swapped a idx fits) (length-swapped a idx fits ∙ len)
              (omega arith) (swapped-IsAscendingBut a idx fits n (omega arith) h t) in
          let first = store_in_range a (idx + 1) y fits in
          let second = store_in_range c idx x (omega (arith, length-set a (idx + 1) y)) in
          (
            b,
            rw (at_next, at_idx) (rw (t, first) (rw second run)),
            Perm.trans perm (swapped-perm a idx fits),
            up,
          )
      | inr f ↦ (a, rw (at_next, at_idx) (rw f refl), Perm.refl a, stop-IsAscending n idx a h f)
    ]

-- Where the records ascend but for the one with the index `idx`, which may be too large, and `left`
-- records follow it, the last loop of `vfree` returns, and leaves the same records in ascending
-- order of their counts.
pub bubble-IsAscending :
    (left idx : ℕ) (a : List PtInfo)
    → length a ≡ idx + 1 + left
    → IsAscendingBut idx (length a) a
    → (b : List PtInfo) × (bubble left idx a ≡ ok b) × Perm b a × IsAscending none_info (length a) b
bubble-IsAscending left idx a len h = bubble_lem left idx (length a) a refl len h
