-- ===== src/Kmalloc/Counting.antt =====
-- What `set_ptinfo` counts in a page table.
use boot.Base.{
  panic, List, length, get_or, load_in_range, ltb, bit_and_shifted, bit_and_one, bit_and,
  Bool-cases, inl, inr, ℕ, zero, suc, ◌+◌, ◌-◌, ◌*◌, ◌%◌, ◌^◌, ◌<◌, ◌≤◌, ◌≡◌, refl, ◌∙◌, arith,
  Bool, true, false, ◌==◌, if◌then◌else◌, ok, u16,
}
use boot.Mmu.{Machine, vload}
use boot.Vaddr.{absent}
use boot.Vaddr.Access.{IsRecursive, pde_of, table_of, absent_lem, vload_pd, vload_pt}
use boot.Vaddr.{pd_at, pt_at}
use boot.Kmalloc.{
  vinit_rounds, size_flag, PtInfo, kpd_at, pt_of, count_first, count_rest, set_ptinfo,
}
use boot.Base.{◌/◌}

-- The absent entries among the `left` ones from the index `c` on.
unfoldable pub absent_from : (ℕ → ℕ) → ℕ → ℕ → ℕ
absent_from table zero c = 0
absent_from table (suc left) c =
    (if absent (table c) then 1 else 0) + absent_from table left (c + 1)

-- The index of the first absent entry from `c` on, or the end.
unfoldable pub first_from : (ℕ → ℕ) → ℕ → ℕ → ℕ
first_from table zero c = c
first_from table (suc left) c =
    let later = first_from table left (c + 1) in if absent (table c) then c else later

-- The record that `set_ptinfo` leaves: the first absent entry counts twice.
unfoldable pub counted : (ℕ → ℕ) → PtInfo → PtInfo
counted table info =
    let all = absent_from table 1024 0 in
    if all == 0
    then record info { free = 0 }
    else record info { free = all + 1; first_free = first_from table 1024 0 }

tick_le : (b : Bool) → (if b then 1 else 0) ≤ 1
tick_le true = omega arith
tick_le false = omega arith

pub absent_from-bound : (table : ℕ → ℕ) (left c : ℕ) → absent_from table left c ≤ left
unfolding absent_from
absent_from-bound table zero c = omega arith
absent_from-bound table (suc left) c =
    omega (arith, tick_le (absent (table c)), absent_from-bound table left (c + 1))

module _ (m : Machine) (pt : ℕ) (table : ℕ → ℕ)
    (reads : (c : ℕ) → c < 1024 → vload (pt + 4 * c) m ≡ ok (table c, m)) where
  count_rest_lem :
      (left c : ℕ) (info : PtInfo)
      → c + left ≤ 1024
      → info.free + left < 2 ^ 16
      → count_rest left pt c info m
        ≡ ok (record info { free = info.free + absent_from table left c }, m)
  unfolding count_rest absent_from
  count_rest_lem zero c info h small = let e : info.free + 0 ≡ info.free = omega arith in rw e refl
  count_rest_lem (suc left) c info h small =
      let n = (if absent (table c) then 1 else 0) in
      let t = tick_le (absent (table c)) in
      let e : u16 (info.free + n) ≡ info.free + n = omega (arith, t) in
      let sum : info.free + n + absent_from table left (c + 1)
          ≡ info.free + (n + absent_from table left (c + 1)) =
        omega arith in
      rw (reads c (omega arith)) (
        rw
          (
            e,
            count_rest_lem left (c + 1) (record info { free = info.free + n }) (omega arith)
                (omega (arith, t)),
          )
          (rw sum refl))

  -- The first loop stops at the first absent entry, and counts it.
  count_first_lem :
      (left c : ℕ) (info : PtInfo)
      → c + left ≤ 1024
      → info.free + 1 < 2 ^ 16
      → count_first left pt c info m
        ≡ ok (
          (
            first_from table left c,
            if absent_from table left c == 0
                then info
                else record info { free = info.free + 1; first_free = first_from table left c },
          ),
          m,
        )
  unfolding count_first absent_from first_from
  count_first_lem zero c info h small = refl
  count_first_lem (suc left) c info h small = elim (Bool-cases (absent (table c))) [
    | inl t ↦
        let e : u16 (info.free + 1) ≡ info.free + 1 = omega arith in
        let ne : (1 + absent_from table left (c + 1) == 0) ≡ false = ground arith in
        rw (reads c (omega arith), t) (rw (e, ne) refl)
    | inr f ↦
        let z : 0 + absent_from table left (c + 1) ≡ absent_from table left (c + 1) = omega arith in
        rw (reads c (omega arith), f)
          (rw (count_first_lem left (c + 1) info (omega arith) small) (rw z refl))
  ]

module _ (table : ℕ → ℕ) where
  -- From the first absent entry on, the count is the same.
  absent_from-first :
      (left c : ℕ)
      → absent_from table (left + c - first_from table left c) (first_from table left c)
        ≡ absent_from table left c
  unfolding absent_from first_from
  absent_from-first zero c = let e : 0 + c - c ≡ 0 = omega arith in rw e refl
  absent_from-first (suc left) c = elim (Bool-cases (absent (table c))) [
    | inl t ↦ let e : suc left + c - c ≡ suc left = omega arith in rw (t, e) (rw t refl)
    | inr f ↦
        let e : suc left + c ≡ left + (c + 1) = omega arith in
        let z : 0 + absent_from table left (c + 1) ≡ absent_from table left (c + 1) = omega arith in
        rw (f, e, absent_from-first left (c + 1)) (rw z refl)
  ]

  first_from-bound : (left c : ℕ) → first_from table left c ≤ left + c
  unfolding first_from
  first_from-bound zero c = omega arith
  first_from-bound (suc left) c = elim (Bool-cases (absent (table c))) [
    | inl t ↦ rw t (omega arith)
    | inr f ↦ rw f (omega (arith, first_from-bound left (c + 1)))
  ]

  absent_from-none :
      (left c : ℕ) → absent_from table left c ≡ 0 → first_from table left c ≡ left + c
  unfolding absent_from first_from
  absent_from-none zero c h = omega arith
  absent_from-none (suc left) c h = elim (Bool-cases (absent (table c))) [
    | inl t ↦ absurd (omega (arith, rw t at h))
    | inr f ↦
        let z : 0 + absent_from table left (c + 1) ≡ absent_from table left (c + 1) = omega arith in
        rw f (absent_from-none left (c + 1) (rw (f, z) at h) ∙ omega arith)
  ]

set_ptinfo_lem :
    (m : Machine) (i entry : ℕ) (table : ℕ → ℕ) (info : PtInfo)
    → i < 255
    → vload (kpd_at i) m ≡ ok (entry, m)
    → absent entry ≡ false
    → ((c : ℕ) → c < 1024 → vload (pt_of i + 4 * c) m ≡ ok (table c, m))
    → set_ptinfo i info m ≡ ok (counted table info, m)
unfolding set_ptinfo counted count_rest
set_ptinfo_lem m i entry table info h load present reads =
    let mask : bit_and (pt_of i) size_flag ≡ bit_and (pt_of i / 2 ^ 7) 1 * 2 ^ 7 =
      bit_and_shifted 7 (pt_of i) 1 in
    let low : bit_and (pt_of i / 2 ^ 7) 1 ≡ pt_of i / 2 ^ 7 % 2 = bit_and_one (pt_of i / 2 ^ 7) in
    let z : bit_and (pt_of i) size_flag ≡ 0 = omega (arith, mask, low) in
    let ne : (i == 255) ≡ false = ground arith in
    let start = record info { free = 0 } in
    let first = count_first_lem m (pt_of i) table reads 1024 0 start (omega arith) (omega arith) in
    let le = absent_from-bound table 1024 0 in
    elim (Bool-cases (absent_from table 1024 0 == 0)) [
      | inl none ↦
          let none' : absent_from table 1024 0 ≡ 0 = ground arith in
          let k : first_from table 1024 0 ≡ 1024 = absent_from-none table 1024 0 none' in
          rw (ne, z, load, present) (rw (first, none) (rw k refl))
      | inr some ↦
          let f = first_from table 1024 0 in
          let all = absent_from table 1024 0 in
          let b : f ≤ 1024 = omega (arith, first_from-bound table 1024 0) in
          let back : 1024 + 0 - f ≡ 1024 - f = omega arith in
          let rest : absent_from table (1024 - f) f ≡ all =
            rw back at (absent_from-first table 1024 0) in
          let sum : 0 + 1 + all ≡ all + 1 = omega arith in
          let tail =
            count_rest_lem m (pt_of i) table reads (1024 - f) f
              (record start { free = 0 + 1; first_free = f }) (omega (arith, b))
              (omega (arith, b)) in
          rw (ne, z, load, present) (rw (first, some) (rw (tail, rest) (rw sum refl)))
    ]

-- For a page table of the kernel but the last one, where the page directory is reachable at its top
-- and has the table, `set_ptinfo` notes the index of the first absent entry, and counts one more
-- than the absent entries; without an absent entry it counts 0, and keeps the index.
pub set_ptinfo-counted :
    (m : Machine) (i : ℕ) (info : PtInfo)
    → IsRecursive m
    → i < 255
    → pde_of m (768 + i) % 2 ≡ 1
    → set_ptinfo i info m ≡ ok (counted (m.frames (table_of m (768 + i))) info, m)
set_ptinfo-counted m i info r h present =
    let e : kpd_at i ≡ pd_at (768 + i) = omega arith in
    let here : absent (pde_of m (768 + i)) ≡ false =
      absent_lem (pde_of m (768 + i)) ∙ rw present refl in
    let reads : (c : ℕ)
        → c < 1024
        → vload (pt_of i + 4 * c) m ≡ ok (m.frames (table_of m (768 + i)) c, m) =
      λ c lt.
        let f : pt_of i + 4 * c ≡ pt_at (768 + i) c = omega arith in
        rw f (vload_pt r (768 + i) c (omega arith) lt present) in
    set_ptinfo_lem m i (pde_of m (768 + i)) (m.frames (table_of m (768 + i))) info h
      (rw e (vload_pd r (768 + i) (omega arith))) here reads

-- Where such a table has only absent entries, `vinit` stops at an assertion in its round.
pub vinit_rounds-panic :
    (m : Machine) (left i : ℕ) (ptmeta : List PtInfo)
    → IsRecursive m
    → i < 255
    → i < length ptmeta
    → pde_of m (768 + i) % 2 ≡ 1
    → absent_from (m.frames (table_of m (768 + i))) 1024 0 ≡ 1024
    → vinit_rounds (suc left) i ptmeta m ≡ panic
unfolding vinit_rounds counted
vinit_rounds-panic m left i ptmeta r h inside present empty =
    let d : PtInfo = record { free = 0; pdi = 0; first_free = 0 } in
    let info : PtInfo = record (get_or ptmeta i d) { pdi = i; first_free = 0 } in
    let f = first_from (m.frames (table_of m (768 + i))) 1024 0 in
    elim (Bool-cases (ltb f 1024)) [
      | inl t ↦
          rw (load_in_range ptmeta i d inside, set_ptinfo-counted m i info r h present)
            (rw (empty, t) refl)
      | inr t ↦
          rw (load_in_range ptmeta i d inside, set_ptinfo-counted m i info r h present)
            (rw (empty, t) refl)
    ]
