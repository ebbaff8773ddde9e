-- ===== src/Kmalloc/Taking.antt =====
-- The page that `valloc` takes, and what it notes in the record.
use boot.Base.{
  Bool-cases, false, inl, inr, ℕ, ◌+◌, ◌-◌, ◌*◌, ◌/◌, ◌^◌, ◌<◌, ◌≡◌, ◌≢◌, refl, ◌∙◌, arith, not,
  ◌==◌, ltb, u16, u32, add32, sub32, bit_and, bit_and_low, length, get_or, set, Ensures,
  Ensures-then, Ensures-bind, load_in_range, store_in_range,
}
use boot.Mmu.{Machine, vload}
use boot.Pmm.{Pmm}
use boot.Kmalloc.{
  assert-Ensures, PtInfo, Kmalloc, kpd_at, pt_of, next_free, update_first_free, take_page,
}
use boot.Kmalloc.Bubble.{none_info}
use boot.Kmalloc.{valloc, pmm_alloc_ppage, pt_map}

-- The record that `valloc` looks at.
abbrev pub first_info : Kmalloc → PtInfo
first_info k = get_or k.ptmeta k.ptmeta_first_free none_info

-- The address names the record and the page as `vfree` reads them from it, and the record has one
-- free page less.
pub record IsTaken (k : Kmalloc) (vaddr : ℕ) (k' : Kmalloc) : Type 0 where
  pub was_free : (first_info k).free ≢ 0
  pub of_table : sub32 (vaddr / 2 ^ 22) 768 ≡ (first_info k).pdi
  pub of_page : bit_and (vaddr / 2 ^ 12) 0x3FF ≡ (first_info k).first_free
  pub counted :
      (info : PtInfo) × (k'.ptmeta ≡ set k.ptmeta k.ptmeta_first_free info)
      × (info.free + 1 ≡ (first_info k).free)
      × (info.pdi ≡ (first_info k).pdi)

abbrev taken_address : PtInfo → ℕ
taken_address info = add32 (u32 ((info.pdi + 768) * 2 ^ 22)) (info.first_free * 2 ^ 12)

taken :
    (k : Kmalloc)
    → (first_info k).pdi < 256
    → (first_info k).free ≢ 0
    → (first_info k).first_free < 1024
    → (k' : Kmalloc)
    → ((info : PtInfo) × (k'.ptmeta ≡ set k.ptmeta k.ptmeta_first_free info)
        × (info.free + 1 ≡ (first_info k).free)
        × (info.pdi ≡ (first_info k).pdi))
    → IsTaken k (taken_address (first_info k)) k'
taken k small nz lt k' c =
    let v = taken_address (first_info k) in
    record {
      was_free = nz;
      of_table = omega arith;
      of_page = bit_and_low 10 (v / 2 ^ 12) ∙ omega arith;
      counted = c;
    }

module _ (curr_pages : ℕ) where
  update_first_free-kept :
      (info : PtInfo) (pdi : ℕ) (pmm : Pmm) (m : Machine)
      → Ensures
          (λ (r, m'). (r.0.free ≡ info.free) × (r.0.pdi ≡ info.pdi))
          (update_first_free curr_pages info pdi pmm m)
  unfolding update_first_free
  update_first_free-kept info pdi pmm m =
      let Result : (PtInfo × Pmm) × Machine → Type 0 =
        λ (r, m'). (r.0.free ≡ info.free) × (r.0.pdi ≡ info.pdi) in
      Ensures-then Result (vload (kpd_at pdi) m) _ (λ (entry, m).
        Ensures-then {A = Pmm × Machine} Result _ _
          (λ (pmm, m). Ensures-then Result (next_free 1023 (pt_of pdi) 0 m) _ (λ a. (refl, refl))))

  take_page-IsTaken :
      (k : Kmalloc) (m : Machine)
      → k.ptmeta_first_free < length k.ptmeta
      → (first_info k).pdi < 256
      → Ensures (λ (r, m'). IsTaken k r.0 r.1) (take_page curr_pages k m)
  unfolding take_page
  take_page-IsTaken k m inside small =
      let Result : (ℕ × Kmalloc) × Machine → Type 0 = λ (r, m'). IsTaken k r.0 r.1 in
      let info = first_info k in
      rw (load_in_range k.ptmeta k.ptmeta_first_free none_info inside) (
        assert-Ensures Result (not (info.free == 0)) _ m (λ t.
          assert-Ensures Result (ltb info.first_free 1024) _ m (λ u.
            let nz : info.free ≢ 0 = ground arith in
            let lt : info.first_free < 1024 = ground arith in
            let less_free : PtInfo = record info { free = info.free - 1 } in
            let one : info.free - 1 + 1 ≡ info.free = omega arith in
            elim (Bool-cases (info.free - 1 == 0)) [
              | inl b ↦
                  rw (b, store_in_range k.ptmeta k.ptmeta_first_free less_free inside)
                    (taken k small nz lt
                      (record k {
                        ptmeta = set k.ptmeta k.ptmeta_first_free less_free;
                        ptmeta_first_free = u16 (k.ptmeta_first_free + 1);
                      })
                      (less_free, refl, one, refl))
              | inr b ↦ rw b (
                  Ensures-bind (λ (r, m'). (r.0.free ≡ info.free - 1) × (r.0.pdi ≡ info.pdi)) Result
                    (update_first_free curr_pages less_free info.pdi k.pmm m) _
                    (update_first_free-kept less_free info.pdi k.pmm m)
                    (λ ((new, pmm), m') (e, f).
                      rw (store_in_range k.ptmeta k.ptmeta_first_free new inside) (
                        taken k small nz lt
                          (record k { ptmeta = set k.ptmeta k.ptmeta_first_free new; pmm = pmm })
                          (new, refl, omega arith, f))))
            ])))

  -- When `valloc` returns, with its first record in range and that record for one of the 256 tables: the
  -- address leads `vfree` back to the record and the page in it, the record was not full, and it now has
  -- one free page less.
  pub valloc-IsTaken :
      (k : Kmalloc) (m : Machine)
      → k.ptmeta_first_free < 256
      → k.ptmeta_first_free < length k.ptmeta
      → (first_info k).pdi < 256
      → Ensures (λ (r, m'). IsTaken k r.0 r.1) (valloc curr_pages k m)
  unfolding valloc
  valloc-IsTaken k m first inside small =
      let Result : (ℕ × Kmalloc) × Machine → Type 0 = λ (r, m'). IsTaken k r.0 r.1 in
      let t : ltb 255 k.ptmeta_first_free ≡ false = ground arith in
      rw t (
        Ensures-bind Result Result (take_page curr_pages k m) _ (take_page-IsTaken k m inside small)
          (λ ((vaddr, k'), m') taken.
            Ensures-then Result (pmm_alloc_ppage curr_pages k'.pmm m') _ (λ ((paddr, pmm), m'').
              Ensures-then Result (pt_map paddr vaddr 2 m'') _ (λ a. record {
                was_free = taken.was_free;
                of_table = taken.of_table;
                of_page = taken.of_page;
                counted = taken.counted;
              }))))
