-- ===== src/Kernel/Taking.antt =====
-- The last loop of the test leaves no page.
use boot.Base.{
  ok, add32, ℕ, zero, suc, ◌-◌, ◌≡◌, refl, arith, Bool-cases, inl, inr, ◌==◌, Ensures, Ensures-then,
  Ensures-bind, Ensures-weaker,
}
use boot.Mmu.{Cmd, Machine}
use boot.Pmm.{next_paddr, Pmm, pmm_alloc_ppage, pmm_free_pages}
use boot.Kernel.{check_page, cycle_pages, take_pages, test_pages}

module _ (curr_pages : ℕ) where
  pmm_alloc_ppage-pfree :
      (p : Pmm) (m : Machine)
      → Ensures (λ (r, m'). r.1.pfree ≡ p.pfree - 1) (pmm_alloc_ppage curr_pages p m)
  unfolding pmm_alloc_ppage
  pmm_alloc_ppage-pfree p m =
      let Result : (ℕ × Pmm) × Machine → Type 0 = λ (r, m'). r.1.pfree ≡ p.pfree - 1 in
      elim (Bool-cases (p.pfree == 0)) [
        | inl t ↦ let z : p.pfree ≡ p.pfree - 1 = ground arith in rw (pmm_alloc_ppage, t) z
        | inr t ↦
            rw (pmm_alloc_ppage, t)
              (Ensures-then Result (next_paddr curr_pages p m)
                (λ (paddr, m').
                  ok ((paddr, record p { pidx = add32 p.pidx 1; pfree = p.pfree - 1 }), m'))
                (λ a. refl))
      ]

  module _ {C : Type 0} (report show_free : ℕ → C → Cmd C) where
    take_pages-pfree :
        (left : ℕ) (p : Pmm) (c : C) (m : Machine)
        → Ensures
            (λ (r, m'). r.0.pfree ≡ p.pfree - left)
            (take_pages curr_pages report show_free left p c m)
    unfolding take_pages
    take_pages-pfree zero p c m = omega arith
    take_pages-pfree (suc left) p c m =
        let Result : (Pmm × C) × Machine → Type 0 = λ (r, m'). r.0.pfree ≡ p.pfree - suc left in
        Ensures-bind (λ (r, m'). r.1.pfree ≡ p.pfree - 1) Result (pmm_alloc_ppage curr_pages p m) _
          (pmm_alloc_ppage-pfree p m)
          (λ ((temp_page, p1), m1) e.
            Ensures-then Result (check_page curr_pages report show_free temp_page c m1) _
              (λ (c', m2).
                Ensures-weaker (λ (r, m'). r.0.pfree ≡ p1.pfree - left) Result
                  (take_pages curr_pages report show_free left p1 c' m2)
                  (λ (r, m') f. omega (arith, e, f)) (take_pages-pfree left p1 c' m2)))

    -- When the test of the physical pages returns, no page is free, whatever was free before.
    pub test_pages-pfree :
        (p : Pmm) (c : C) (m : Machine)
        → Ensures (λ (r, m'). pmm_free_pages r.0 ≡ 0) (test_pages curr_pages report show_free p c m)
    unfolding test_pages
    test_pages-pfree p c m =
        let Result : (Pmm × C) × Machine → Type 0 = λ (r, m'). pmm_free_pages r.0 ≡ 0 in
        Ensures-then Result (show_free (pmm_free_pages p) c m) _ (λ (c0, m0).
          Ensures-then Result (pmm_alloc_ppage curr_pages p m0) _ (λ ((temp_page, p1), m1).
            Ensures-then Result
              (cycle_pages curr_pages report show_free (pmm_free_pages p) temp_page p1 c0 m1) _
              (λ ((p2, c2), m2).
                Ensures-then Result (show_free (pmm_free_pages p2) c2 m2) _ (λ (c3, m3).
                  Ensures-bind (λ (r, m'). r.0.pfree ≡ p2.pfree - p2.pfree) Result
                    (take_pages curr_pages report show_free (pmm_free_pages p2) p2 c3 m3) _
                    (take_pages-pfree (pmm_free_pages p2) p2 c3 m3)
                    (λ ((p4, c4), m4) f.
                      let z : p4.pfree ≡ 0 = omega (arith, f) in
                      Ensures-then Result (show_free (pmm_free_pages p4) c4 m4) _
                        (λ (c5, m5). z))))))
