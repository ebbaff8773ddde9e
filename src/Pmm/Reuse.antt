-- ===== src/Pmm/Reuse.antt =====
-- A page that is freed is the next one that is allocated.
use boot.Base.{
  page_mask, ℕ, ◌+◌, ◌*◌, ◌/◌, ◌^◌, ◌-◌, ◌<◌, ◌≡◌, refl, arith, ok, bit_and, bit_and_low, add32,
  sub32, ◌==◌,
}
use boot.Vaddr.Translate.{IsRecursive-put_word}
use boot.Mmu.{◌>>=◌, Machine, put_word}
use boot.Vaddr.Access.{IsRecursive, table_of, pde_of}
use boot.Vaddr.Calls.{slot, mapping, replaced, IsWords, entry, pt_map-present, slot}
use boot.Pmm.{Pmm, pmm_alloc_ppage, pmm_free_ppage, pt_page_mask}
use boot.Pmm.Stack.{IsStack, vload_stack, vstore_stack, IsStack-elsewhere}
use boot.Base.{false, true, ◌≢◌, Bool-cases, sym, inl, inr, ◌∙◌, ap}
use boot.Vaddr.{pdi}
use boot.Pmm.Stack.{IsStack-replaced, mapping_odd, mapping_page}
use boot.Vaddr.Translate.{put_word-here, put_word-elsewhere}

-- The variables after a page was freed.
abbrev pub given : Pmm → Pmm
given p = record p { pidx = sub32 p.pidx 1; pfree = add32 p.pfree 1 }

-- The place that the freed page takes.
abbrev pub place : Pmm → ℕ
place p = bit_and (sub32 p.pidx 1) 1023

pub place_low : (p : Pmm) → place p < 1024
place_low p = omega (arith, bit_and_low 10 (sub32 p.pidx 1))

taken_back : (p : Pmm) → p.pidx < 2 ^ 32 → add32 (sub32 p.pidx 1) 1 ≡ p.pidx
taken_back p h = omega arith

module _ {m : Machine} (at frame q : ℕ) (p : Pmm) (r : IsRecursive m) (s : IsStack m at frame)
    (hp : p.pfree + 1 < 2 ^ 32) (hi : p.pidx < 2 ^ 32) where
  pub free_inside :
      (place p == 1023) ≡ false
      → pmm_free_ppage at (q * 2 ^ 12) p m ≡ ok (given p, put_word m frame (place p) (q * 2 ^ 12))
  unfolding pmm_free_ppage
  free_inside f = rw (f, vstore_stack s (place p) (place_low p) (q * 2 ^ 12)) refl

  alloc_inside :
      (place p == 1023) ≡ false
      → pmm_alloc_ppage at (given p) m ≡ ok ((m.frames frame (place p), p), m)
  unfolding pmm_alloc_ppage
  alloc_inside f =
      let z : (add32 p.pfree 1 == 0) ≡ false = ground arith in
      let e : add32 p.pfree 1 - 1 ≡ p.pfree = omega arith in
      rw (z, f, vload_stack s (place p) (place_low p)) (rw (taken_back p hi, e) refl)

  module _ (t : (place p == 1023) ≡ true) (words : IsWords m) (hq : q < 2 ^ 20) (n1 : q ≢ m.cr3)
      (n2 : q ≢ table_of m (pdi at)) where
    abbrev pub moved : Machine
    moved = replaced m at (mapping (q * 2 ^ 12) 3) (at / 2 ^ 12 * 2 ^ 12)

    IsStack-moved : IsStack moved at q
    IsStack-moved =
        IsStack-replaced (mapping (q * 2 ^ 12) 3) q (at / 2 ^ 12 * 2 ^ 12) s (mapping_odd q)
          (mapping_page q) n1 n2

    abbrev pub linked : Machine
    linked = put_word moved q 1023 (frame * 2 ^ 12)

    pub IsStack-linked : IsStack linked at q
    IsStack-linked =
        IsStack-elsewhere q 1023 (frame * 2 ^ 12) n1 IsStack-moved.not_table IsStack-moved

    IsRecursive-moved : IsRecursive moved
    IsRecursive-moved =
        let w =
          IsRecursive-put_word (table_of m (pdi at)) (slot at) (mapping (q * 2 ^ 12) 3)
            (inl s.dir_not_table) r in
        record { is_present = w.is_present; is_small = w.is_small; is_self = w.is_self }

    pub IsRecursive-linked : IsRecursive linked
    IsRecursive-linked =
        IsRecursive-put_word q 1023 (frame * 2 ^ 12) (inl (λ e. n1 (sym e))) IsRecursive-moved

    old_page : bit_and (entry m at) pt_page_mask ≡ frame * 2 ^ 12
    old_page =
        page_mask (entry m at) (words (table_of m (pdi at)) (slot at))
        ∙ ap (λ f. f * 2 ^ 12) s.leads

    pub free_linked : pmm_free_ppage at (q * 2 ^ 12) p m ≡ ok (given p, linked)
    unfolding pmm_free_ppage
    free_linked =
        rw
          (
            t,
            pt_map-present r at s.low (q * 2 ^ 12) 3 s.is_present,
            old_page,
            vstore_stack IsStack-moved 1023 (omega arith) (frame * 2 ^ 12),
          )
          refl

    abbrev back : Machine
    back = replaced linked at (mapping (frame * 2 ^ 12) 3) (at / 2 ^ 12 * 2 ^ 12)

    new_page : bit_and (entry linked at) pt_page_mask ≡ q * 2 ^ 12
    new_page =
        let l = IsStack-linked.leads in
        page_mask (entry linked at) (omega arith) ∙ ap (λ f. f * 2 ^ 12) l

    link_word : linked.frames q 1023 ≡ frame * 2 ^ 12
    link_word = put_word-here moved q 1023 (frame * 2 ^ 12) q 1023 refl refl

    alloc_linked : pmm_alloc_ppage at (given p) linked ≡ ok ((q * 2 ^ 12, p), back)
    unfolding pmm_alloc_ppage
    alloc_linked =
        let z : (add32 p.pfree 1 == 0) ≡ false = ground arith in
        let e : add32 p.pfree 1 - 1 ≡ p.pfree = omega arith in
        rw (z, t, vload_stack IsStack-linked 1023 (omega arith), link_word)
          (rw
            (
              pt_map-present IsRecursive-linked at s.low (frame * 2 ^ 12) 3
                  IsStack-linked.is_present,
              new_page,
              taken_back p hi,
              e,
            )
            refl)

    pub same_dir : pde_of linked (pdi at) ≡ pde_of m (pdi at)
    same_dir =
        put_word-elsewhere moved q 1023 (frame * 2 ^ 12) m.cr3 m.cr3 (pdi at) refl
          (inl (λ e. n1 (sym e)))
        ∙ put_word-elsewhere m (table_of m (pdi at)) (slot at) (mapping (q * 2 ^ 12) 3) m.cr3 m.cr3
            (pdi at) refl (inl s.dir_not_table)

    IsStack-back : IsStack back at frame
    IsStack-back =
        IsStack-replaced (mapping (frame * 2 ^ 12) 3) frame (at / 2 ^ 12 * 2 ^ 12) IsStack-linked
          (mapping_odd frame) (mapping_page frame) s.not_dir (rw same_dir s.not_table)

-- With a recursive directory and a stack that `curr_pages` leads to, a 20-bit page number, and
-- counters that do not overflow: a page that is freed is the page that the next allocation
-- returns, also where it becomes the next frame of the stack. The counters are then the old ones,
-- and `curr_pages` leads to the frame it led to before. The page must be neither the directory nor
-- the page table for `curr_pages`.
pub pmm_alloc_ppage-pmm_free_ppage :
    {m : Machine} (at frame q : ℕ) (p : Pmm)
    → IsRecursive m
    → IsStack m at frame
    → p.pfree + 1 < 2 ^ 32
    → p.pidx < 2 ^ 32
    → IsWords m
    → q < 2 ^ 20
    → q ≢ m.cr3
    → q ≢ table_of m (pdi at)
    → (m' : Machine) × ((pmm_free_ppage at (q * 2 ^ 12) p >>= pmm_alloc_ppage at) m
        ≡ ok ((q * 2 ^ 12, p), m'))
      × IsStack m' at frame
pmm_alloc_ppage-pmm_free_ppage {m} at frame q p r s hp hi words hq n1 n2 =
    elim (Bool-cases (place p == 1023)) [
      | inl t ↦ (
        back at frame q p r s hp hi t words hq n1 n2,
        rw (free_linked at frame q p r s hp hi t words hq n1 n2)
            (alloc_linked at frame q p r s hp hi t words hq n1 n2),
        IsStack-back at frame q p r s hp hi t words hq n1 n2,
      )
      | inr f ↦
          let m1 = put_word m frame (place p) (q * 2 ^ 12) in
          let s1 = IsStack-elsewhere frame (place p) (q * 2 ^ 12) s.not_dir s.not_table s in
          let r1 =
            IsRecursive-put_word frame (place p) (q * 2 ^ 12) (inl (λ e. s.not_dir (sym e))) r in
          (
            m1,
            rw (free_inside at frame q p r s hp hi f) (
                alloc_inside at frame q p r1 s1 hp hi f
                ∙ rw (put_word-here m frame (place p) (q * 2 ^ 12) frame (place p) refl refl) refl),
            s1,
          )
    ]
