-- ===== src/Kernel.antt =====
-- stage3/kmain.cpp: the kernel's test of its two allocators. `report` prints a page that is not
-- aligned, and `show_free` a count. Setup and Handlers are about the initializations, Printing and Printed about the
-- texts, and Main puts the parts together.
pub mod Taking
pub mod Setup
pub mod Handlers
pub mod Printing
pub mod Texts
pub mod Printed
pub mod Overrun
pub mod Main
mod Tests
use boot.Base.{ℕ, zero, suc, List, [], ◌∷◌, ◌==◌, not, if◌then◌else◌, bit_and}
use boot.Mmu.{Cmd, ret, ◌>>=◌, ◌>>◌}
use boot.Pmm.{Pmm, pmm_alloc_ppage, pmm_free_ppage, pmm_free_pages}
use boot.Kmalloc.{Kmalloc, vinit, valloc, vfree, assert}

abbrev pub num_vaddrs : ℕ
num_vaddrs = 8192

module _ (curr_pages : ℕ) where
  -- The loop that fills `vaddrs`, with `left` elements to come.
  unfoldable pub valloc_all : ℕ → Kmalloc → Cmd (List ℕ × Kmalloc)
  valloc_all zero k = ret ([], k)
  valloc_all (suc left) k = do
    (vaddr, k) ← valloc curr_pages k
    (vaddrs, k) ← valloc_all left k
    ret (vaddr ∷ vaddrs, k)

  -- The loop that frees them.
  unfoldable pub vfree_all : List ℕ → Kmalloc → Cmd Kmalloc
  vfree_all [] k = ret k
  vfree_all (vaddr ∷ vaddrs) k = do k ← vfree curr_pages vaddr k; vfree_all vaddrs k

  -- Whether all pages come back.
  unfoldable pub test_vaddrs : Kmalloc → Cmd Kmalloc
  test_vaddrs k = do
    k ← vinit k
    let free_pages = pmm_free_pages k.pmm
    (vaddrs, k) ← valloc_all num_vaddrs k
    k ← vfree_all vaddrs k
    assert (free_pages == pmm_free_pages k.pmm)
    ret k

  -- `C` is where the texts go.
  module _ {C : Type 0} (report show_free : ℕ → C → Cmd C) where
    abbrev pub check_page : ℕ → C → Cmd C
    check_page temp_page c = if not (bit_and temp_page 1023 == 0) then report temp_page c else ret c

    -- The loop that allocates a page and frees it, with `left` rounds to come.
    unfoldable pub cycle_pages : ℕ → ℕ → Pmm → C → Cmd (Pmm × C)
    cycle_pages zero temp_page pmm c = ret (pmm, c)
    cycle_pages (suc left) temp_page pmm c = do
      c ← check_page temp_page c
      (temp_page, pmm) ← pmm_alloc_ppage curr_pages pmm
      pmm ← pmm_free_ppage curr_pages temp_page pmm
      cycle_pages left temp_page pmm c

    -- The loop that takes every page.
    unfoldable pub take_pages : ℕ → Pmm → C → Cmd (Pmm × C)
    take_pages zero pmm c = ret (pmm, c)
    take_pages (suc left) pmm c = do
      (temp_page, pmm) ← pmm_alloc_ppage curr_pages pmm
      c ← check_page temp_page c
      take_pages left pmm c

    unfoldable pub test_pages : Pmm → C → Cmd (Pmm × C)
    test_pages pmm c = do
      let free_pages = pmm_free_pages pmm
      c ← show_free free_pages c
      (temp_page, pmm) ← pmm_alloc_ppage curr_pages pmm
      (pmm, c) ← cycle_pages free_pages temp_page pmm c
      let free_pages = pmm_free_pages pmm
      c ← show_free free_pages c
      (pmm, c) ← take_pages free_pages pmm c
      c ← show_free (pmm_free_pages pmm) c
      ret (pmm, c)
