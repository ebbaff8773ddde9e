-- ===== src/Pmm.antt =====
-- stage3/mem/pmm.cpp: the free pages as a stack in the page frame that `curr_pages` leads to; its
-- last place links to the frame before. The address of `curr_pages` is an argument.
pub mod Stack
pub mod Listed
pub mod Reuse
pub mod Pool
pub mod Taking
pub mod Giving
pub mod Runs
pub mod Service
pub mod Paging
pub mod Extended
pub mod Filling
pub mod Init
mod Tests
use boot.MemoryMap.{Smap32}
use boot.Base.{
  zero, suc, ◌^◌, ltb, List, [], ◌∷◌, fault, ℕ, ◌+◌, ◌*◌, ◌-◌, bit_and, ◌==◌, if◌then◌else◌, add32,
  sub32,
}
use boot.Mmu.{Cmd, ret, ◌>>=◌, ◌>>◌, vload, vstore}
use boot.Vaddr.{get_paddr, pt_map, pt_page_mask}

-- The static variables.
pub record Pmm : Type 0 where
  pub pcount : ℕ
  pub pfree : ℕ
  pub pidx : ℕ

abbrev pub present_rw : ℕ
present_rw = 3

-- `curr_pages[i]`
abbrev pub page_at : ℕ → ℕ → ℕ
page_at curr_pages i = curr_pages + 4 * i

-- The page that `pmm_alloc_ppage` takes; the link to the next frame is followed at the last place.
abbrev pub next_paddr : ℕ → Pmm → Cmd ℕ
next_paddr curr_pages p =
    if bit_and p.pidx 1023 == 1023
    then (do
      last ← vload (page_at curr_pages 1023)
      old ← pt_map last curr_pages present_rw
      ret (bit_and old pt_page_mask))
    else vload (page_at curr_pages (bit_and p.pidx 1023))

unfoldable pub pmm_alloc_ppage : ℕ → Pmm → Cmd (ℕ × Pmm)
pmm_alloc_ppage curr_pages p = if p.pfree == 0 then ret (0xFFFF_FFFF, p) else (do
  paddr ← next_paddr curr_pages p
  ret (paddr, record p { pidx = add32 p.pidx 1; pfree = p.pfree - 1 }))

unfoldable pub pmm_free_ppage : ℕ → ℕ → Pmm → Cmd Pmm
pmm_free_ppage curr_pages paddr p = do
  (if bit_and (sub32 p.pidx 1) 1023 == 1023
      then (do
        old ← pt_map paddr curr_pages present_rw
        vstore (page_at curr_pages 1023) (bit_and old pt_page_mask))
      else vstore (page_at curr_pages (bit_and (sub32 p.pidx 1) 1023)) paddr)
  ret (record p { pidx = sub32 p.pidx 1; pfree = add32 p.pfree 1 })

abbrev pub pmm_free_pages : Pmm → ℕ
pmm_free_pages p = p.pfree

-- The inner loop of `pmm_init`, on fuel for its rounds: after 2 ^ 20 of them the address is the first
-- one again, and the loop never ends.
unfoldable pub fill_region : ℕ → ℕ → ℕ → ℕ → Pmm → Cmd Pmm
fill_region zero curr_pages end addr p = λ m. fault
fill_region (suc fuel) curr_pages end addr p =
    let round = (do
      vstore (page_at curr_pages (bit_and p.pcount 1023)) addr
      old ← (if bit_and p.pcount 1023 == 1023 then pt_map addr curr_pages present_rw else ret 0)
      fill_region fuel curr_pages end (add32 addr 0x1000)
          (record p { pcount = add32 p.pcount 1 })) in
    if ltb addr end then round else ret p

-- The outer loop, which ends at the first region that is not usable.
unfoldable pub fill_regions : ℕ → List Smap32 → Pmm → Cmd Pmm
fill_regions curr_pages [] p = ret p
fill_regions curr_pages (r ∷ e820) p =
    let round = (do
      p ← fill_region (2 ^ 20) curr_pages (add32 r.base r.length) r.base p
      fill_regions curr_pages e820 p) in
    if r.type == 1 then round else ret p

unfoldable pub pmm_init : ℕ → List Smap32 → Pmm → Cmd Pmm
pmm_init curr_pages e820 p = do
  initial_paddr ← get_paddr curr_pages
  p ← fill_regions curr_pages e820 (record p { pcount = 0; pidx = 0 })
  old ← pt_map initial_paddr curr_pages present_rw
  ret (record p { pcount = add32 p.pcount 1; pfree = add32 p.pcount 1 })
