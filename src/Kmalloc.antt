-- ===== src/Kmalloc.antt =====
-- stage3/mem/kmalloc.cpp: the allocator of the kernel's virtual pages, which keeps one record for
-- each of the 256 page tables from the address 0xC0000000 on.
pub mod Counting
pub mod Bubble
pub mod Taking
mod Tests
use boot.Base.{
  ℕ, zero, suc, ◌+◌, ◌*◌, ◌-◌, ◌/◌, ◌%◌, ◌^◌, List, [], ◌∷◌, Bool, ◌||◌, ◌&&◌, not, ◌==◌,
  if◌then◌else◌, ltb, leb, u16, u32, add32, sub32, bit_and, bit_or,
}
use boot.Base.{Outcome, ok, panic, fault, get_elem?, set, length, ◌≡◌, false, true, arith}
use boot.Base
use boot.Base.{Ensures, true, false, refl, ◌≡◌}
use boot.Mmu.{Machine, Cmd, ret, ◌>>=◌, ◌>>◌, vload, vstore}
use boot.Vaddr.{pt_map, pt_unmap, pt_page_mask, pt_flags_mask, present, absent}
use boot.Pmm.{Pmm, pmm_alloc_ppage, pmm_free_ppage}
use boot.Sort.{sort}
use boot.Sort.Order.{LessThan, less}

pub record PtInfo : Type 0 where
  pub free : ℕ
  pub pdi : ℕ
  pub first_free : ℕ

free_asym : (x y : ℕ) → ltb x y ≡ true → ltb y x ≡ false
free_asym x y h = ground arith

free_trans : (x y z : ℕ) → ltb y x ≡ false → ltb z y ≡ false → ltb z x ≡ false
free_trans x y z h k = ground arith

-- `operator <`
instance pub by_free : LessThan PtInfo
by_free = record {
  less = λ a b. ltb a.free b.free;
  asym = λ a b. free_asym a.free b.free;
  trans = λ a b c. free_trans a.free b.free c.free;
}

-- The static variables, with those of the allocator of physical pages.
pub record Kmalloc : Type 0 where
  pub ptmeta : List PtInfo
  pub ptmeta_first_free : ℕ
  pub pmm : Pmm

abbrev pub size_flag : ℕ
size_flag = 128

abbrev ram_present : ℕ
ram_present = 1536

abbrev page_size : ℕ
page_size = 4096

abbrev pub lift : {A : Type 0} → Outcome A → Cmd A
lift c m = Base.◌>>=◌ c λ a. ok (a, m)

abbrev pub assert : Bool → Cmd (Unit {0})
assert b = lift (Base.assert b)

-- Where an assertion holds, what follows it runs.
pub assert-Ensures :
    {B : Type 0} (Q : B × Machine → Type 0) (b : Bool) (next : Cmd B) (m : Machine)
    → (b ≡ true → Ensures Q (next m))
    → Ensures Q ((assert b >> next) m)
assert-Ensures Q true next m h = h refl
assert-Ensures Q false next m h = tt

-- The addresses of `kpd[i]` and of the page table `i` of the kernel.
abbrev pub kpd_at : ℕ → ℕ
kpd_at i = 0xFFFF_FC00 + 4 * i

abbrev pub pt_of : ℕ → ℕ
pt_of i = add32 0xFFF0_0000 (4 * (0x400 * i))

-- The first loop of `set_ptinfo`, with `left` entries to come: it returns `counter`.
unfoldable pub count_first : ℕ → ℕ → ℕ → PtInfo → Cmd (ℕ × PtInfo)
count_first zero pt counter info = ret (counter, info)
count_first (suc left) pt counter info = do
  entry ← vload (pt + 4 * counter)
  if absent entry
      then ret (counter, record info { free = u16 (info.free + 1); first_free = counter })
      else count_first left pt (counter + 1) info

-- The second loop.
unfoldable pub count_rest : ℕ → ℕ → ℕ → PtInfo → Cmd PtInfo
count_rest zero pt counter info = ret info
count_rest (suc left) pt counter info = do
  entry ← vload (pt + 4 * counter)
  count_rest left pt (counter + 1)
      (record info { free = u16 (info.free + (if absent entry then 1 else 0)) })

-- `info` is `ptmeta[i]`, before and after.
unfoldable pub set_ptinfo : ℕ → PtInfo → Cmd PtInfo
set_ptinfo i info =
    let present_table = (do
      (counter, info) ← count_first 1024 (pt_of i) 0 (record info { free = 0 })
      count_rest (1024 - counter) (pt_of i) counter info) in
    if i == 255 || not (bit_and (pt_of i) size_flag == 0)
    then ret (record info { free = 0 })
    else (do
      entry ← vload (kpd_at i)
      if absent entry then ret (record info { free = 1024 }) else present_table)

-- The first loop of `vinit`, with `left` tables to come.
unfoldable pub vinit_rounds : ℕ → ℕ → List PtInfo → Cmd (List PtInfo)
vinit_rounds zero i ptmeta = ret ptmeta
vinit_rounds (suc left) i ptmeta = do
  info ← lift (Base.load ptmeta i)
  info ← set_ptinfo i (record info { pdi = i; first_free = 0 })
  assert (ltb info.first_free 1024)
  assert (leb info.free 1024)
  ptmeta ← lift (Base.store ptmeta i info)
  vinit_rounds left (i + 1) ptmeta

-- The second loop: `ptmeta[i]` is read before `i` is compared.
unfoldable pub skip_full : ℕ → List PtInfo → Outcome ℕ
skip_full i [] = fault
skip_full i (info ∷ rest) =
    let later = skip_full (i + 1) rest in if info.free == 0 then later else ok i

unfoldable pub vinit : Kmalloc → Cmd Kmalloc
vinit k = do
  ptmeta ← vinit_rounds 256 0 k.ptmeta
  ptmeta ← lift (sort ptmeta)
  i ← lift (skip_full 0 ptmeta)
  ret (record k { ptmeta = ptmeta; ptmeta_first_free = i })

-- The records from the index `i` on.
unfoldable pub get_idx : ℕ → ℕ → List PtInfo → Outcome ℕ
get_idx pdi i [] = panic
get_idx pdi i (info ∷ rest) =
    let later = get_idx pdi (i + 1) rest in if info.pdi == pdi then ok i else later

-- The loop of `update_first_free`: `left` entries follow the one with the index `pti`.
unfoldable pub next_free : ℕ → ℕ → ℕ → Cmd ℕ
next_free zero pt pti = ret (pti + 1)
next_free (suc left) pt pti = do
  entry ← vload (pt + 4 * (pti + 1))
  if absent entry then ret (pti + 1) else next_free left pt (pti + 1)

-- `info` is `ptmeta[idx]`.
module _ (curr_pages : ℕ) where
  unfoldable pub update_first_free : PtInfo → ℕ → Pmm → Cmd (PtInfo × Pmm)
  update_first_free info pdi pmm = do
    entry ← vload (kpd_at pdi)
    pmm ←
        (if absent entry
          then (do
            (paddr, pmm) ← pmm_alloc_ppage curr_pages pmm
            old ← pt_map paddr (pt_of pdi) 2
            ret pmm)
          else ret pmm)
    pti ← next_free 1023 (pt_of pdi) 0
    ret (record info { first_free = pti }, pmm)

  -- The choice of a page, before it is mapped: its address and the new state.
  unfoldable pub take_page : Kmalloc → Cmd (ℕ × Kmalloc)
  take_page k = do
    info ← lift (Base.load k.ptmeta k.ptmeta_first_free)
    assert (not (info.free == 0))
    assert (ltb info.first_free 1024)
    let vaddr = add32 (u32 ((info.pdi + 768) * 2 ^ 22)) (info.first_free * 2 ^ 12)
    let less_free = record info { free = info.free - 1 }
    let more = (do
      (info, pmm) ← update_first_free less_free info.pdi k.pmm
      ptmeta ← lift (Base.store k.ptmeta k.ptmeta_first_free info)
      ret (vaddr, record k { ptmeta = ptmeta; pmm = pmm }))
    let full = (do
      ptmeta ← lift (Base.store k.ptmeta k.ptmeta_first_free less_free)
      ret (vaddr, record k { ptmeta = ptmeta; ptmeta_first_free = u16 (k.ptmeta_first_free + 1) }))
    if info.free - 1 == 0 then full else more

  unfoldable pub valloc : Kmalloc → Cmd (ℕ × Kmalloc)
  valloc k = if ltb 255 k.ptmeta_first_free then ret (0xFFFF_FFFF, k) else (do
    (vaddr, k) ← take_page k
    (paddr, pmm) ← pmm_alloc_ppage curr_pages k.pmm
    old ← pt_map paddr vaddr 2
    ret (vaddr, record k { pmm = pmm }))

-- The last loop of `vfree`: `left` records follow the one with the index `idx`.
unfoldable pub bubble : ℕ → ℕ → List PtInfo → Outcome (List PtInfo)
bubble zero idx ptmeta = ok ptmeta
bubble (suc left) idx ptmeta = Base.◌>>=◌ (Base.load ptmeta (idx + 1)) λ next.
    Base.◌>>=◌ (Base.load ptmeta idx) λ info.
      let swapped =
        Base.◌>>=◌ (Base.store ptmeta (idx + 1) info) λ ptmeta.
          Base.◌>>=◌ (Base.store ptmeta idx next) λ ptmeta. bubble left (idx + 1) ptmeta in
      if less next info then swapped else ok ptmeta

-- What `vfree` does to the record before the page is unmapped, and after.
abbrev note_free : ℕ → PtInfo → PtInfo
note_free pti info =
    if info.free == 0 || ltb pti info.first_free then record info { first_free = pti } else info

abbrev add_free : PtInfo → PtInfo
add_free info =
    let more = record info { free = u16 (info.free + 1) } in
    if u16 (info.free + 1) == 1024 then record more { first_free = 0 } else more

module _ (curr_pages : ℕ) where
  unfoldable pub vfree : ℕ → Kmalloc → Cmd Kmalloc
  vfree vaddr k = do
    let pdi = sub32 (vaddr / 2 ^ 22) 768
    let pti = bit_and (vaddr / 2 ^ 12) 0x3FF
    idx ← lift (get_idx pdi 0 k.ptmeta)
    info ← lift (Base.load k.ptmeta idx)
    let first =
        if info.free == 0 && ltb idx k.ptmeta_first_free then u16 pdi else k.ptmeta_first_free
    paddr ← pt_unmap vaddr
    pmm ← pmm_free_ppage curr_pages paddr k.pmm
    let info' = add_free (note_free pti info)
    pmm ←
        (if info'.free == 1024
          then (do
            table ← pt_unmap (u32 (0xFFF0_0000 + 4 * (0x400 * pdi)))
            pmm_free_ppage curr_pages table pmm)
          else (do assert (leb info'.free 1024); ret pmm))
    ptmeta ← lift (Base.store k.ptmeta idx info')
    ptmeta ← lift (bubble (255 - idx) idx ptmeta)
    ret (record k { ptmeta = ptmeta; ptmeta_first_free = first; pmm = pmm })

  -- `memcpy` takes the addresses of the target and of the source, and the number of bytes. The
  -- addresses `tmp` and `mapped` are of type `uint32_t *`, so that a number added to one counts words.
  unfoldable pub vmap : (memcpy : ℕ → ℕ → ℕ → Cmd (Unit {0})) → ℕ → ℕ → Kmalloc → Cmd (ℕ × Kmalloc)
  vmap memcpy paddr size k = do
    assert (leb size page_size)
    (tmp, k) ← valloc curr_pages k
    (mapped, k) ← valloc curr_pages k
    let offset = bit_and paddr pt_flags_mask
    oldpage ← pt_map (bit_and paddr pt_page_mask) tmp (bit_or present ram_present)
    (if leb (offset + size) page_size then memcpy mapped (add32 tmp (4 * offset)) size else (do
      memcpy mapped (add32 tmp (4 * offset)) (page_size - offset)
      old ← pt_map (add32 (bit_and paddr pt_page_mask) page_size) tmp (bit_or present ram_present)
      memcpy (add32 mapped (4 * (page_size - offset))) tmp (offset + size - page_size)))
    old ← pt_map (bit_and oldpage pt_page_mask) tmp (bit_and oldpage pt_flags_mask)
    k ← vfree tmp k
    ret (mapped, k)

  unfoldable pub vunmap : ℕ → ℕ → Kmalloc → Cmd Kmalloc
  vunmap vaddr size k = do
    assert (leb size page_size)
    paddr ← pt_unmap vaddr
    pmm ← pmm_free_ppage curr_pages paddr k.pmm
    ret (record k { pmm = pmm })
