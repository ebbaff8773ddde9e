-- ===== src/PageTable.antt =====
-- stage3/mem/pagetable.cpp: an object that holds the two addresses of a page directory.
pub mod Remap
use boot.Base.{
  ℕ, zero, suc, ◌+◌, ◌*◌, ◌/◌, ◌^◌, Bool, true, false, bit_and, bit_or, ◌==◌, if◌then◌else◌, ok,
}
use boot.Mmu.{Cmd, ret, ◌>>=◌, ◌>>◌, vload, vstore, invlpg}
use boot.Vaddr.{get_paddr, pt_map}

pub record PageTable : Type 0 where
  pub vaddr : ℕ
  pub paddr : ℕ

-- The constructor.
unfoldable pub page_table : ℕ → Cmd PageTable
page_table new_pd = do paddr ← get_paddr new_pd; ret (record { vaddr = new_pd; paddr = paddr })

-- The rounds of `clear` that are left, at the entry `i`.
unfoldable pub clear_rounds : ℕ → ℕ → ℕ → Cmd (Unit {0})
clear_rounds zero i vaddr = ret tt
clear_rounds (suc left) i vaddr = do
  vstore (vaddr + 4 * i) 0x0000_0002
  clear_rounds left (i + 1) vaddr

unfoldable pub clear : PageTable → Cmd (Unit {0})
clear this = do
  clear_rounds 1023 0 this.vaddr
  vstore (this.vaddr + 4 * 1023) (bit_or 0x0000_0003 this.paddr)

-- The old address, and the object.
unfoldable pub set_pd : ℕ → PageTable → Cmd (ℕ × PageTable)
set_pd new_pd this = do
  paddr ← get_paddr new_pd
  ret (this.vaddr, record { vaddr = new_pd; paddr = paddr })

abbrev pub load_page_directory : ℕ → Cmd (Unit {0})
load_page_directory pd m = ok (tt, record m { cr3 = pd / 2 ^ 12 })

unfoldable pub activate : PageTable → Cmd PageTable
activate this = do
  pd ← vload (this.vaddr + 4 * 1023)
  load_page_directory (bit_and pd 0xFFFF_F000)
  ret (record this { vaddr = 0xFFFF_F000 })

unfoldable pub add_pt : ℕ → ℕ → PageTable → Cmd (Unit {0})
add_pt idx paddr this = do
  vstore (this.vaddr + 4 * idx) (bit_or paddr 0x03)
  if this.vaddr == 0xFFFF_F000 then invlpg this.vaddr else ret tt

unfoldable pub remap : ℕ → ℕ → PageTable → Cmd (Bool × PageTable)
remap vptr flags this = do
  old ← pt_map this.paddr vptr flags
  if old == 0 then ret (false, this) else ret (true, record this { vaddr = vptr })
