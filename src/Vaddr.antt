-- ===== src/Vaddr.antt =====
-- stage3/mem/vaddr.cpp: page tables, reached through the recursive entry of the page directory.
-- A virtual address is a number below 2 ^ 32.
pub mod Access
pub mod Flags
pub mod Calls
pub mod Translate
pub mod Mapping
mod Tests
use boot.Base.{
  ℕ, ◌+◌, ◌*◌, ◌/◌, ◌%◌, ◌^◌, bit_and, bit_or, Bool, true, false, ◌||◌, ◌==◌, if◌then◌else◌,
}
use boot.Mmu.{Cmd, ret, ◌>>=◌, ◌>>◌, vload, vstore, invlpg}

abbrev pub present : ℕ
present = 1

abbrev pub pt_page_mask : ℕ
pt_page_mask = 0xFFFF_F000

abbrev pub pt_flags_mask : ℕ
pt_flags_mask = 0x0000_0FFF

abbrev pub pt_invalid_page : ℕ
pt_invalid_page = 0xFFFF_FFFF

abbrev pub pdi : ℕ → ℕ
pdi vaddr = vaddr / 2 ^ 22

abbrev pub pti : ℕ → ℕ
pti vaddr = bit_and (vaddr / 2 ^ 12) 0x3FF

-- The addresses of `pd[i]` and of `pagetable[j]` for the directory entry `i`.
abbrev pub pd_at : ℕ → ℕ
pd_at i = 0xFFFF_F000 + 4 * i

abbrev pub pt_at : ℕ → ℕ → ℕ
pt_at i j = 0xFFC0_0000 + 4 * (0x400 * i) + 4 * j

abbrev pub absent : ℕ → Bool
absent entry = bit_and entry present == 0

pub get_paddr : ℕ → Cmd ℕ
get_paddr vaddr = do
  pde ← vload (pd_at (pdi vaddr))
  if absent pde then ret pt_invalid_page else (do
    pte ← vload (pt_at (pdi vaddr) (pti vaddr))
    if absent pte
        then ret pt_invalid_page
        else ret (bit_and pte pt_page_mask + bit_and vaddr 0xFFF))

unfoldable pub pt_map : ℕ → ℕ → ℕ → Cmd ℕ
pt_map paddr vaddr flags = do
  pde ← vload (pd_at (pdi vaddr))
  if absent pde then ret pt_invalid_page else (do
    tmp ← vload (pt_at (pdi vaddr) (pti vaddr))
    vstore (pt_at (pdi vaddr) (pti vaddr))
        (bit_or (bit_or paddr (bit_and flags pt_flags_mask)) present)
    invlpg (bit_and vaddr 0xFFFF_F000)
    ret tmp)

pub pd_map : ℕ → ℕ → ℕ → Cmd ℕ
pd_map paddr vaddr flags = do
  old ← vload (pd_at (pdi vaddr))
  vstore (pd_at (pdi vaddr)) (bit_or (bit_or paddr (bit_and flags pt_flags_mask)) present)
  invlpg (pd_at (pdi vaddr))
  ret old

pub pt_unmap : ℕ → Cmd ℕ
pt_unmap vaddr = do
  pde ← vload (pd_at (pdi vaddr))
  if absent pde then ret 0 else (do
    pte ← vload (pt_at (pdi vaddr) (pti vaddr))
    vstore (pt_at (pdi vaddr) (pti vaddr)) (bit_and pte 0xFFFF_FFFE)
    invlpg vaddr
    ret (bit_and pte pt_page_mask))

pub get_flags : ℕ → Cmd ℕ
get_flags vaddr = do
  pde ← vload (pd_at (pdi vaddr))
  if absent pde
      then ret pt_invalid_page
      else (do pte ← vload (pt_at (pdi vaddr) (pti vaddr)); ret (bit_and pte 0xE00))

pub vmark : ℕ → ℕ → Cmd ℕ
vmark vaddr flags = do
  pde ← vload (pd_at (pdi vaddr))
  if absent pde then ret pt_invalid_page else (do
    paddr ← vload (pt_at (pdi vaddr) (pti vaddr))
    vstore (pt_at (pdi vaddr) (pti vaddr)) (bit_or (bit_and paddr pt_page_mask) flags)
    invlpg vaddr
    ret paddr)
