-- ===== src/BootPages.antt =====
-- stage2/pt.c: the page tables that the loader builds, from the top of the last usable region of
-- the memory map down. The map is a list in which an access out of range is a fault.
use boot.Base.{
  ◌%◌, [], ◌∷◌, drop, ℕ, zero, suc, ◌+◌, ◌*◌, ◌/◌, ◌^◌, List, set, bit_and, bit_or, ◌==◌,
  if◌then◌else◌, leb, add32, sub32, u16, Outcome, ok, load,
}
pub mod Start
pub mod Allocation
pub mod Emptying
pub mod Tables
pub mod Mapping
mod Tests
use boot.Base
use boot.Mmu.{Machine, put_word, Cmd, ret, ◌>>=◌, ◌>>◌, vload, vstore, invlpg}

-- `SMAP32_t`
pub record Region : Type 0 where
  pub base : ℕ
  pub length : ℕ
  pub type : ℕ
  pub acpi : ℕ

-- The static variables.
pub record Pages : Type 0 where
  pub e820 : List Region
  pub entries_index : ℕ
  pub entry_addr : ℕ

-- The end of a region, rounded up to a page.
abbrev pub region_end : Region → ℕ
region_end r = bit_and (add32 (add32 r.base r.length) 0x0FFF) 0xFFFF_F000

abbrev pub shortened : Region → Region
shortened r =
    if leb 0x1000 r.length
    then record r { length = sub32 r.length 0x1000 }
    else record r { length = 0 }

unfoldable pub palloc : Pages → Outcome (ℕ × Pages)
palloc p = Base.◌>>=◌ (load p.e820 p.entries_index) λ r.
    let paddr = sub32 p.entry_addr 0x1000 in
    let e820 = set p.e820 p.entries_index (shortened r) in
    let below = u16 (p.entries_index + 65535) in
    let next =
      Base.◌>>=◌ (load e820 below)
        λ q. ok (paddr, record { e820 = e820; entries_index = below; entry_addr = region_end q }) in
    if leb paddr r.base then next else ok (paddr, record p { e820 = e820; entry_addr = paddr })

-- `palloc` as a command of the machine.
abbrev pub allocating : Pages → Cmd (ℕ × Pages)
allocating p m = Base.◌>>=◌ (palloc p) λ r. ok (r, m)

-- The rounds that are left of the loop that empties a page table, at the entry `i`.
unfoldable pub empty_table : ℕ → ℕ → ℕ → Cmd (Unit {0})
empty_table zero i pagetable = ret tt
empty_table (suc left) i pagetable = do
  vstore (pagetable + 4 * i) 0x0000_0002
  empty_table left (i + 1) pagetable

-- A new page table for the directory entry.
unfoldable pub new_table : ℕ → ℕ → Pages → Cmd Pages
new_table pdi pagetable p = do
  (temp, p) ← allocating p
  vstore (0xFFFF_F000 + 4 * pdi) (bit_or temp 0x03)
  invlpg pagetable
  empty_table 1024 0 pagetable
  ret p

unfoldable pub boot_pt_map : ℕ → Pages → Cmd Pages
boot_pt_map vaddr p = do
  let pdi = vaddr / 2 ^ 22
  let pti = bit_and (vaddr / 2 ^ 12) 0x3FF
  let pagetable = 0xFFC0_0000 + 4 * (0x400 * pdi)
  pde ← vload (0xFFFF_F000 + 4 * pdi)
  p ← (if bit_and pde 1 == 0 then new_table pdi pagetable p else ret p)
  (page, p) ← allocating p
  vstore (pagetable + 4 * pti) (bit_or page 0x03)
  invlpg (bit_and vaddr 0xFFFF_F000)
  ret p

-- The stores into `page_directory`, at the start of the page frame `f`: paging is off.
unfoldable pub directory_rounds : ℕ → ℕ → ℕ → Machine → Machine
directory_rounds zero i f m = m
directory_rounds (suc left) i f m = directory_rounds left (i + 1) f (put_word m f i 0x0000_0002)

abbrev pub boot_directory : ℕ → Machine → Machine
boot_directory f m =
    put_word (put_word (directory_rounds 1024 0 f m) f 0 0x0000_008B) f 1023
      (bit_or 0x0000_0003 (f * 2 ^ 12))

-- The index of the last usable region: the regions behind the one with the index `i`.
unfoldable pub last_usable : List Region → ℕ → Outcome ℕ
last_usable [] i = Outcome.fault
last_usable (r ∷ rest) i =
    let later = last_usable rest (u16 (i + 1)) in if r.type == 1 then later else ok i

-- `page_directory` is the start of the frame `f`. `enablePaging` leaves the words of memory alone.
unfoldable pub pt_init : ℕ → List Region → Pages → Cmd Pages
pt_init f e820 p m = Base.◌>>=◌ (last_usable (drop (p.entries_index + 1) e820) p.entries_index) λ i.
    Base.◌>>=◌ (load e820 i) λ r. ok (
      record { e820 = e820; entries_index = i; entry_addr = region_end r },
      record (boot_directory f m) { cr3 = f },
    )
