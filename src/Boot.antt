-- ===== src/Boot.antt =====
-- stage2/stage2.c: the loader, from the memory map of the BIOS to the entry of the kernel.
pub mod Entry
mod Tests
use boot.Base.{
  ℕ, zero, suc, ◌+◌, ◌-◌, ◌*◌, ◌/◌, List, [], ◌∷◌, map, Bool, ◌==◌, not, length, Outcome, ok, ◌>>=◌,
  ◌>>◌, assert,
}
use boot.MemoryMap.{Smap32, validate}
use boot.MemoryMap.Regions.{regions}
use boot.BootPages.{Region, Pages, pt_init, boot_pt_map}
use boot.Elf.{PetitFat, Loader, elf_load_file}
use boot.Mmu.{Machine}

-- The two types of this development for `SMAP32_t`.
abbrev pub region : Smap32 → Region
region r = record { base = r.base; length = r.length; type = r.type; acpi = r.acpi }

-- "KERNEL.ELF"
abbrev pub kernel_elf : List ℕ
kernel_elf = 75 ∷ 69 ∷ 82 ∷ 78 ∷ 69 ∷ 76 ∷ 46 ∷ 69 ∷ 76 ∷ 70 ∷ []

abbrev new_stack : ℕ
new_stack = 0xFFC0_0000

abbrev no_pages : Pages
no_pages = record { e820 = []; entries_index = 0; entry_addr = 0 }

-- What `enter` is called with: the entry, the memory map as the mapping of pages has left it, and its
-- length; and the state then.
pub record Entered (F : Type 0) : Type 0 where
  pub entry : ℕ
  pub e820entries : List Region
  pub e820size : ℕ
  pub loader : Loader F

-- `words` are the words from 0x7C00 on, `hdrs` the bytes of the local headers. `pf_mount` is the call
-- of the FAT library, and `f` the frame of `page_directory`.
module _ {F : Type 0} (pf : PetitFat F) (pf_mount : F → ℕ × F) (f : ℕ) where
  unfoldable pub load_kernel : List ℕ → Pages → F → Machine → Outcome (ℕ × Loader F)
  load_kernel hdrs pages files machine = do
    (entry, s) ←
        elf_load_file pf kernel_elf (length hdrs)
          (record { buf = hdrs; files = files; pages = pages; machine = machine })
    assert (not (entry == 0))
    (pages, machine) ← boot_pt_map (new_stack - 0x1000) s.pages s.machine
    ok (entry, record s { pages = pages; machine = machine })

  unfoldable pub bmain : List ℕ → ℕ → List ℕ → F → Machine → Outcome (Entered F)
  bmain words e820size hdrs files machine = do
    (e820size, words) ← validate words e820size
    let (res, files) = pf_mount files
    assert (res == 0)
    (pages, machine) ← pt_init f (map region (regions (length words / 3) 0 words)) no_pages machine
    (entry, s) ← load_kernel hdrs pages files machine
    ok (record { entry = entry; e820entries = s.pages.e820; e820size = e820size; loader = s })
