-- ===== src/Boot/Tests.antt =====
-- A run of the loader with a file system of one file.
use boot.Base.{List, ◌∷◌, take, ℕ, [], Ensures, replicate}
use boot.Mmu.{Machine}
use boot.Elf.{PetitFat}
use boot.Boot.{bmain}
use boot.Boot.Entry.{IsEntry, bmain-IsEntry}

-- KERNEL.ELF has no sections and no segments; its entry point is 0xC0000000.
abbrev file : List ℕ
file =
    0x7F
    ∷ 0x45
    ∷ 0x4C
    ∷ 0x46
    ∷ 1
    ∷ 1
    ∷ 1
    ∷ 0
    ∷ 0
    ∷ 0
    ∷ 0
    ∷ 0
    ∷ 0
    ∷ 0
    ∷ 0
    ∷ 0
    ∷ 2
    ∷ 0
    ∷ 3
    ∷ 0
    ∷ 1
    ∷ 0
    ∷ 0
    ∷ 0
    ∷ 0
    ∷ 0
    ∷ 0
    ∷ 0xC0
    ∷ replicate 24 0

abbrev one_file : PetitFat (Unit {0})
one_file = record {
  pf_open = λ name f. (0, f);
  pf_read = λ count f. (0, take count file, f);
  pf_lseek = λ ofs f. (0, f);
}

-- One usable entry of 7 MiB, and one that is not usable.
abbrev bios_words : List ℕ
bios_words = 0 ∷ 0 ∷ 0x70_0000 ∷ 0 ∷ 1 ∷ 1 ∷ 0x70_0000 ∷ 0 ∷ 0x10_0000 ∷ 0 ∷ 2 ∷ 1 ∷ []

abbrev mount : Unit {0} → ℕ × Unit {0}
mount f = (0, f)

abbrev real_mode : Machine
real_mode = record { frames = λ f i. 0; cr3 = 0; flushed = [] }

bmain-IsEntry_example :
    Ensures
      (λ entered. IsEntry one_file mount 5 (replicate 124 0) tt entered.entry)
      (bmain one_file mount 5 bios_words 2 (replicate 124 0) tt real_mode)
bmain-IsEntry_example = bmain-IsEntry one_file mount 5 bios_words 2 (replicate 124 0) tt real_mode
