-- ===== src/Elf/Tests.antt =====
-- A file that is only an ELF header, and the loader's run on it.
use boot.Base.{Outcome, ok, panic, fault}
use boot.Base.{
  ℕ, zero, suc, ◌^◌, ◌<◌, ◌≡◌, refl, arith, List, [], ◌∷◌, Bool, ◌&&◌, true, take, length,
  replicate, write_all, Ensures, ◌⊎◌, ltb,
}
use boot.Elf.{
  PetitFat, Loader, byte_at, word_at, ehdr_at, phdr_at, elf_is_supported, elf_load_file,
  elf_pheader,
}
use boot.Elf.Load.{elf_load_file-entry}

-- No sections and no segments; the entry point is 0xC0000000.
abbrev file : List ℕ
file =
    0x7F
    ∷ 0x45
    ∷ 0x4C
    ∷ 0x46
    ∷ 1
    ∷ 1
    ∷ 1
    ∷ 0
    ∷ 0
    ∷ 0
    ∷ 0
    ∷ 0
    ∷ 0
    ∷ 0
    ∷ 0
    ∷ 0
    ∷ 2
    ∷ 0
    ∷ 3
    ∷ 0
    ∷ 1
    ∷ 0
    ∷ 0
    ∷ 0
    ∷ 0
    ∷ 0
    ∷ 0
    ∷ 0xC0
    ∷ replicate 24 0

-- The result of its reads.
abbrev result : ℕ
result = 0

abbrev one_file : PetitFat (Unit {0})
one_file = record {
  pf_open = λ name f. (0, f);
  pf_read = λ count f. (result, take count file, f);
  pf_lseek = λ ofs f. (0, f);
}

abbrev start : Loader (Unit {0})
start = record {
  buf = replicate 124 0;
  files = tt;
  pages = record { e820 = []; entries_index = 0; entry_addr = 0 };
  machine = record { frames = λ f i. 0; cr3 = 0; flushed = [] };
}

abbrev map_result : {A B : Type 0} → (A → B) → Outcome A → Outcome B
map_result f (ok a) = ok (f a)
map_result f panic = panic
map_result f fault = fault

elf_load_file-entry_example :
    Ensures
      (λ (v, s').
        (v ≡ 0)
        ⊎ ((result ≡ 0)
            × (length (take 52 file) ≡ 52)
            × (elf_is_supported (ehdr_at (write_all start.buf 0 (take 52 file)) 0) ≡ true)
            × (v ≡ word_at (take 52 file) 24)))
      (elf_load_file one_file [] 124 start)
elf_load_file-entry_example = elf_load_file-entry one_file [] 124 start

abbrev all_bytes : List ℕ → Bool
all_bytes [] = true
all_bytes (b ∷ bs) = ltb b (2 ^ 8) && all_bytes bs

all_bytes_lem : (bs : List ℕ) → all_bytes bs ≡ true → (k : ℕ) → byte_at bs k < 2 ^ 8
all_bytes_lem [] h k = omega arith
all_bytes_lem (b ∷ bs) h zero = ground arith
all_bytes_lem (b ∷ bs) h (suc k) = all_bytes_lem bs (ground arith) k

-- A program header with the address 0xC0100000, and the physical address 0x100000.
abbrev segment : List ℕ
segment = 1 ∷ 0 ∷ 0 ∷ 0 ∷ 0 ∷ 16 ∷ 0 ∷ 0 ∷ 0 ∷ 0 ∷ 0x10 ∷ 0xC0 ∷ 0 ∷ 0 ∷ 0x10 ∷ 0 ∷ replicate 16 0

-- The loader's run on the file.
loads_entry : map_result (λ (v, s'). v) (elf_load_file one_file [] 124 start) ≡ ok 0xC000_0000
unfolding elf_load_file boot.Elf.read_into elf_is_supported boot.Elf.elf_is_elf ehdr_at
    boot.Elf.ident_index boot.Elf.type_number boot.Elf.load_parts boot.Elf.section_rounds
    boot.Elf.program_rounds
loads_entry = refl
