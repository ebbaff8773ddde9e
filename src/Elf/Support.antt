-- ===== src/Elf/Support.antt =====
-- Which headers `elf_is_supported` accepts, and what the read of a program header does to the header.
use boot.Base.{◌/◌, write_all_inside, ℕ, ◌^◌, ◌<◌, ◌≡◌, ◌↔◌, refl, arith, true, List, length, ◌≤◌}
use boot.Elf.{Elf32Ehdr, byte_at, word_at, elf_is_elf, elf_is_supported, ident_index, type_number}
use boot.Elf.{ehdr_at, phdr_at, elf_pheader}
use boot.Base.{write_all, ◌+◌, ◌%◌}

-- The fields of a 32-bit little-endian x86 executable of version 1.
pub record IsX86Executable (hdr : Elf32Ehdr) : Type 0 where
  pub magic0 : byte_at hdr.e_ident 0 ≡ 0x7F
  pub magic1 : byte_at hdr.e_ident 1 ≡ 0x45
  pub magic2 : byte_at hdr.e_ident 2 ≡ 0x4C
  pub magic3 : byte_at hdr.e_ident 3 ≡ 0x46
  pub is_32 : byte_at hdr.e_ident 4 ≡ 1
  pub is_lsb : byte_at hdr.e_ident 5 ≡ 1
  pub is_current : byte_at hdr.e_ident 6 ≡ 1
  pub is_x86 : hdr.e_machine ≡ 3
  pub is_exec : hdr.e_type ≡ 2

-- For a header whose `e_ident` holds bytes, `elf_is_supported` accepts it exactly when it is one of a
-- 32-bit little-endian x86 executable of version 1, in every field that is looked at.
pub elf_is_supported_iff :
    (hdr : Elf32Ehdr)
    → ((k : ℕ) → byte_at hdr.e_ident k < 2 ^ 8)
    → (elf_is_supported hdr ≡ true) ↔ IsX86Executable hdr
unfolding elf_is_supported elf_is_elf ident_index type_number
elf_is_supported_iff hdr small = (to, from)
  where
    to : elf_is_supported hdr ≡ true → IsX86Executable hdr
    to h =
        let w : word_at hdr.e_ident 0 ≡ 0x464C_457F = ground arith in
        let s0 = small 0 in
        let s1 = small 1 in
        let s2 = small 2 in
        let s3 = small 3 in
        record {
          magic0 = omega arith;
          magic1 = omega arith;
          magic2 = omega arith;
          magic3 = omega arith;
          is_32 = ground arith;
          is_lsb = ground arith;
          is_current = ground arith;
          is_x86 = ground arith;
          is_exec = ground arith;
        }

    from : IsX86Executable hdr → elf_is_supported hdr ≡ true
    from h =
        rw (h.magic0, h.magic1, h.magic2, h.magic3)
          (rw (h.is_32, h.is_lsb, h.is_current, h.is_x86, h.is_exec) refl)

inside :
    (buf bytes : List ℕ) (k : ℕ)
    → k < length bytes
    → elf_pheader 0 + length bytes ≤ length buf
    → byte_at (write_all buf (elf_pheader 0) bytes) (elf_pheader 0 + k) ≡ byte_at bytes k
inside buf bytes k h fits = write_all_inside buf (elf_pheader 0) bytes k 0 h fits

-- The place of the program header lies in the ELF header: when the 32 bytes of a program header are
-- read there, the number of program headers becomes the low half of its `p_paddr`, and their size
-- the high half of its `p_vaddr`.
pub elf_pheader-overlap :
    (buf bytes : List ℕ)
    → length bytes ≡ 32
    → 64 ≤ length buf
    → ((k : ℕ) → byte_at bytes k < 2 ^ 8)
    → let hdr = ehdr_at (write_all buf (elf_pheader 0) bytes) 0 in
      (hdr.e_phnum ≡ (phdr_at bytes 0).p_paddr % 2 ^ 16)
      × (hdr.e_phentsize ≡ (phdr_at bytes 0).p_vaddr / 2 ^ 16)
unfolding ehdr_at phdr_at
elf_pheader-overlap buf bytes len fits small =
    let s10 = small 10 in
    let s11 = small 11 in
    let s12 = small 12 in
    let s13 = small 13 in
    let s8 = small 8 in
    let s9 = small 9 in
    (
      rw
          (
            inside buf bytes 12 (omega arith) (omega arith),
            inside buf bytes 13 (omega arith) (omega arith),
          )
          (omega arith),
      rw
          (
            inside buf bytes 10 (omega arith) (omega arith),
            inside buf bytes 11 (omega arith) (omega arith),
          )
          (omega arith),
    )
