-- ===== src/Elf/Header.antt =====
-- stage2/elf.h, and the checks of a header in stage2/elf.c.
use boot.Base.{
  ℕ, ◌+◌, ◌*◌, ◌^◌, List, Bool, true, false, not, ◌==◌, if◌then◌else◌, add32, get_or, take, drop,
}

-- The ELF header.
pub record Elf32Ehdr : Type 0 where
  pub e_ident : List ℕ
  pub e_type : ℕ
  pub e_machine : ℕ
  pub e_version : ℕ
  pub e_entry : ℕ
  pub e_phoff : ℕ
  pub e_shoff : ℕ
  pub e_flags : ℕ
  pub e_ehsize : ℕ
  pub e_phentsize : ℕ
  pub e_phnum : ℕ
  pub e_shentsize : ℕ
  pub e_shnum : ℕ
  pub e_shstrndx : ℕ

-- The section header.
pub record Elf32Shdr : Type 0 where
  pub sh_name : ℕ
  pub sh_type : ℕ
  pub sh_flags : ℕ
  pub sh_addr : ℕ
  pub sh_offset : ℕ
  pub sh_size : ℕ
  pub sh_link : ℕ
  pub sh_info : ℕ
  pub sh_addralign : ℕ
  pub sh_entsize : ℕ

-- The program header.
pub record Elf32Phdr : Type 0 where
  pub p_type : ℕ
  pub p_offset : ℕ
  pub p_vaddr : ℕ
  pub p_paddr : ℕ
  pub p_filesz : ℕ
  pub p_memsz : ℕ
  pub p_flags : ℕ
  pub p_align : ℕ

-- `enum Elf_Ident`
pub data ElfIdent : Type 0 where
  ei_magic : ElfIdent
  ei_class : ElfIdent
  ei_data : ElfIdent
  ei_version : ElfIdent
  ei_osabi : ElfIdent
  ei_abiversion : ElfIdent
  ei_pad : ElfIdent

unfoldable pub ident_index : ElfIdent → ℕ
ident_index ei_magic = 0
ident_index ei_class = 4
ident_index ei_data = 5
ident_index ei_version = 6
ident_index ei_osabi = 7
ident_index ei_abiversion = 8
ident_index ei_pad = 9

-- `enum Elf_Type`
pub data ElfType : Type 0 where
  et_none : ElfType
  et_rel : ElfType
  et_exec : ElfType
  et_dyn : ElfType
  et_core : ElfType

unfoldable pub type_number : ElfType → ℕ
type_number et_none = 0
type_number et_rel = 1
type_number et_exec = 2
type_number et_dyn = 3
type_number et_core = 4

-- `enum Elf_PType`
pub data ElfPType : Type 0 where
  pt_null : ElfPType
  pt_load : ElfPType

unfoldable pub ptype_number : ElfPType → ℕ
ptype_number pt_null = 0
ptype_number pt_load = 1

-- `enum Elf_ShType`
pub data ElfShType : Type 0 where
  sht_null : ElfShType
  sht_progbits : ElfShType
  sht_symtab : ElfShType
  sht_strtab : ElfShType
  sht_rela : ElfShType
  sht_nobits : ElfShType
  sht_rel : ElfShType

unfoldable pub shtype_number : ElfShType → ℕ
shtype_number sht_null = 0
shtype_number sht_progbits = 1
shtype_number sht_symtab = 2
shtype_number sht_strtab = 3
shtype_number sht_rela = 4
shtype_number sht_nobits = 8
shtype_number sht_rel = 9

-- `SHF_ALLOC`
abbrev pub shf_alloc : ℕ
shf_alloc = 2

-- The words of the machine in `buf`.
abbrev pub byte_at : List ℕ → ℕ → ℕ
byte_at buf i = get_or buf i 0

abbrev pub half_at : List ℕ → ℕ → ℕ
half_at buf i = byte_at buf i + byte_at buf (i + 1) * 2 ^ 8

abbrev pub word_at : List ℕ → ℕ → ℕ
word_at buf i = half_at buf i + half_at buf (i + 2) * 2 ^ 16

-- The structures at an offset of `buf`.
unfoldable pub ehdr_at : List ℕ → ℕ → Elf32Ehdr
ehdr_at buf i = record {
  e_ident = take 16 (drop i buf);
  e_type = half_at buf (i + 16);
  e_machine = half_at buf (i + 18);
  e_version = word_at buf (i + 20);
  e_entry = word_at buf (i + 24);
  e_phoff = word_at buf (i + 28);
  e_shoff = word_at buf (i + 32);
  e_flags = word_at buf (i + 36);
  e_ehsize = half_at buf (i + 40);
  e_phentsize = half_at buf (i + 42);
  e_phnum = half_at buf (i + 44);
  e_shentsize = half_at buf (i + 46);
  e_shnum = half_at buf (i + 48);
  e_shstrndx = half_at buf (i + 50);
}

unfoldable pub shdr_at : List ℕ → ℕ → Elf32Shdr
shdr_at buf i = record {
  sh_name = word_at buf i;
  sh_type = word_at buf (i + 4);
  sh_flags = word_at buf (i + 8);
  sh_addr = word_at buf (i + 12);
  sh_offset = word_at buf (i + 16);
  sh_size = word_at buf (i + 20);
  sh_link = word_at buf (i + 24);
  sh_info = word_at buf (i + 28);
  sh_addralign = word_at buf (i + 32);
  sh_entsize = word_at buf (i + 36);
}

unfoldable pub phdr_at : List ℕ → ℕ → Elf32Phdr
phdr_at buf i = record {
  p_type = word_at buf i;
  p_offset = word_at buf (i + 4);
  p_vaddr = word_at buf (i + 8);
  p_paddr = word_at buf (i + 12);
  p_filesz = word_at buf (i + 16);
  p_memsz = word_at buf (i + 20);
  p_flags = word_at buf (i + 24);
  p_align = word_at buf (i + 28);
}

abbrev pub ehdr_size : ℕ
ehdr_size = 52

abbrev pub shdr_size : ℕ
shdr_size = 40

abbrev pub phdr_size : ℕ
phdr_size = 32

-- `elf_is_elf` for a header that is there.
unfoldable pub elf_is_elf : Elf32Ehdr → Bool
elf_is_elf hdr = word_at hdr.e_ident 0 == 0x464c_457F

unfoldable pub elf_is_supported : Elf32Ehdr → Bool
elf_is_supported hdr =
    if not (elf_is_elf hdr)
    then false
    else if not (get_or hdr.e_ident (ident_index ei_class) 0 == 1)
    then false
    else if not (get_or hdr.e_ident (ident_index ei_data) 0 == 1)
    then false
    else if not (hdr.e_machine == 3)
    then false
    else if not (get_or hdr.e_ident (ident_index ei_version) 0 == 1)
    then false
    else if not (hdr.e_type == type_number et_exec)
    then false
    else true

-- The offsets in `buf` of the program header and the section header.
abbrev pub elf_pheader : ℕ → ℕ
elf_pheader hdr = add32 hdr phdr_size

abbrev pub elf_sheader : ℕ → ℕ
elf_sheader hdr = add32 (add32 hdr phdr_size) shdr_size
