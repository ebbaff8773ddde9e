-- ===== src/Elf.antt =====
-- stage2/elf.c: the loader of the kernel's file. `buf` is a list of bytes; what lies at the virtual
-- addresses of the segments is part of the loader's world.
mod Header
pub mod Support
pub mod Kept
pub mod Load
mod Tests
unfoldable pub use Header.*
use boot.Base.{
  ℕ, zero, suc, ◌+◌, ◌*◌, ◌-◌, ◌/◌, ◌%◌, ◌^◌, List, [], ◌∷◌, Bool, true, false, ◌||◌, ◌&&◌, not,
  ◌==◌, if◌then◌else◌, u8, ltb, leb, add32, mul32, sub32, bit_and, length,
}
use boot.Base.{Outcome, ok, fault, ◌>>=◌, write_all}
use boot.Mmu.{Machine, Cmd, vload, vstore}
use boot.BootPages.{Pages, boot_pt_map}

-- What the loader works on: the buffer, the file system's own state, the pages that are left, and
-- the processor.
pub record Loader (F : Type 0) : Type 0 where
  pub buf : List ℕ
  pub files : F
  pub pages : Pages
  pub machine : Machine

-- The calls of the FAT library. A result of 0 is success; `pf_read` gives the result and the bytes
-- that it stored.
pub record PetitFat (F : Type 0) : Type 0 where
  pub pf_open : List ℕ → F → ℕ × F
  pub pf_read : ℕ → F → ℕ × List ℕ × F
  pub pf_lseek : ℕ → F → ℕ × F

-- A byte of memory at a virtual address, bytes one after another, and `memset`.
unfoldable pub put_byte : ℕ → ℕ → Cmd (Unit {0})
put_byte va v m = vload (va / 4 * 4) m >>= λ (word, m).
    let scale = 2 ^ (8 * (va % 4)) in
    vstore (va / 4 * 4) (word / (scale * 2 ^ 8) * (scale * 2 ^ 8) + v * scale + word % scale) m

unfoldable pub put_bytes : ℕ → List ℕ → Cmd (Unit {0})
put_bytes va [] m = ok (tt, m)
put_bytes va (b ∷ bs) m = put_byte va b m >>= λ (_, m). put_bytes (add32 va 1) bs m

unfoldable pub vmemset : ℕ → ℕ → ℕ → Cmd (Unit {0})
vmemset s c zero m = ok (tt, m)
vmemset s c (suc n) m = put_byte s (u8 c) m >>= λ (_, m). vmemset (add32 s 1) c n m

module _ {F : Type 0} (pf : PetitFat F) where
  -- A read into the buffer.
  unfoldable pub read_into : ℕ → ℕ → Loader F → Outcome (ℕ × ℕ × Loader F)
  read_into at count s =
      let (res, bytes, files) = pf.pf_read count s.files in
      if leb (at + length bytes) (length s.buf)
      then ok (res, length bytes, record s { buf = write_all s.buf at bytes; files = files })
      else fault

  -- `pt_map` of a page after another, with `left` rounds to come.
  unfoldable pub map_rounds : ℕ → ℕ → Loader F → Outcome (Loader F)
  map_rounds zero addr s = ok s
  map_rounds (suc left) addr s = do
    (pages, machine) ← boot_pt_map addr s.pages s.machine
    map_rounds left (add32 addr 0x1000) (record s { pages = pages; machine = machine })

  -- The loop over `bytesread` up to `size`. From 0x7FFFF000 on the `int` overflows.
  unfoldable pub map_pages : ℕ → ℕ → Loader F → Outcome (Loader F)
  map_pages addr size s =
      if ltb size 0x7FFF_F000 then map_rounds (size / 0x1000 + 1) addr s else fault

  -- The end of a round of the first loop.
  unfoldable pub map_section : Elf32Shdr → Loader F → Outcome (Loader F)
  map_section shdr s =
      if not (shdr.sh_type == shtype_number sht_nobits)
        || shdr.sh_size == 0
        || bit_and shdr.sh_flags shf_alloc == 0
      then ok s
      else map_pages shdr.sh_addr shdr.sh_size s

  -- The end of a round of the second loop.
  unfoldable pub load_segment : Elf32Phdr → Loader F → Outcome (Loader F)
  load_segment phdr s =
      if phdr.p_type == ptype_number pt_load
      then (do
        let (res, files) = pf.pf_lseek phdr.p_offset s.files
        s ← map_pages phdr.p_vaddr phdr.p_filesz (record s { files = files })
        let (res, bytes, files) = pf.pf_read phdr.p_filesz s.files
        (done, machine) ← put_bytes phdr.p_vaddr bytes s.machine
        (done, machine) ←
            vmemset (add32 phdr.p_vaddr (length bytes)) 0 (sub32 phdr.p_memsz (length bytes))
              machine
        ok (record s { files = files; machine = machine }))
      else ok s

  -- The seek and the read that begin a round: whether they succeed.
  unfoldable pub fetch : ℕ → ℕ → ℕ → Loader F → Outcome (Bool × Loader F)
  fetch ofs at size s =
      let (res, files) = pf.pf_lseek ofs s.files in
      if not (res == 0) then ok (false, record s { files = files }) else (do
        (res, bytesread, s) ← read_into at size (record s { files = files })
        ok (res == 0 && bytesread == size, s))

  -- The two loops, at the index `i`, with `left` numbers of 16 bits from `i` on: the counts in the
  -- header are such numbers. `false` stands for the return of `NULL`.
  unfoldable pub section_rounds : ℕ → ℕ → Loader F → Outcome (Bool × Loader F)
  section_rounds zero i s = ok (true, s)
  section_rounds (suc left) i s =
      let hdr = ehdr_at s.buf 0 in
      let round = (do
        (good, s) ← fetch (add32 hdr.e_shoff (mul32 i hdr.e_shentsize)) (elf_sheader 0) shdr_size s
        let rest = (do
          s ← map_section (shdr_at s.buf (elf_sheader 0)) s
          section_rounds left (i + 1) s)
        if good then rest else ok (false, s)) in
      if ltb i hdr.e_shnum then round else ok (true, s)

  unfoldable pub program_rounds : ℕ → ℕ → Loader F → Outcome (Bool × Loader F)
  program_rounds zero i s = ok (true, s)
  program_rounds (suc left) i s =
      let hdr = ehdr_at s.buf 0 in
      let round = (do
        (good, s) ← fetch (add32 hdr.e_phoff (mul32 i hdr.e_phentsize)) (elf_pheader 0) phdr_size s
        let rest = (do
          s ← load_segment (phdr_at s.buf (elf_pheader 0)) s
          program_rounds left (i + 1) s)
        if good then rest else ok (false, s)) in
      if ltb i hdr.e_phnum then round else ok (true, s)

  -- The part behind the checks of the header.
  unfoldable pub load_parts : Loader F → Outcome (ℕ × Loader F)
  load_parts s = do
    (good, s) ← section_rounds (2 ^ 16) 0 s
    let programs = (do
      (good, s) ← program_rounds (2 ^ 16) 0 s
      ok (if good then (ehdr_at s.buf 0).e_entry else 0, s))
    if good then programs else ok (0, s)

  -- `buf` is the buffer of the size `bufsiz`.
  unfoldable pub elf_load_file : List ℕ → ℕ → Loader F → Outcome (ℕ × Loader F)
  elf_load_file filename bufsiz s =
      let (res, files) = pf.pf_open filename s.files in
      let s = record s { files = files } in
      if not (res == 0) || ltb bufsiz (ehdr_size + phdr_size + shdr_size) then ok (0, s) else (do
        (res, bytesread, s) ← read_into 0 ehdr_size s
        let rest = load_parts s
        if not (res == 0)
              || not (bytesread == ehdr_size)
              || not (elf_is_supported (ehdr_at s.buf 0))
            then ok (0, s)
            else rest)
