-- ===== src/Elf/Kept.antt =====
-- The first 32 bytes of the buffer stay as they were read, through both loops.
use boot.Base.{
  ℕ, zero, suc, ◌+◌, ◌/◌, ◌<◌, ◌≤◌, true, false, fault, ◌≡◌, refl, ◌∙◌, arith, List, length,
  write_all, write_all_outside, length-write_all, ok, Ensures, Ensures-bind, Ensures-then, bit_and,
  Ensures-if, Bool, inl, ltb, leb, not, add32, mul32, ◌==◌, ◌||◌, sub32,
}
use boot.Elf.{
  shtype_number, sht_nobits, shf_alloc, ptype_number, pt_load, Loader, PetitFat, Elf32Shdr,
  Elf32Phdr, byte_at, ehdr_at, shdr_at, phdr_at, phdr_size, shdr_size, elf_pheader, elf_sheader,
  read_into, map_rounds, map_pages, map_section, load_segment, fetch, section_rounds,
  program_rounds, put_bytes, vmemset,
}
use boot.BootPages.{boot_pt_map}

pub record Keeps (old new : List ℕ) : Type 0 where
  pub same_length : length new ≡ length old
  pub first_bytes : (k : ℕ) → k < 32 → byte_at new k ≡ byte_at old k

pub Keeps-refl : (buf : List ℕ) → Keeps buf buf
Keeps-refl buf = record { same_length = refl; first_bytes = λ k h. refl }

Keeps-trans : (a b c : List ℕ) → Keeps a b → Keeps b c → Keeps a c
Keeps-trans a b c p q = record {
  same_length = q.same_length ∙ p.same_length;
  first_bytes = λ k h. q.first_bytes k h ∙ p.first_bytes k h;
}

write_all-Keeps :
    (buf : List ℕ) (at : ℕ) (bytes : List ℕ) → 32 ≤ at → Keeps buf (write_all buf at bytes)
write_all-Keeps buf at bytes h = record {
  same_length = length-write_all buf at bytes;
  first_bytes = λ k lt. write_all_outside buf at bytes k 0 (inl (omega arith));
}

module _ {F : Type 0} (pf : PetitFat F) where
  -- What a step that may run before `s'` leaves of a buffer.
  abbrev Kept : List ℕ → Loader F → Type 0
  Kept buf s' = Keeps buf s'.buf

  map_rounds-Kept :
      (left addr : ℕ) (s : Loader F) (buf : List ℕ)
      → Keeps buf s.buf
      → Ensures (Kept buf) (map_rounds pf left addr s)
  unfolding map_rounds
  map_rounds-Kept zero addr s buf h = h
  map_rounds-Kept (suc left) addr s buf h =
      Ensures-then (Kept buf) (boot_pt_map addr s.pages s.machine) _ (λ (pages, machine).
        map_rounds-Kept left (add32 addr 0x1000) (record s { pages = pages; machine = machine }) buf
          h)

  map_pages-Kept :
      (addr size : ℕ) (s : Loader F) (buf : List ℕ)
      → Keeps buf s.buf
      → Ensures (Kept buf) (map_pages pf addr size s)
  unfolding map_pages
  map_pages-Kept addr size s buf h =
      Ensures-if (Kept buf) (ltb size 0x7FFF_F000) _ _
        (map_rounds-Kept (size / 0x1000 + 1) addr s buf h) tt

  map_section-Kept :
      (shdr : Elf32Shdr) (s : Loader F) (buf : List ℕ)
      → Keeps buf s.buf
      → Ensures (Kept buf) (map_section pf shdr s)
  unfolding map_section
  map_section-Kept shdr s buf h =
      Ensures-if (Kept buf)
        (not (shdr.sh_type == shtype_number sht_nobits)
          || shdr.sh_size == 0
          || bit_and shdr.sh_flags shf_alloc == 0)
        (ok s) _ h (map_pages-Kept shdr.sh_addr shdr.sh_size s buf h)

  load_segment-Kept :
      (phdr : Elf32Phdr) (s : Loader F) (buf : List ℕ)
      → Keeps buf s.buf
      → Ensures (Kept buf) (load_segment pf phdr s)
  unfolding load_segment
  load_segment-Kept phdr s buf h =
      Ensures-if (Kept buf) (phdr.p_type == ptype_number pt_load) _ (ok s)
        (Ensures-bind (Kept buf) (Kept buf)
          (map_pages pf phdr.p_vaddr phdr.p_filesz
            (record s { files = (pf.pf_lseek phdr.p_offset s.files).1 }))
          _
          (map_pages-Kept phdr.p_vaddr phdr.p_filesz
            (record s { files = (pf.pf_lseek phdr.p_offset s.files).1 }) buf h)
          (λ s' k.
            let bytes = (pf.pf_read phdr.p_filesz s'.files).1 in
            Ensures-then (Kept buf) (put_bytes phdr.p_vaddr bytes s'.machine) _ (λ (done, machine).
              Ensures-then (Kept buf)
                (vmemset (add32 phdr.p_vaddr (length bytes)) 0 (sub32 phdr.p_memsz (length bytes))
                  machine)
                _ (λ (done, machine). k))))
        h

  -- The same for the steps that give a flag.
  abbrev pub KeptBy : List ℕ → Bool × Loader F → Type 0
  KeptBy buf (good, s') = Keeps buf s'.buf

  read_into-Kept :
      (at count : ℕ) (s : Loader F) (buf : List ℕ)
      → 32 ≤ at
      → Keeps buf s.buf
      → Ensures (λ (res, bytesread, s'). Keeps buf s'.buf) (read_into pf at count s)
  unfolding read_into
  read_into-Kept at count s buf le h =
      let (res, bytes, files) = pf.pf_read count s.files in
      Ensures-if (λ (res, bytesread, s'). Keeps buf s'.buf) (leb (at + length bytes) (length s.buf))
        (ok (res, length bytes, record s { buf = write_all s.buf at bytes; files = files })) fault
        (Keeps-trans buf s.buf (write_all s.buf at bytes) h (write_all-Keeps s.buf at bytes le)) tt

  fetch-Kept :
      (ofs at size : ℕ) (s : Loader F) (buf : List ℕ)
      → 32 ≤ at
      → Keeps buf s.buf
      → Ensures (KeptBy buf) (fetch pf ofs at size s)
  unfolding fetch
  fetch-Kept ofs at size s buf le h =
      let (res, files) = pf.pf_lseek ofs s.files in
      Ensures-if (KeptBy buf) (not (res == 0)) (ok (false, record s { files = files })) _ h (
        Ensures-bind (λ (res, bytesread, s'). Keeps buf s'.buf) (KeptBy buf)
          (read_into pf at size (record s { files = files })) _
          (read_into-Kept at size (record s { files = files }) buf le h)
          (λ (res, bytesread, s') k. k))

  pub section_rounds-Kept :
      (left i : ℕ) (s : Loader F) (buf : List ℕ)
      → Keeps buf s.buf
      → Ensures (KeptBy buf) (section_rounds pf left i s)
  unfolding section_rounds
  section_rounds-Kept zero i s buf h = h
  section_rounds-Kept (suc left) i s buf h =
      let hdr = ehdr_at s.buf 0 in
      let ofs = add32 hdr.e_shoff (mul32 i hdr.e_shentsize) in
      Ensures-if (KeptBy buf) (ltb i hdr.e_shnum) _ (ok (true, s))
        (Ensures-bind (KeptBy buf) (KeptBy buf) (fetch pf ofs (elf_sheader 0) shdr_size s) _
          (fetch-Kept ofs (elf_sheader 0) shdr_size s buf (omega arith) h)
          (λ (good, s') k.
            Ensures-if (KeptBy buf) good _ (ok (false, s'))
              (Ensures-bind (Kept buf) (KeptBy buf)
                (map_section pf (shdr_at s'.buf (elf_sheader 0)) s') _
                (map_section-Kept (shdr_at s'.buf (elf_sheader 0)) s' buf k)
                (λ s2 k2. section_rounds-Kept left (i + 1) s2 buf k2))
              k))
        h

  pub program_rounds-Kept :
      (left i : ℕ) (s : Loader F) (buf : List ℕ)
      → Keeps buf s.buf
      → Ensures (KeptBy buf) (program_rounds pf left i s)
  unfolding program_rounds
  program_rounds-Kept zero i s buf h = h
  program_rounds-Kept (suc left) i s buf h =
      let hdr = ehdr_at s.buf 0 in
      let ofs = add32 hdr.e_phoff (mul32 i hdr.e_phentsize) in
      Ensures-if (KeptBy buf) (ltb i hdr.e_phnum) _ (ok (true, s))
        (Ensures-bind (KeptBy buf) (KeptBy buf) (fetch pf ofs (elf_pheader 0) phdr_size s) _
          (fetch-Kept ofs (elf_pheader 0) phdr_size s buf (omega arith) h)
          (λ (good, s') k.
            Ensures-if (KeptBy buf) good _ (ok (false, s'))
              (Ensures-bind (Kept buf) (KeptBy buf)
                (load_segment pf (phdr_at s'.buf (elf_pheader 0)) s') _
                (load_segment-Kept (phdr_at s'.buf (elf_pheader 0)) s' buf k)
                (λ s2 k2. program_rounds-Kept left (i + 1) s2 buf k2))
              k))
        h
