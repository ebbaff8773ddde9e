-- ===== src/Boot/Entry.antt =====
-- The entry point that the loader jumps to.
use boot.Base.{
  ℕ, ◌-◌, ◌/◌, ◌≡◌, ◌≢◌, ◌⊎◌, inl, inr, arith, List, length, map, not, ◌==◌, true, Ensures,
  Ensures-bind, Ensures-then, Ensures-assert, write_all,
}
use boot.MemoryMap.{validate}
use boot.MemoryMap.Regions.{regions}
use boot.BootPages.{Pages, pt_init, boot_pt_map}
use boot.Elf.{PetitFat, Loader, ehdr_at, ehdr_size, elf_is_supported, elf_load_file, word_at}
use boot.Elf.Load.{elf_load_file-entry}
use boot.Mmu.{Machine}
use boot.Boot.{Entered, kernel_elf, new_stack, no_pages, region, load_kernel, bmain}

module _ {F : Type 0} (pf : PetitFat F) (pf_mount : F → ℕ × F) (f : ℕ) where
  -- The bytes that the file begins with, as the first read gives them.
  abbrev pub header : F → List ℕ
  header files = (pf.pf_read ehdr_size (pf.pf_open kernel_elf files).1).1

  -- An entry point that a supported header names.
  pub record IsEntry (hdrs : List ℕ) (files : F) (entry : ℕ) : Type 0 where
    pub not_null : entry ≢ 0
    pub is_whole : length (header files) ≡ 52
    pub is_supported : elf_is_supported (ehdr_at (write_all hdrs 0 (header files)) 0) ≡ true
    pub is_named : entry ≡ word_at (header files) 24

  named :
      (hdrs : List ℕ) (files : F) (entry : ℕ)
      → entry ≢ 0
      → (entry ≡ 0)
        ⊎ (((pf.pf_read ehdr_size (pf.pf_open kernel_elf files).1).0 ≡ 0)
            × (length (header files) ≡ 52)
            × (elf_is_supported (ehdr_at (write_all hdrs 0 (header files)) 0) ≡ true)
            × (entry ≡ word_at (header files) 24))
      → IsEntry hdrs files entry
  named hdrs files entry nz (inl z) = absurd (nz z)
  named hdrs files entry nz (inr (res, whole, good, e)) = record {
    not_null = nz;
    is_whole = whole;
    is_supported = good;
    is_named = e;
  }

  load_kernel-IsEntry :
      (hdrs : List ℕ) (pages : Pages) (files : F) (machine : Machine)
      → Ensures
          (λ (entry, s). IsEntry hdrs files entry)
          (load_kernel pf pf_mount f hdrs pages files machine)
  unfolding load_kernel
  load_kernel-IsEntry hdrs pages files machine =
      let start : Loader F = record {
        buf = hdrs;
        files = files;
        pages = pages;
        machine = machine;
      } in
      let Result : ℕ × Loader F → Type 0 = λ (entry, s). IsEntry hdrs files entry in
      Ensures-bind _ Result (elf_load_file pf kernel_elf (length hdrs) start) _
        (elf_load_file-entry pf kernel_elf (length hdrs) start)
        (λ (entry, s) e. Ensures-assert Result (not (entry == 0)) _ (λ t.
          let nz : entry ≢ 0 = ground arith in
          Ensures-then Result (boot_pt_map (new_stack - 0x1000) s.pages s.machine) _
            (λ a. named hdrs files entry nz e)))

  -- When the loader reaches `enter`, the entry point is not 0, and it is the one that the first 52 bytes
  -- of KERNEL.ELF name, which are a header that `elf_is_supported` accepts.
  pub bmain-IsEntry :
      (words : List ℕ) (e820size : ℕ) (hdrs : List ℕ) (files : F) (machine : Machine)
      → Ensures
          (λ entered. IsEntry hdrs (pf_mount files).1 entered.entry)
          (bmain pf pf_mount f words e820size hdrs files machine)
  unfolding bmain
  bmain-IsEntry words e820size hdrs files machine =
      let mounted = (pf_mount files).1 in
      let Result : Entered F → Type 0 = λ entered. IsEntry hdrs mounted entered.entry in
      Ensures-then Result (validate words e820size) _ (λ (n, words).
        Ensures-assert Result ((pf_mount files).0 == 0) _ (λ t.
          Ensures-then Result
            (pt_init f (map region (regions (length words / 3) 0 words)) no_pages machine) _
            (λ (pages, machine).
              Ensures-bind (λ (entry, s). IsEntry hdrs mounted entry) Result
                (load_kernel pf pf_mount f hdrs pages mounted machine) _
                (load_kernel-IsEntry hdrs pages mounted machine) (λ a k. k))))
