-- ===== src/Elf/Load.antt =====
-- The entry point that `elf_load_file` returns.
use boot.Base.{
  ℕ, ◌+◌, ◌<◌, ◌≤◌, true, false, fault, ◌≡◌, refl, ◌∙◌, arith, List, length, write_all, ok, Ensures,
  Ensures-bind, Ensures-weaker, ap, sym, Ensures-cases, Ensures-if, Bool, inl, ltb, leb, not, ◌==◌,
  ◌||◌,
}
use boot.Elf.{Loader, PetitFat, byte_at, ehdr_at, read_into, section_rounds, program_rounds}
use boot.Elf.{elf_load_file, load_parts, ehdr_size, elf_is_supported, word_at}
use boot.Base.{if◌then◌else◌, ◌⊎◌, inr, ◌^◌, write_all_inside}
use boot.Elf.Kept.{Keeps, Keeps-refl, KeptBy, section_rounds-Kept, program_rounds-Kept}

-- The word at 24 of the buffer.
entry_of :
    (good : Bool) (old new : List ℕ)
    → Keeps old new
    → ((if good then (ehdr_at new 0).e_entry else 0) ≡ 0)
      ⊎ ((if good then (ehdr_at new 0).e_entry else 0) ≡ word_at old 24)
unfolding ehdr_at
entry_of false old new k = inl refl
entry_of true old new k = inr (
    rw
      (
        k.first_bytes 24 (omega arith),
        k.first_bytes 25 (omega arith),
        k.first_bytes 26 (omega arith),
        k.first_bytes 27 (omega arith),
      )
      refl)

byte_first :
    (buf bytes : List ℕ) (k : ℕ)
    → k < length bytes
    → length bytes ≤ length buf
    → byte_at (write_all buf 0 bytes) k ≡ byte_at bytes k
byte_first buf bytes k h fits =
    let e : 0 + k ≡ k = omega arith in
    ap (byte_at (write_all buf 0 bytes)) (sym e) ∙ write_all_inside buf 0 bytes k 0 h (omega arith)

word_first :
    (buf bytes : List ℕ)
    → 28 ≤ length bytes
    → length bytes ≤ length buf
    → word_at (write_all buf 0 bytes) 24 ≡ word_at bytes 24
word_first buf bytes h fits =
    rw
      (
        byte_first buf bytes 24 (omega arith) fits,
        byte_first buf bytes 25 (omega arith) fits,
        byte_first buf bytes 26 (omega arith) fits,
        byte_first buf bytes 27 (omega arith) fits,
      )
      refl

all_hold : (a b c : Bool) → (not a || not b || not c) ≡ false → (a ≡ true) × (b ≡ true) × (c ≡ true)
all_hold true true true h = (refl, refl, refl)
all_hold true true false h = ground arith
all_hold true false c h = ground arith
all_hold false b c h = ground arith

module _ {F : Type 0} (pf : PetitFat F) where
  load_parts-entry :
      (s : Loader F) → Ensures (λ (v, s'). (v ≡ 0) ⊎ (v ≡ word_at s.buf 24)) (load_parts pf s)
  unfolding load_parts
  load_parts-entry s =
      let Result : ℕ × Loader F → Type 0 = λ (v, s'). (v ≡ 0) ⊎ (v ≡ word_at s.buf 24) in
      Ensures-bind (KeptBy pf s.buf) Result (section_rounds pf (2 ^ 16) 0 s) _
        (section_rounds-Kept pf (2 ^ 16) 0 s s.buf (Keeps-refl s.buf))
        (λ (good, s1) k1.
          Ensures-if Result good _ (ok (0, s1))
            (Ensures-bind (KeptBy pf s.buf) Result (program_rounds pf (2 ^ 16) 0 s1) _
              (program_rounds-Kept pf (2 ^ 16) 0 s1 s.buf k1)
              (λ (good, s2) k2. entry_of good s.buf s2.buf k2))
            (inl refl))

  -- `elf_load_file` returns 0, or the four bytes from 24 on that the file begins with, and that only
  -- when the first read stores a whole header of a kind that `elf_is_supported` accepts.
  pub elf_load_file-entry :
      (filename : List ℕ) (bufsiz : ℕ) (s : Loader F)
      → let (res, bytes, files) = pf.pf_read ehdr_size (pf.pf_open filename s.files).1 in
        Ensures
          (λ (v, s').
            (v ≡ 0)
            ⊎ ((res ≡ 0)
                × (length bytes ≡ 52)
                × (elf_is_supported (ehdr_at (write_all s.buf 0 bytes) 0) ≡ true)
                × (v ≡ word_at bytes 24)))
          (elf_load_file pf filename bufsiz s)
  unfolding elf_load_file read_into
  elf_load_file-entry filename bufsiz s =
      let (res, bytes, files) = pf.pf_read ehdr_size (pf.pf_open filename s.files).1 in
      let head = ehdr_at (write_all s.buf 0 bytes) 0 in
      let Result : ℕ × Loader F → Type 0 = λ (v, s').
        (v ≡ 0)
        ⊎ ((res ≡ 0)
            × (length bytes ≡ 52)
            × (elf_is_supported head ≡ true)
            × (v ≡ word_at bytes 24)) in
      let start = record s { files = (pf.pf_open filename s.files).1 } in
      let buf1 = write_all s.buf 0 bytes in
      let AsRead : ℕ × ℕ × Loader F → Type 0 = λ (r, n, s1).
        (r ≡ res) × (n ≡ length bytes) × (s1.buf ≡ buf1) × (length bytes ≤ length s.buf) in
      Ensures-if Result (not ((pf.pf_open filename s.files).0 == 0) || ltb bufsiz 124)
        (ok (0, start)) _ (inl refl)
        (Ensures-bind AsRead Result (read_into pf 0 ehdr_size start) _
          (Ensures-cases AsRead (leb (0 + length bytes) (length s.buf)) _ fault
            (λ t. (refl, refl, refl, ground arith)) (λ t. tt))
          (λ (r, n, s1) (er, en, eb, le).
            Ensures-cases Result
              (not (r == 0) || not (n == 52) || not (elf_is_supported (ehdr_at s1.buf 0)))
              (ok (0, s1)) (load_parts pf s1) (λ t. inl refl)
              (λ f.
                let (r0, n52, good) =
                  all_hold (r == 0) (n == 52) (elf_is_supported (ehdr_at s1.buf 0)) f in
                let len : length bytes ≡ 52 = ground arith in
                let zero_res : res ≡ 0 = ground arith in
                Ensures-weaker (λ (v, s2). (v ≡ 0) ⊎ (v ≡ word_at s1.buf 24)) Result
                  (load_parts pf s1)
                  (λ (v, s2) e. elim e [
                    | inl z ↦ inl z
                    | inr w ↦ inr (
                      zero_res,
                      len,
                      rw eb at good,
                      w ∙ (ap (λ b. word_at b 24) eb ∙ word_first s.buf bytes (omega arith) le),
                    )
                  ])
                  (load_parts-entry s1))))
