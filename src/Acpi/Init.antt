-- ===== src/Acpi/Init.antt =====
-- `acpi_init_fixed` of stage3/x86/acpi.c. `memory` gives the bytes that the address space shows.
use boot.Base.{
  ℕ, zero, suc, ◌+◌, ◌*◌, ◌^◌, ◌≡◌, List, [], ◌∷◌, refl, ◌==◌, panic, some, none, Ensures,
  Ensures-then, Ensures-weaker, arith, Option-cases, inl, inr,
}
use boot.Mmu.{Cmd, ret, ◌>>=◌, ◌>>◌, Machine}
use boot.Kmalloc.{assert-Ensures, Kmalloc, vmap, assert}
use boot.Acpi.{find_rsdp, checksum, suc}
use boot.Base.{Ensures, Ensures-then, Option-cases, arith, inl, inr}

-- `struct RSDP`
pub record Rsdp : Type 0 where
  pub signature : List ℕ
  pub checksum : ℕ
  pub oem_id : List ℕ
  pub revision : ℕ
  pub rsdt_address : ℕ

abbrev pub bytes_at : (ℕ → ℕ) → ℕ → ℕ → List ℕ
bytes_at memory zero a = []
bytes_at memory (suc n) a = memory a ∷ bytes_at memory n (a + 1)

abbrev pub rsdp_at : (ℕ → ℕ) → ℕ → Rsdp
rsdp_at memory a = record {
  signature = bytes_at memory 8 a;
  checksum = memory (a + 8);
  oem_id = bytes_at memory 6 (a + 9);
  revision = memory (a + 15);
  rsdt_address =
      memory (a + 16)
      + memory (a + 17) * 2 ^ 8
      + memory (a + 18) * 2 ^ 16
      + memory (a + 19) * 2 ^ 24;
}

abbrev rsdp_size : ℕ
rsdp_size = 20

abbrev acpi_version_1 : ℕ
acpi_version_1 = 0

module _ (memcpy : ℕ → ℕ → ℕ → Cmd (Unit {0})) (curr_pages : ℕ) (memory : ℕ → ℕ)
    (rsdp_sig : ℕ) where
  -- The checks of the root pointer at an address, and the mapping of the table.
  unfoldable pub check_rsdp : ℕ → Kmalloc → Cmd (ℕ × Kmalloc)
  check_rsdp rsdp k = do
    assert ((rsdp_at memory rsdp).revision == acpi_version_1)
    assert (checksum memory rsdp rsdp_size == 0)
    (rsdt, k) ← vmap curr_pages memcpy (rsdp_at memory rsdp).rsdt_address 4096 k
    ret (1, k)

  unfoldable pub acpi_init_fixed : Kmalloc → Cmd (ℕ × Kmalloc)
  acpi_init_fixed k m = elim (find_rsdp memory rsdp_sig) [
    | none ↦ panic
    | some rsdp ↦ check_rsdp rsdp k m
  ]

  -- What has been checked of the root pointer.
  pub record IsChecked (rsdp : ℕ) : Type 0 where
    pub revision : memory (rsdp + 15) ≡ 0
    pub sum : checksum memory rsdp 20 ≡ 0

  check_rsdp-IsChecked :
      (rsdp : ℕ) (k : Kmalloc) (m : Machine)
      → Ensures (λ (r, m'). (r.0 ≡ 1) × IsChecked rsdp) (check_rsdp rsdp k m)
  unfolding check_rsdp
  check_rsdp-IsChecked rsdp k m =
      let Result : (ℕ × Kmalloc) × Machine → Type 0 = λ (r, m'). (r.0 ≡ 1) × IsChecked rsdp in
      assert-Ensures Result ((rsdp_at memory rsdp).revision == acpi_version_1) _ m (λ t.
        assert-Ensures Result (checksum memory rsdp rsdp_size == 0) _ m (λ u.
          Ensures-then Result (vmap curr_pages memcpy (rsdp_at memory rsdp).rsdt_address 4096 k m) _
            (λ a. (refl, record { revision = ground arith; sum = ground arith }))))

  -- When `acpi_init_fixed` returns, it returns 1, and the root pointer that `find_rsdp` finds has the
  -- revision 0 and 20 bytes whose sum is 0.
  pub acpi_init_fixed-IsChecked :
      (k : Kmalloc) (m : Machine)
      → Ensures
          (λ (r, m').
            (r.0 ≡ 1) × (rsdp : ℕ) × (find_rsdp memory rsdp_sig ≡ some rsdp) × IsChecked rsdp)
          (acpi_init_fixed k m)
  unfolding acpi_init_fixed
  acpi_init_fixed-IsChecked k m = elim (Option-cases (find_rsdp memory rsdp_sig)) [
    | inl n ↦ rw (acpi_init_fixed, n) tt
    | inr (a, h) ↦
        rw (acpi_init_fixed, h)
          (Ensures-weaker (λ (r, m'). (r.0 ≡ 1) × IsChecked a)
            (λ (r, m'). (r.0 ≡ 1) × (rsdp : ℕ) × (some a ≡ some rsdp) × IsChecked rsdp)
            (check_rsdp a k m) (λ x (e, c). (e, a, refl, c)) (check_rsdp-IsChecked a k m))
  ]
