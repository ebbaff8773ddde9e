-- ===== src/PageTable/Remap.antt =====
-- What `remap` answers.
use boot.Base.{
  ℕ, ◌%◌, ◌/◌, ◌*◌, ◌^◌, ◌<◌, ◌≡◌, refl, true, false, ok, ◌==◌, if◌then◌else◌, Bool-cases, inl, inr,
}
use boot.Mmu.{Machine}
use boot.Vaddr.Access.{IsRecursive}
use boot.Vaddr.Calls.{dir_entry, entry, mapping, replaced, pt_map-absent, pt_map-present}
use boot.PageTable.{PageTable, remap}

-- With a recursive directory, `remap` without a page table for the 32-bit address maps nothing and
-- answers true.
pub remap-absent :
    {m : Machine} (vptr flags : ℕ) (this : PageTable)
    → IsRecursive m
    → vptr < 2 ^ 32
    → dir_entry m vptr % 2 ≡ 0
    → remap vptr flags this m ≡ ok ((true, record this { vaddr = vptr }), m)
unfolding remap
remap-absent vptr flags this r low absent =
    rw (pt_map-absent r vptr low this.paddr flags absent) refl

-- With a recursive directory and a page table for the 32-bit address, `remap` writes the entry, and
-- answers whether the entry before was not 0.
pub remap-present :
    {m : Machine} (vptr flags : ℕ) (this : PageTable)
    → IsRecursive m
    → vptr < 2 ^ 32
    → dir_entry m vptr % 2 ≡ 1
    → remap vptr flags this m
      ≡ ok (
        if entry m vptr == 0 then (false, this) else (true, record this { vaddr = vptr }),
        replaced m vptr (mapping this.paddr flags) (vptr / 2 ^ 12 * 2 ^ 12),
      )
unfolding remap
remap-present {m} vptr flags this r low present = elim (Bool-cases (entry m vptr == 0)) [
  | inl t ↦ rw (pt_map-present r vptr low this.paddr flags present, t) refl
  | inr f ↦ rw (pt_map-present r vptr low this.paddr flags present, f) refl
]
