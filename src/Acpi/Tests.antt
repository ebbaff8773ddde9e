-- ===== src/Acpi/Tests.antt =====
-- A search and a sum in a small memory.
use boot.Base.{ℕ, ◌%◌, []}
use boot.Mmu.{Cmd, Machine, ret}
use boot.Kmalloc.{Kmalloc}
use boot.Acpi.{find_rsdp}
use boot.Acpi.Search.{IsRsdp, find_rsdp-IsRsdp}

find_rsdp-IsRsdp_example : IsRsdp (λ a. a % 48) 32 (find_rsdp (λ a. a % 48) 32)
find_rsdp-IsRsdp_example = find_rsdp-IsRsdp (λ a. a % 48) 32

abbrev no_copy : ℕ → ℕ → ℕ → Cmd (Unit {0})
no_copy dst src n = ret tt

abbrev idle : Machine
idle = record { frames = λ f i. 0; cr3 = 0; flushed = [] }

abbrev no_allocator : Kmalloc
no_allocator = record {
  ptmeta = [];
  ptmeta_first_free = 256;
  pmm = record { pcount = 0; pfree = 0; pidx = 0 };
}
