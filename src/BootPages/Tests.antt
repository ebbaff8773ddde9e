-- ===== src/BootPages/Tests.antt =====
-- The directory at frame 5, and a map with one usable region.
use boot.Base.{[], ◌∷◌, ℕ, if◌then◌else◌, ◌==◌, ◌&&◌, ◌+◌, ◌*◌}
use boot.Mmu.{Machine}
use boot.BootPages.{Pages, Region}
use boot.Base.{◌^◌}

abbrev usable : Region
usable = record { base = 0; length = 0x9_F000; type = 1; acpi = 1 }

abbrev reserved : Region
reserved = record { base = 0x10_0000; length = 0x70_0000; type = 2; acpi = 1 }

abbrev no_pages : Pages
no_pages = record { e820 = []; entries_index = 0; entry_addr = 0 }

abbrev real_mode : Machine
real_mode = record { frames = λ f i. 0; cr3 = 0; flushed = [] }

-- The directory that `pt_init` leaves, and a region from 1 MiB to 2 MiB.
abbrev start_words : ℕ → ℕ → ℕ
start_words f i =
    if f == 5 && i == 0 then 0x8B else if f == 5 && i == 1023 then 5 * 2 ^ 12 + 3 else 2

abbrev started : Machine
started = record { frames = start_words; cr3 = 5; flushed = [] }

abbrev megabyte : Pages
megabyte = record {
  e820 = record { base = 0x10_0000; length = 0x10_0000; type = 1; acpi = 1 } ∷ [];
  entries_index = 0;
  entry_addr = 0x20_0000;
}
