-- ===== src/Acpi.antt =====
-- stage3/x86/acpi.c: the search for the root pointer, and the checksum of a block of memory.
pub mod Search
pub mod Sum
pub mod Init
mod Tests
use boot.Base.{ℕ, zero, suc, ◌+◌, ◌^◌, Option, none, some, ◌==◌, if◌then◌else◌, u8}
use boot.Text.{memcmp}

abbrev pub ebda_start : ℕ
ebda_start = 0x8_0000

abbrev pub bios_start : ℕ
bios_start = 0xE_0000

-- Both areas are 128 KiB: 8192 steps of 16 bytes.
abbrev pub area_steps : ℕ
area_steps = 0x2000

-- The steps of a search that are left, at the address `i`. `rsdp_sig` is the address of the
-- signature.
unfoldable pub find_from : (ℕ → ℕ) → ℕ → ℕ → ℕ → Option ℕ
find_from memory rsdp_sig zero i = none
find_from memory rsdp_sig (suc left) i =
    let rest = find_from memory rsdp_sig left (i + 0x10) in
    if memcmp memory i rsdp_sig 8 == 0 then some i else rest

unfoldable pub find_rsdp : (ℕ → ℕ) → ℕ → Option ℕ
find_rsdp memory rsdp_sig = elim (find_from memory rsdp_sig area_steps ebda_start) [
  | some i ↦ some i
  | none ↦ find_from memory rsdp_sig area_steps bios_start
]

-- The rounds of `checksum` that are left, from the address `data` on.
unfoldable pub checksum_rounds : (ℕ → ℕ) → ℕ → ℕ → ℕ → ℕ
checksum_rounds memory zero data' csum = csum
checksum_rounds memory (suc left) data' csum =
    checksum_rounds memory left (data' + 1) (u8 (csum + memory data'))

unfoldable pub checksum : (ℕ → ℕ) → ℕ → ℕ → ℕ
checksum memory block size = checksum_rounds memory size block 0
