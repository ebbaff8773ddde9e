-- ===== src/Pic/Tests.antt =====
-- The theorems on the interrupt controllers at concrete histories.
use boot.Base.{[], ◌∷◌}
use boot.Ports.{Cpu, Device}
use boot.Pic.Chip.{Chip}

abbrev quiet : Cpu
quiet = record { eflags = 0; accesses = [] }

-- Line 7 of the chip in service, inside line 2.
abbrev serving : Chip
serving = record {
  expects = 0;
  vector = 8;
  cascade = 2;
  icw4 = 1;
  mask = 0;
  in_service = 7 ∷ 2 ∷ [];
}

abbrev all_ones : Device
all_ones history port = 0xFF
