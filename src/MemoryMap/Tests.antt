-- ===== src/MemoryMap/Tests.antt =====
-- Examples for the memory map.
use boot.Base.{ℕ, zero, ◌≡◌, ◌<◌, refl, arith, List, [], ◌∷◌, true, ok, fault, length}
use boot.MemoryMap.{compress_e820, sort_e820, comp_e820}
use boot.MemoryMap.Regions.{regions, entries, region_at}
use boot.MemoryMap.Compress.{low_ones, compress_e820-low_ones}
use boot.MemoryMap.Insertion.{IsOrdered, sort_e820-front}
use boot.Base.{suc}
use boot.MemoryMap.{validate}
use boot.MemoryMap.LastRegion.{All, IsBehind, validate-last}
use boot.MemoryMap.{Smap32, cut}
use boot.Base.{◌^◌}
use boot.Base.{◌⊎◌, inr, ◌≤◌}

-- Two entries: one above 4 GiB, and one from 1 MiB on that ends behind 4 GiB.
abbrev bios_words : List ℕ
bios_words = 0 ∷ 1 ∷ 4096 ∷ 0 ∷ 1 ∷ 1 ∷ 0x10_0000 ∷ 0 ∷ 0 ∷ 1 ∷ 1 ∷ 1 ∷ []

-- Three regions, of which the last begins in front of the others.
abbrev region_words : List ℕ
region_words = 10 ∷ 5 ∷ 1 ∷ 20 ∷ 5 ∷ 1 ∷ 3 ∷ 2 ∷ 1 ∷ []

abbrev ordered_words : List ℕ
ordered_words = 10 ∷ 5 ∷ 1 ∷ 20 ∷ 5 ∷ 1 ∷ []

compress_e820-low_ones_example :
    (new : List ℕ) × (compress_e820 bios_words 2
      ≡ ok (length (low_ones (entries 2 0 bios_words)), new))
    × (regions (length (low_ones (entries 2 0 bios_words))) 0 new
        ≡ low_ones (entries 2 0 bios_words))
compress_e820-low_ones_example =
    compress_e820-low_ones bios_words 2 (omega arith) (omega arith) (omega arith)

cut_entries :
    low_ones (entries 2 0 bios_words)
    ≡ record { base = 0x10_0000; length = 0xFFF0_0000; type = 1; acpi = 1 } ∷ []
cut_entries = refl

IsOrdered-two : IsOrdered region_words 2
IsOrdered-two i pos lt = let e : i ≡ 1 = omega arith in rw e refl

in_front : (k : ℕ) → k < 2 → comp_e820 (region_at region_words 2) (region_at region_words k) ≡ true
in_front zero h = refl
in_front (suc zero) h = refl
in_front (suc (suc k)) h = absurd (omega arith)

sort_e820-front_example : sort_e820 region_words 3 ≡ fault
sort_e820-front_example =
    sort_e820-front region_words 3 2 (omega arith) (omega arith) (omega arith) (omega arith)
      IsOrdered-two in_front

-- An entry from 0 that goes on behind 4 GiB has no length left.
whole_memory : (cut (record { base = 0; length = 2 ^ 32; type = 1; acpi = 1 })).length ≡ 0
whole_memory = refl

-- Low memory, the memory from 1 MiB on, an entry above 4 GiB, and one that overlaps the second.
abbrev pc_words : List ℕ
pc_words =
    0 ∷ 0 ∷ 0x9_FC00 ∷ 0 ∷ 1 ∷ 1 ∷ 0x10_0000 ∷ 0 ∷ 0x7F0_0000 ∷ 0 ∷ 1 ∷ 1 ∷ 0 ∷ 1 ∷ 4096 ∷ 0 ∷ 1 ∷ 1
    ∷ 0x700_0000 ∷ 0 ∷ 0x200_0000 ∷ 0 ∷ 1 ∷ 1 ∷ []

abbrev region : ℕ → ℕ → Smap32
region base length = record { base = base; length = length; type = 1; acpi = 1 }

validate-last_example :
    (All
        (IsBehind (region 0x700_0000 0x200_0000))
        (region 0 0x9_FC00 ∷ region 0x10_0000 0x7F0_0000 ∷ [])
      × (validate pc_words 4 ≡ fault))
    ⊎ ((0x10_0000 ≤ 0x700_0000)
        × (new : List ℕ) × (validate pc_words 4 ≡ ok (3, new))
        × (regions 3 0 new
            ≡ region 0 0x9_FC00 ∷ region 0x10_0000 0x900_0000 ∷ region 0x700_0000 0x200_0000 ∷ []))
validate-last_example =
    validate-last pc_words 4 (region 0 0x9_FC00 ∷ []) (region 0x10_0000 0x7F0_0000)
      (region 0x700_0000 0x200_0000) 1 (omega arith) (omega arith) (omega arith) (omega arith) refl
      (omega arith) (omega arith) (refl, (refl, (refl, tt))) (omega arith) (omega arith)
      (omega arith) (inr (omega arith))
