-- ===== src/Kernel/Printing.antt =====
-- stage3/kmain.cpp: the texts that go to COM1. `str` is the address of a text, `halt` is what
-- happens until the next interrupt has been handled, and `gap` says how many interrupts of COM1 come
-- before a text, given all port accesses before.
use boot.Base.{
  ℕ, zero, suc, ◌+◌, ◌-◌, List, [], ◌∷◌, ◌++◌, Outcome, ok, fault, ◌>>=◌, none, some, leb,
  if◌then◌else◌, get_or, set, take, drop, u8, replicate,
}
use boot.Ports.{Cpu, Access}
use boot.Serial.{Serial}
use boot.Isrs.{com1_isr}
use boot.Text.{strlen, hextostr}
use boot.Console.{kprint_serial}
use boot.MemoryMap.{Smap32}
use boot.Cpuid.{Cpuid, printed_flags}

-- " Base       | Length     | Type\r\n"
abbrev pub header : List ℕ
header =
    32
    ∷ 66
    ∷ 97
    ∷ 115
    ∷ 101
    ∷ (replicate 7 32
        ++ (124
            ∷ 32
            ∷ 76
            ∷ 101
            ∷ 110
            ∷ 103
            ∷ 116
            ∷ 104
            ∷ (replicate 5 32 ++ (124 ∷ 32 ∷ 84 ∷ 121 ∷ 112 ∷ 101 ∷ 13 ∷ 10 ∷ []))))

-- " 0x00000000 | 0x0009FC00 | 1\r\n"
abbrev pub region_text : List ℕ
region_text =
    32
    ∷ 48
    ∷ 120
    ∷ (replicate 8 48
        ++ (32 ∷ 124 ∷ 32 ∷ 48 ∷ 120 ∷ 48 ∷ 48 ∷ 48 ∷ 57 ∷ 70 ∷ 67 ∷ 48 ∷ 48 ∷ 32 ∷ 124 ∷ 32 ∷ 49
            ∷ 13 ∷ 10 ∷ []))

-- "Free pages: 0x00000000\r\n"
abbrev pub free_text : List ℕ
free_text =
    70
    ∷ 114
    ∷ 101
    ∷ 101
    ∷ 32
    ∷ 112
    ∷ 97
    ∷ 103
    ∷ 101
    ∷ 115
    ∷ 58
    ∷ 32
    ∷ 48
    ∷ 120
    ∷ (replicate 8 48 ++ (13 ∷ 10 ∷ []))

-- "Error: invalid page 0x00000000\r\n"
abbrev pub error_text : List ℕ
error_text =
    69
    ∷ 114
    ∷ 114
    ∷ 111
    ∷ 114
    ∷ 58
    ∷ 32
    ∷ 105
    ∷ 110
    ∷ 118
    ∷ 97
    ∷ 108
    ∷ 105
    ∷ 100
    ∷ 32
    ∷ 112
    ∷ 97
    ∷ 103
    ∷ 101
    ∷ 32
    ∷ 48
    ∷ 120
    ∷ (replicate 8 48 ++ (13 ∷ 10 ∷ []))

-- "CPUID Features: \r\n"
abbrev pub cpuid_text : List ℕ
cpuid_text =
    67 ∷ 80 ∷ 85 ∷ 73 ∷ 68 ∷ 32 ∷ 70 ∷ 101 ∷ 97 ∷ 116 ∷ 117 ∷ 114 ∷ 101 ∷ 115 ∷ 58 ∷ 32 ∷ 13 ∷ 10
    ∷ []

-- "FEAT\r\n" with the four bytes at an address in place of the name.
abbrev pub feature_text : (ℕ → ℕ) → ℕ → List ℕ
feature_text memory a = memory a ∷ memory (a + 1) ∷ memory (a + 2) ∷ memory (a + 3) ∷ 13 ∷ 10 ∷ []

-- `hextostr(in, text + at)`
abbrev pub put_hex : ℕ → List ℕ → ℕ → List ℕ
put_hex in' text at = take at text ++ hextostr in' (drop at text)

-- The text for a region, in the place of the one before.
abbrev pub put_region : List ℕ → Smap32 → List ℕ
put_region text r = set (put_hex r.length (put_hex r.base text 3) 16) 27 (u8 (48 + r.type))

-- Memory with a text and its zero byte at the address `str`.
abbrev pub text_at : ℕ → List ℕ → ℕ → ℕ
text_at str text a = if leb str a then get_or text (a - str) 0 else 0

unfoldable pub interrupts : ℕ → Serial → Cpu → Outcome (Serial × Cpu)
interrupts zero com1 cpu = ok (com1, cpu)
interrupts (suc k) com1 cpu = do (com1, cpu) ← com1_isr com1 cpu; interrupts k com1 cpu

module _ (fuel str : ℕ) (halt : Serial → Cpu → Outcome (Serial × Cpu)) (gap : List Access → ℕ) where
  -- `kprint(text, n)` after the interrupts that come before it, on fuel for the rounds of `kprint`.
  unfoldable pub print_bytes : List ℕ → ℕ → Serial → Cpu → Outcome (Serial × Cpu)
  print_bytes text n com1 cpu = do
    (com1, cpu) ← interrupts (gap cpu.accesses) com1 cpu
    (left, com1, cpu) ← kprint_serial fuel halt text n com1 cpu
    ok (com1, cpu)

  -- `kprint(text, strlen(text))`; 64 rounds are enough for the loops of `strlen`, since no text has
  -- more characters.
  unfoldable pub print_text : List ℕ → Serial → Cpu → Outcome (Serial × Cpu)
  print_text text com1 cpu = elim (strlen 64 (text_at str text) str) [
    | none ↦ fault
    | some n ↦ print_bytes text n com1 cpu
  ]

  -- The loop over the memory map, for fewer than 2 ^ 16 regions.
  unfoldable pub print_regions : List ℕ → List Smap32 → Serial → Cpu → Outcome (Serial × Cpu)
  print_regions text [] com1 cpu = ok (com1, cpu)
  print_regions text (r ∷ e820) com1 cpu = do
    let text = put_region text r
    (com1, cpu) ← print_text text com1 cpu
    print_regions text e820 com1 cpu

  unfoldable pub print_map : List Smap32 → Serial → Cpu → Outcome (Serial × Cpu)
  print_map e820 com1 cpu = do
    (com1, cpu) ← print_text header com1 cpu
    print_regions region_text e820 com1 cpu

  unfoldable pub print_free : ℕ → Serial → Cpu → Outcome (Serial × Cpu)
  print_free free_pages com1 cpu = print_text (put_hex free_pages free_text 14) com1 cpu

  -- The report of a page that is not aligned.
  unfoldable pub print_error : ℕ → Serial → Cpu → Outcome (Serial × Cpu)
  print_error temp_page com1 cpu = print_text (put_hex temp_page error_text 22) com1 cpu

  -- The names at the given addresses, which are those of the flags that the processor has.
  unfoldable pub print_features : (ℕ → ℕ) → List ℕ → Serial → Cpu → Outcome (Serial × Cpu)
  print_features memory [] com1 cpu = ok (com1, cpu)
  print_features memory (a ∷ names) com1 cpu = do
    (com1, cpu) ← print_bytes (feature_text memory a) 6 com1 cpu
    print_features memory names com1 cpu

  -- The features of the processor: the names of the 32 flags stand from `cpuid_flags` on.
  unfoldable pub print_cpuid : (ℕ → ℕ) → ℕ → Cpuid → Serial → Cpu → Outcome (Serial × Cpu)
  print_cpuid memory cpuid_flags c com1 cpu = do
    (com1, cpu) ← print_text cpuid_text com1 cpu
    print_features memory (printed_flags 32 0 cpuid_flags c) com1 cpu
