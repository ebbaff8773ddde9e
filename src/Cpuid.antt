-- ===== src/Cpuid.antt =====
-- stage3/x86/cpuid.c: the feature word, which is read once, and the names of its bits. The word
-- that the processor gives is the argument `get_cpuid`.
use boot.Base.{ℕ, zero, suc, ◌+◌, ◌*◌, ◌^◌, Bool, not, ◌==◌, bit_and, List, [], ◌∷◌, if◌then◌else◌}
use boot.Base.{ℕ, zero, suc, ◌+◌, ◌*◌, ◌^◌, Bool, not, ◌==◌, bit_and, List, [], ◌∷◌, if◌then◌else◌}

-- The static variable `_cpuid`.
pub record Cpuid : Type 0 where
  pub features : ℕ

unfoldable pub cpuid_init : ℕ → Cpuid → Cpuid
cpuid_init get_cpuid c = record c { features = get_cpuid }

unfoldable pub cpuid : Cpuid → ℕ
cpuid c = c.features

-- The address of the name of a flag, four characters each; `cpuid_flags` is the address of the
-- first.
unfoldable pub cpuid_str : ℕ → ℕ → ℕ
cpuid_str cpuid_flags flag = cpuid_flags + 4 * flag

-- `cpuid_flags`: the bits of the word.
pub data CpuidFlag : Type 0 where
  cpuid_fpu : CpuidFlag
  cpuid_vme : CpuidFlag
  cpuid_de : CpuidFlag
  cpuid_pse : CpuidFlag
  cpuid_tsc : CpuidFlag
  cpuid_msr : CpuidFlag
  cpuid_pae : CpuidFlag
  cpuid_mce : CpuidFlag
  cpuid_cx8 : CpuidFlag
  cpuid_apic : CpuidFlag
  cpuid_reserved_1 : CpuidFlag
  cpuid_sep : CpuidFlag
  cpuid_mtrr : CpuidFlag
  cpuid_pge : CpuidFlag
  cpuid_mca : CpuidFlag
  cpuid_cmov : CpuidFlag
  cpuid_pat : CpuidFlag
  cpuid_pse36 : CpuidFlag
  cpuid_psn : CpuidFlag
  cpuid_clfsh : CpuidFlag
  cpuid_reserved_2 : CpuidFlag
  cpuid_ds : CpuidFlag
  cpuid_acpi : CpuidFlag
  cpuid_mmx : CpuidFlag
  cpuid_fxsr : CpuidFlag
  cpuid_sse : CpuidFlag
  cpuid_sse2 : CpuidFlag
  cpuid_ss : CpuidFlag
  cpuid_htt : CpuidFlag
  cpuid_tm : CpuidFlag
  cpuid_ia64 : CpuidFlag
  cpuid_pbe : CpuidFlag

unfoldable pub flag_number : CpuidFlag → ℕ
flag_number cpuid_fpu = 0
flag_number cpuid_vme = 1
flag_number cpuid_de = 2
flag_number cpuid_pse = 3
flag_number cpuid_tsc = 4
flag_number cpuid_msr = 5
flag_number cpuid_pae = 6
flag_number cpuid_mce = 7
flag_number cpuid_cx8 = 8
flag_number cpuid_apic = 9
flag_number cpuid_reserved_1 = 10
flag_number cpuid_sep = 11
flag_number cpuid_mtrr = 12
flag_number cpuid_pge = 13
flag_number cpuid_mca = 14
flag_number cpuid_cmov = 15
flag_number cpuid_pat = 16
flag_number cpuid_pse36 = 17
flag_number cpuid_psn = 18
flag_number cpuid_clfsh = 19
flag_number cpuid_reserved_2 = 20
flag_number cpuid_ds = 21
flag_number cpuid_acpi = 22
flag_number cpuid_mmx = 23
flag_number cpuid_fxsr = 24
flag_number cpuid_sse = 25
flag_number cpuid_sse2 = 26
flag_number cpuid_ss = 27
flag_number cpuid_htt = 28
flag_number cpuid_tm = 29
flag_number cpuid_ia64 = 30
flag_number cpuid_pbe = 31

-- How the kernel tests a flag, and the addresses of the names that it prints, from the flag `i` on,
-- with `left` flags to come.
abbrev pub has_flag : Cpuid → ℕ → Bool
has_flag c flag = not (bit_and (cpuid c) (2 ^ flag) == 0)

unfoldable pub printed_flags : ℕ → ℕ → ℕ → Cpuid → List ℕ
printed_flags zero i cpuid_flags c = []
printed_flags (suc left) i cpuid_flags c =
    let rest = printed_flags left (i + 1) cpuid_flags c in
    if has_flag c i then cpuid_str cpuid_flags i ∷ rest else rest
