-- ===== src/Mtrr.antt =====
-- stage3/x86/mtrr.c and stage3/x86/cpuid.c: the memory types that the processor reports. What it
-- answers to `rdmsr` and `cpuid` are the arguments `rdmsr` and `get_cpuid`.
pub mod Fixed
pub mod Bases
mod Tests
use boot.Base.{
  ℕ, zero, suc, ◌+◌, ◌-◌, ◌*◌, ◌/◌, ◌^◌, List, [], ◌∷◌, bit_and, u8, u32, ltb, if◌then◌else◌, ◌==◌,
  replicate,
}
use boot.Base.{Outcome, ok, ◌>>=◌, store, load}

abbrev pub mtrr_none : ℕ
mtrr_none = 0xFF

abbrev pub mtrr_num_fixed : ℕ
mtrr_num_fixed = 88

abbrev pub cpuid_mtrr : ℕ
cpuid_mtrr = 12

-- `struct mtrr`
pub record VarMtrr : Type 0 where
  pub base : ℕ
  pub mask : ℕ
  pub type : ℕ
  pub enabled : ℕ

-- The static variables: `mtrrcap`, `var_mtrrs` and `fix_mtrrs`.
pub record Mtrr : Type 0 where
  pub mtrrcap : ℕ
  pub var_mtrrs : List VarMtrr
  pub fix_mtrrs : List ℕ

-- The rounds of `mtrr_set` that are left, from the element `at` on.
unfoldable pub mtrr_set_rounds : ℕ → ℕ → ℕ → List ℕ → Outcome (List ℕ)
mtrr_set_rounds zero at msr fix_mtrrs = ok fix_mtrrs
mtrr_set_rounds (suc left) at msr fix_mtrrs = do
  fix_mtrrs ← store fix_mtrrs at (bit_and msr 0xFF)
  mtrr_set_rounds left (at + 1) (msr / 2 ^ 8) fix_mtrrs

unfoldable pub mtrr_set : ℕ → ℕ → List ℕ → Outcome (List ℕ)
mtrr_set idx msr fix_mtrrs = mtrr_set_rounds 8 idx msr fix_mtrrs

-- `mtrr_set` for each index and register of a table, in order.
unfoldable pub mtrr_set_each : (ℕ → ℕ) → List (ℕ × ℕ) → List ℕ → Outcome (List ℕ)
mtrr_set_each rdmsr [] fix_mtrrs = ok fix_mtrrs
mtrr_set_each rdmsr ((idx, reg) ∷ rest) fix_mtrrs = do
  fix_mtrrs ← mtrr_set idx (rdmsr reg) fix_mtrrs
  mtrr_set_each rdmsr rest fix_mtrrs

-- The eleven calls of `mtrr_init`.
abbrev pub fixed_registers : List (ℕ × ℕ)
fixed_registers =
    (0x00, 0x250)
    ∷ (0x08, 0x258)
    ∷ (0x10, 0x259)
    ∷ (0x18, 0x268)
    ∷ (0x20, 0x269)
    ∷ (0x28, 0x26A)
    ∷ (0x30, 0x26B)
    ∷ (0x38, 0x26C)
    ∷ (0x40, 0x26D)
    ∷ (0x48, 0x26E)
    ∷ (0x50, 0x26F)
    ∷ []

abbrev pub mtrr_size : ℕ → ℕ
mtrr_size mtrrcap = bit_and mtrrcap 0xFF

-- What the loop over the variable registers stores for the register `i`.
abbrev pub var_at : (ℕ → ℕ) → ℕ → VarMtrr
var_at rdmsr i = record {
  base = u32 (bit_and (rdmsr (0x200 + 2 * i)) 0xFFFF_F000);
  type = u8 (bit_and (rdmsr (0x200 + 2 * i)) 0xFF);
  mask = u32 (bit_and (rdmsr (0x200 + 2 * i + 1)) 0xFFFF_F000);
  enabled = u8 (bit_and (rdmsr (0x200 + 2 * i + 1) / 2 ^ 11) 1);
}

-- The rounds of that loop that are left, from the register `i` on.
unfoldable pub read_var : (ℕ → ℕ) → ℕ → ℕ → List VarMtrr → Outcome (List VarMtrr)
read_var rdmsr zero i var_mtrrs = ok var_mtrrs
read_var rdmsr (suc left) i var_mtrrs = do
  var_mtrrs ← store var_mtrrs i (var_at rdmsr i)
  read_var rdmsr left (i + 1) var_mtrrs

unfoldable pub mtrr_init : ℕ → (ℕ → ℕ) → Mtrr → Outcome Mtrr
mtrr_init cpuid rdmsr m =
    if bit_and cpuid cpuid_mtrr == 0
    then ok (record m { mtrrcap = 0; fix_mtrrs = replicate mtrr_num_fixed mtrr_none })
    else (do
      fix_mtrrs ← mtrr_set_each rdmsr fixed_registers m.fix_mtrrs
      var_mtrrs ← read_var rdmsr (mtrr_size (u32 (bit_and (rdmsr 0xFE) 0xFFFF_FFFF))) 0 m.var_mtrrs
      ok record {
        mtrrcap = u32 (bit_and (rdmsr 0xFE) 0xFFFF_FFFF);
        var_mtrrs = var_mtrrs;
        fix_mtrrs = fix_mtrrs;
      })

unfoldable pub mtrr_read : ℕ → Mtrr → Outcome VarMtrr
mtrr_read idx m = load m.var_mtrrs idx

unfoldable pub mtrr_fixed_type : ℕ → Mtrr → Outcome ℕ
mtrr_fixed_type mtrr m = load m.fix_mtrrs mtrr

unfoldable pub mtrr_base : ℕ → ℕ
mtrr_base mtrr =
    if ltb mtrr 8
    then 0x10000 * mtrr
    else if ltb mtrr 24
    then 0x80000 + (mtrr - 8) * 0x4000
    else 0xC0000 + (mtrr - 24) * 0x1000
