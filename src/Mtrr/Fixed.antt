-- ===== src/Mtrr/Fixed.antt =====
-- The 88 types of the fixed ranges.
use boot.Base.{
  [], ◌∷◌, ℕ, zero, suc, ◌+◌, ◌/◌, ◌%◌, ◌^◌, ◌≤◌, ◌<◌, ◌≡◌, refl, arith, List, length, get_or, set,
  bit_and, bit_and_low, ok, store_in_range,
}
use boot.Mtrr.{mtrr_set_rounds, Mtrr}
use boot.Base.{length-set, ◌∙◌, ap, get_or-set_self, sym, get_or-set_ne, Bool, ◌*◌, ◌∷◌, not}
use native.Mathlib.Nat.{div-div-eq-div-mul, pow-suc}
use boot.Base.{◌==◌}

-- What a list of types holds after `count` bytes of a register were written at `at`.
pub record IsSet8 (count at msr : ℕ) (old new : List ℕ) : Type 0 where
  pub same_length : length new ≡ length old
  pub inside : (i : ℕ) → i < count → get_or new (at + i) 0 ≡ msr / 256 ^ i % 256
  pub below : (i : ℕ) → i < at → get_or new i 0 ≡ get_or old i 0
  pub above : (i : ℕ) → at + count ≤ i → get_or new i 0 ≡ get_or old i 0

div_byte : (k x : ℕ) → x / 256 / 256 ^ k ≡ x / 256 ^ suc k
div_byte k x =
    rw (div-div-eq-div-mul x 256 (256 ^ k)) (ap (λ (t : ℕ). x / t) (omega (arith, pow-suc 256 k)))

-- One byte more at the front.
IsSet8-step :
    (count at msr : ℕ) (old new : List ℕ)
    → at < length old
    → IsSet8 count (at + 1) (msr / 256) (set old at (msr % 256)) new
    → IsSet8 (suc count) at msr old new
IsSet8-step count at msr old new h w = record {
  same_length = w.same_length ∙ length-set old at (msr % 256);
  inside = λ i hi. inside_at i hi;
  below = λ i hi. w.below i (omega arith) ∙ get_or-set_ne old at i (msr % 256) 0 (omega arith);
  above = λ i hi. w.above i (omega arith) ∙ get_or-set_ne old at i (msr % 256) 0 (omega arith);
}
  where
    inside_at : (i : ℕ) → i < suc count → get_or new (at + i) 0 ≡ msr / 256 ^ i % 256
    inside_at zero hi =
        let z : at + 0 ≡ at = omega arith in
        let q : msr / 256 ^ 0 ≡ msr = omega arith in
        rw (z, q) (w.below at (omega arith) ∙ get_or-set_self old at (msr % 256) 0 h)
    inside_at (suc j) hi =
        let z : at + suc j ≡ at + 1 + j = omega arith in
        rw (z, sym (div_byte j msr)) (w.inside j (omega arith))

pub mtrr_set_rounds-IsSet8 :
    (count at msr : ℕ) (old : List ℕ)
    → at + count ≤ length old
    → (new : List ℕ) × (mtrr_set_rounds count at msr old ≡ ok new) × IsSet8 count at msr old new
unfolding mtrr_set_rounds
mtrr_set_rounds-IsSet8 zero at msr old h = (
  old,
  refl,
  record {
    same_length = refl;
    inside = λ i hi. absurd (omega arith);
    below = λ i hi. refl;
    above = λ i hi. refl;
  },
)
mtrr_set_rounds-IsSet8 (suc count) at msr old h =
    let b : bit_and msr 0xFF ≡ msr % 256 = bit_and_low 8 msr in
    let s = store_in_range old at (msr % 256) (omega arith) in
    let (new, e, w) =
      mtrr_set_rounds-IsSet8 count (at + 1) (msr / 256) (set old at (msr % 256))
        (omega (arith, length-set old at (msr % 256))) in
    (new, rw (b, s) e, IsSet8-step count at msr old new (omega arith) w)

-- The table lists the registers for consecutive groups of eight types.
abbrev IsTable : ℕ → List (ℕ × ℕ) → Type 0
IsTable at [] = Unit
IsTable at ((idx, reg) ∷ rest) = (idx ≡ at) × IsTable (at + 8) rest

abbrev pub register : List (ℕ × ℕ) → ℕ → ℕ
register table k = (get_or table k (0, 0)).1

pub record IsRead (rdmsr : ℕ → ℕ) (at : ℕ) (table : List (ℕ × ℕ)) (old new : List ℕ) : Type 0 where
  pub same_length : length new ≡ length old
  pub types :
      (k i : ℕ)
      → k < length table
      → i < 8
      → get_or new (at + 8 * k + i) 0 ≡ rdmsr (register table k) / 256 ^ i % 256
  pub below : (i : ℕ) → i < at → get_or new i 0 ≡ get_or old i 0

-- The processor's answer counts as one with these registers when bit 2 or 3 is set.
abbrev pub reports : ℕ → Bool
reports cpuid = not (bit_and cpuid 12 == 0)

-- The number of variable registers that the processor reports.
abbrev pub reported : (ℕ → ℕ) → ℕ
reported rdmsr = rdmsr 0xFE % 2 ^ 8
