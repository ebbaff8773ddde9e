-- ===== src/Acpi/Search.antt =====
-- The search finds the first place that carries the signature.
use boot.Base.{
  ℕ, zero, suc, ◌+◌, ◌*◌, ◌<◌, ◌≡◌, arith, Option, none, some, ◌==◌, Bool-cases, inl, inr,
}
use mathlib.Core.Path.{subst}
use boot.Text.{memcmp}
use boot.Acpi.{find_from, find_rsdp, area_steps, ebda_start, bios_start}
use boot.Base.{Option-cases}

abbrev pub IsSigned : (ℕ → ℕ) → ℕ → ℕ → Type 0
IsSigned memory rsdp_sig a = memcmp memory a rsdp_sig 8 ≡ 0

-- None of the first `count` places from `i` on carries it.
abbrev pub NoneSigned : (ℕ → ℕ) → ℕ → ℕ → ℕ → Type 0
NoneSigned memory rsdp_sig i count =
    (j : ℕ) → j < count → IsSigned memory rsdp_sig (i + 0x10 * j) → ⊥

-- The result is the first of `count` places from `i` on, or says that there is none.
pub data IsFirst (memory : ℕ → ℕ) (rsdp_sig i count : ℕ) : Option ℕ → Type 0 where
  found :
      (k : ℕ)
      → k < count
      → IsSigned memory rsdp_sig (i + 0x10 * k)
      → NoneSigned memory rsdp_sig i k
      → IsFirst memory rsdp_sig i count (some (i + 0x10 * k))
  nowhere : NoneSigned memory rsdp_sig i count → IsFirst memory rsdp_sig i count none

NoneSigned-suc :
    (memory : ℕ → ℕ) (rsdp_sig i count : ℕ)
    → (IsSigned memory rsdp_sig i → ⊥)
    → NoneSigned memory rsdp_sig (i + 0x10) count
    → NoneSigned memory rsdp_sig i (suc count)
NoneSigned-suc memory rsdp_sig i count h rest zero lt s =
    let z : i + 0x10 * 0 ≡ i = omega arith in h (subst (IsSigned memory rsdp_sig) z s)
NoneSigned-suc memory rsdp_sig i count h rest (suc j) lt s =
    let z : i + 0x10 * suc j ≡ i + 0x10 + 0x10 * j = omega arith in
    rest j (omega arith) (subst (IsSigned memory rsdp_sig) z s)

IsFirst-later :
    (memory : ℕ → ℕ) (rsdp_sig i count : ℕ) (r : Option ℕ)
    → (IsSigned memory rsdp_sig i → ⊥)
    → IsFirst memory rsdp_sig (i + 0x10) count r
    → IsFirst memory rsdp_sig i (suc count) r
IsFirst-later memory rsdp_sig i count r h (found k lt s before) =
    let z : i + 0x10 * suc k ≡ i + 0x10 + 0x10 * k = omega arith in
    subst (λ a. IsFirst memory rsdp_sig i (suc count) (some a)) z
      (found (suc k) (omega arith) (rw z s) (NoneSigned-suc memory rsdp_sig i k h before))
IsFirst-later memory rsdp_sig i count r h (nowhere before) =
    nowhere (NoneSigned-suc memory rsdp_sig i count h before)

-- A search over `left` places from `i` on finds the first one with the signature, or none when
-- none has it.
pub find_from-IsFirst :
    (memory : ℕ → ℕ) (rsdp_sig left i : ℕ)
    → IsFirst memory rsdp_sig i left (find_from memory rsdp_sig left i)
unfolding find_from
find_from-IsFirst memory rsdp_sig zero i = nowhere (λ j lt. absurd (omega arith))
find_from-IsFirst memory rsdp_sig (suc left) i =
    elim (Bool-cases (memcmp memory i rsdp_sig 8 == 0)) [
      | inl t ↦
          let e : memcmp memory i rsdp_sig 8 ≡ 0 = grind arith in
          let z : i + 0x10 * 0 ≡ i = omega arith in
          rw t (
            subst (λ a. IsFirst memory rsdp_sig i (suc left) (some a)) z
              (found 0 (omega arith) (rw z e) (λ j lt. absurd (omega arith))))
      | inr f ↦ rw f (
          IsFirst-later memory rsdp_sig i left (find_from memory rsdp_sig left (i + 0x10))
            (λ e. absurd (grind arith)) (find_from-IsFirst memory rsdp_sig left (i + 0x10)))
    ]

-- The result of the whole search: the first place of the EBDA, or, where it has none, the first of
-- the BIOS area.
pub data IsRsdp (memory : ℕ → ℕ) (rsdp_sig : ℕ) : Option ℕ → Type 0 where
  in_ebda :
      (a : ℕ)
      → IsFirst memory rsdp_sig ebda_start area_steps (some a)
      → IsRsdp memory rsdp_sig (some a)
  in_bios :
      (r : Option ℕ)
      → IsFirst memory rsdp_sig ebda_start area_steps none
      → IsFirst memory rsdp_sig bios_start area_steps r
      → IsRsdp memory rsdp_sig r

-- `find_rsdp` gives the first multiple of 16 with the signature in the EBDA, or, when none there has
-- it, the first in the BIOS area, or nothing when neither has one.
pub find_rsdp-IsRsdp :
    (memory : ℕ → ℕ) (rsdp_sig : ℕ) → IsRsdp memory rsdp_sig (find_rsdp memory rsdp_sig)
unfolding find_rsdp
find_rsdp-IsRsdp memory rsdp_sig =
    let e = find_from-IsFirst memory rsdp_sig area_steps ebda_start in
    let b = find_from-IsFirst memory rsdp_sig area_steps bios_start in
    elim (Option-cases (find_from memory rsdp_sig area_steps ebda_start)) [
      | inl n ↦
          rw (find_rsdp, n)
            (in_bios (find_from memory rsdp_sig area_steps bios_start) (rw n at e) b)
      | inr (a, h) ↦ rw (find_rsdp, h) (in_ebda a (rw h at e))
    ]
