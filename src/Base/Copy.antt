-- ===== src/Base/Copy.antt =====
-- `memcpy` between arrays, and what it leaves at each index.
use Prim.Native.Nat.{ℕ, zero, suc, ◌+◌, ◌≤◌, ◌<◌}
use mathlib.Core.Path.{◌≡◌, refl, ◌∙◌}
use mathlib.Core.Logic.{◌⊎◌}
use mathlib.Core.Bool.{◌&&◌}
use mathlib.Core.List.{List, [], ◌∷◌}
use native.Mathlib.Omega.{arith}
use boot.Base.Tests.{leb, if◌then◌else◌}
use boot.Base.Lists.{length, get_or, set, take, drop, length-set, get_or-set_self, get_or-set_ne}
use boot.Base.Faults.{Outcome, ok, fault}

module _ {ℓ} {A : Type ℓ} where
  -- The items written one after another from index `at` on.
  abbrev pub write_all : List A → ℕ → List A → List A
  write_all dst at [] = dst
  write_all dst at (b ∷ bs) = write_all (set dst at b) (at + 1) bs

  -- `memcpy(dst + at, src + from, count)`
  abbrev pub memcpy : List A → ℕ → List A → ℕ → ℕ → Outcome (List A)
  memcpy dst at src from count =
      if leb (at + count) (length dst) && leb (from + count) (length src)
      then ok (write_all dst at (take count (drop from src)))
      else fault

  pub length-write_all :
      (dst : List A) (at : ℕ) (bs : List A) → length (write_all dst at bs) ≡ length dst
  length-write_all dst at [] = refl
  length-write_all dst at (b ∷ bs) =
      length-write_all (set dst at b) (at + 1) bs ∙ length-set dst at b

  pub write_all_outside :
      (dst : List A) (at : ℕ) (bs : List A) (j : ℕ) (d : A)
      → (j < at) ⊎ (at + length bs ≤ j)
      → get_or (write_all dst at bs) j d ≡ get_or dst j d
  write_all_outside dst at [] j d h = refl
  write_all_outside dst at (b ∷ bs) j d h =
      write_all_outside (set dst at b) (at + 1) bs j d (omega arith)
      ∙ get_or-set_ne dst at j b d (omega arith)

  pub write_all_inside :
      (dst : List A) (at : ℕ) (bs : List A) (k : ℕ) (d : A)
      → k < length bs
      → at + length bs ≤ length dst
      → get_or (write_all dst at bs) (at + k) d ≡ get_or bs k d
  write_all_inside dst at [] k d h fits = elim h [ ]
  write_all_inside dst at (b ∷ bs) zero d h fits =
      let e : at + 0 ≡ at = omega arith in
      rw e (
        write_all_outside (set dst at b) (at + 1) bs at d (omega arith)
        ∙ get_or-set_self dst at b d (omega arith))
  write_all_inside dst at (b ∷ bs) (suc k) d h fits =
      let e : at + suc k ≡ at + 1 + k = omega arith in
      rw e (
        write_all_inside (set dst at b) (at + 1) bs k d (omega arith)
          (omega (arith, length-set {ℓ} dst at b)))
