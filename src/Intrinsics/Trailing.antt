-- ===== src/Intrinsics/Trailing.antt =====
-- The number of zeros below the lowest bit that is set.
use boot.Base.{
  ℕ, zero, suc, ◌-◌, ◌/◌, ◌%◌, ◌^◌, ◌<◌, ◌≡◌, refl, ◌∙◌, arith, true, none, bit_and, ◌==◌, ==_iff,
  passes_under, passes_under-each, sub32, and_half, div_double, mod_double,
}
use native.Mathlib.Nat.{pow-suc}
use native.Mathlib.Decide.{ℕ_discrete}
use boot.Intrinsics.{ctz, bit_index}
use boot.Base.{false, ap}

-- A number and its complement in `j` bits have no bit in common.
complement : (j a : ℕ) → a < 2 ^ j → bit_and a (2 ^ j - 1 - a) ≡ 0
complement zero a h = let z : a ≡ 0 = omega arith in rw z refl
complement (suc j) a h =
    let p = pow-suc 2 j in
    let half : (2 ^ suc j - 1 - a) / 2 ≡ 2 ^ j - 1 - a / 2 = omega arith in
    ground (arith, and_half a (2 ^ suc j - 1 - a), half, complement j (a / 2) (omega arith), p)

-- Bit `k` is set, and no bit below it.
pub record IsLowest (x k : ℕ) : Type 0 where
  pub set : x / 2 ^ k % 2 ≡ 1
  pub clear : x % 2 ^ k ≡ 0

-- `x & -x`
isolated :
    (j x : ℕ)
    → 0 < x
    → x < 2 ^ j
    → (k : ℕ) × (k < j) × (bit_and x (2 ^ j - x) ≡ 2 ^ k) × IsLowest x k
isolated zero x pos h = absurd (omega arith)
isolated (suc j) x pos h =
    let p = pow-suc 2 j in
    elim (ℕ_discrete (x % 2) 0) [
      | no odd ↦
          let half : (2 ^ suc j - x) / 2 ≡ 2 ^ j - 1 - x / 2 = omega arith in
          let low : (2 ^ suc j - x) % 2 ≡ 1 = omega arith in
          let one : x % 2 ≡ 1 = omega arith in
          (
            0,
            omega arith,
            and_half x (2 ^ suc j - x)
                ∙ rw (half, low, one, complement j (x / 2) (omega arith)) refl,
            record { set = omega arith; clear = omega arith },
          )
      | yes even ↦
          let half : (2 ^ suc j - x) / 2 ≡ 2 ^ j - x / 2 = omega arith in
          let low : (2 ^ suc j - x) % 2 ≡ 0 = omega arith in
          let (k, lt, e, w) = isolated j (x / 2) (omega arith) (omega arith) in
          (
            suc k,
            omega arith,
            omega (arith, and_half x (2 ^ suc j - x), ap (bit_and (x / 2)) half, e, pow-suc 2 k),
            record {
              set = rw (div_double k x) w.set;
              clear = rw (mod_double k x, w.clear, even) refl;
            },
          )
    ]

index_table : passes_under (λ k. bit_index (2 ^ k) == k) 32 ≡ true
unfolding passes_under bit_index
index_table = refl

bit_index-pow : (k : ℕ) → k < 32 → bit_index (2 ^ k) ≡ k
bit_index-pow k h =
    (==_iff _ k).0 (passes_under-each (λ k. bit_index (2 ^ k) == k) 32 k index_table h)

-- The header's own `ctz` of a 32-bit word that is not 0 is the index of its lowest bit that is set.
pub ctz-IsLowest : (x : ℕ) → 0 < x → x < 2 ^ 32 → (ctz none x < 32) × IsLowest x (ctz none x)
unfolding ctz
ctz-IsLowest x pos h =
    let (k, lt, e, w) = isolated 32 x pos h in
    let nz : (x == 0) ≡ false = ground arith in
    let neg : sub32 0 x ≡ 2 ^ 32 - x = omega arith in
    let eq : ctz none x ≡ k = rw (nz, neg, e) (bit_index-pow k lt) in rw eq (lt, w)
