-- ===== src/Base/Bits.antt =====
-- Masks and disjoint fields under `&` and `|`, as arithmetic.
use Prim.Native.Nat.{ℕ, zero, suc, ◌+◌, ◌-◌, ◌*◌, ◌/◌, ◌%◌, ◌^◌, ◌≤◌, ◌<◌, min, max}
use Prim.Native.Nat.{bit_and, bit_or, digits, bit_and-bitwise, bit_or-bitwise}
use mathlib.Core.Path.{◌≡◌, refl, ap, ◌∙◌}
use native.Mathlib.Nat.{
  pow-suc, one-le-pow, le_refl, mul-one, div-one, div-div-eq-div-mul, div-add-mod',
}
use native.Mathlib.Omega.{arith}

-- Any fuel that reaches the number gives the same digits.
module _ (rest : ℕ → ℕ) (op : ℕ → ℕ → ℕ) where
  pub digits_stable : (f g x y : ℕ) → x ≤ f → x ≤ g → digits rest op f x y ≡ digits rest op g x y
  digits_stable zero zero x y hf hg = refl
  digits_stable zero (suc g) zero y hf hg = refl
  digits_stable zero (suc g) (suc x) y hf hg = elim hf [ ]
  digits_stable (suc f) zero zero y hf hg = refl
  digits_stable (suc f) zero (suc x) y hf hg = elim hg [ ]
  digits_stable (suc f) (suc g) zero y hf hg = refl
  digits_stable (suc f) (suc g) (suc x) y hf hg =
      ap (λ (t : ℕ). t * 2 + op (suc x % 2) (y % 2))
        (digits_stable f g (suc x / 2) (y / 2) (omega arith) (omega arith))

pub and_half : (x y : ℕ) → bit_and x y ≡ 2 * bit_and (x / 2) (y / 2) + min (x % 2) (y % 2)
and_half zero y = omega (arith, bit_and-bitwise 0 y, bit_and-bitwise 0 (y / 2))
and_half (suc x) y = omega (
  arith,
  bit_and-bitwise (suc x) y,
  bit_and-bitwise (suc x / 2) (y / 2),
  digits_stable (λ _. 0) min x (suc x / 2) (suc x / 2) (y / 2) (omega arith) (le_refl _),
)

pub or_half : (x y : ℕ) → bit_or x y ≡ 2 * bit_or (x / 2) (y / 2) + max (x % 2) (y % 2)
or_half zero y = omega (arith, bit_or-bitwise 0 y, bit_or-bitwise 0 (y / 2))
or_half (suc x) y = omega (
  arith,
  bit_or-bitwise (suc x) y,
  bit_or-bitwise (suc x / 2) (y / 2),
  digits_stable (λ t. t) max x (suc x / 2) (suc x / 2) (y / 2) (omega arith) (le_refl _),
)

-- Any two fuels: a number below `n` has its laws by recursion on `n`.
and_zero_below : (n x : ℕ) → x ≤ n → bit_and x 0 ≡ 0
and_zero_below n zero h = omega (arith, bit_and-bitwise 0 0)
and_zero_below zero (suc x) h = elim h [ ]
and_zero_below (suc n) (suc x) h =
    omega (arith, and_half (suc x) 0, and_zero_below n (suc x / 2) (omega arith))

or_zero_below : (n x : ℕ) → x ≤ n → bit_or x 0 ≡ x
or_zero_below n zero h = omega (arith, bit_or-bitwise 0 0)
or_zero_below zero (suc x) h = elim h [ ]
or_zero_below (suc n) (suc x) h =
    omega (arith, or_half (suc x) 0, or_zero_below n (suc x / 2) (omega arith))

pub and_zero : (x : ℕ) → bit_and x 0 ≡ 0
and_zero x = and_zero_below x x (le_refl x)

pub or_zero : (x : ℕ) → bit_or x 0 ≡ x
or_zero x = or_zero_below x x (le_refl x)

pub pow_double : (k m : ℕ) → m * 2 ^ suc k ≡ 2 * (m * 2 ^ k)
pow_double k m = omega (arith, ap (λ (t : ℕ). m * t) (pow-suc 2 k))

pub div_double : (k x : ℕ) → x / 2 ^ suc k ≡ x / 2 / 2 ^ k
div_double k x =
    rw (div-div-eq-div-mul x 2 (2 ^ k)) (ap (λ (t : ℕ). x / t) (omega (arith, pow-suc 2 k)))

pub mod_double : (k x : ℕ) → x % 2 ^ suc k ≡ 2 * (x / 2 % 2 ^ k) + x % 2
mod_double k x = omega (
  arith,
  div-add-mod' x (2 ^ suc k),
  div-add-mod' (x / 2) (2 ^ k),
  pow_double k (x / 2 ^ suc k),
  ap (λ (t : ℕ). t * 2 ^ k) (div_double k x),
)

-- A mask whose low `k` bits are clear looks at the number without its low `k` bits.
pub bit_and_shifted : (k x m : ℕ) → bit_and x (m * 2 ^ k) ≡ bit_and (x / 2 ^ k) m * 2 ^ k
bit_and_shifted zero x m = simp (mul-one, div-one)
bit_and_shifted (suc k) x m = ground (
  arith,
  pow_double k m,
  div_double k x,
  pow_double k (bit_and (x / 2 ^ suc k) m),
  and_half x (m * 2 ^ suc k),
  bit_and_shifted k (x / 2) m,
)

-- The mask of `k` ones is the remainder by `2 ^ k`.
pub bit_and_low : (k x : ℕ) → bit_and x (2 ^ k - 1) ≡ x % 2 ^ k
bit_and_low zero x = omega (arith, and_zero x)
bit_and_low (suc k) x = ground (
  arith,
  and_half x (2 ^ suc k - 1),
  pow-suc 2 k,
  one-le-pow k 2 (omega arith),
  bit_and_low k (x / 2),
  mod_double k x,
)

-- `|` of a multiple of `2 ^ k` and two numbers below it.
pub bit_or_fields :
    (k q s r : ℕ) → s < 2 ^ k → r < 2 ^ k → bit_or (q * 2 ^ k + s) r ≡ q * 2 ^ k + bit_or s r
bit_or_fields zero q s r hs hr =
    let hs' : s ≡ 0 = omega arith in
    let hr' : r ≡ 0 = omega arith in
    rw (hs', hr') (omega (arith, or_zero (q * 2 ^ 0 + 0), or_zero 0))
bit_or_fields (suc k) q s r hs hr = ground (
  arith,
  or_half (q * 2 ^ suc k + s) r,
  or_half s r,
  pow_double k q,
  pow-suc 2 k,
  bit_or_fields k q (s / 2) (r / 2) (omega (arith, pow-suc 2 k)) (omega (arith, pow-suc 2 k)),
)

-- One bit.
pub bit_and_one : (x : ℕ) → bit_and x 1 ≡ x % 2
bit_and_one x = bit_and_low 1 x

pub bit_or_one : (x : ℕ) → bit_or x 1 ≡ x / 2 * 2 + 1
bit_or_one x = omega (arith, or_half x 1, or_zero (x / 2))

pub zero_or : (y : ℕ) → bit_or 0 y ≡ y
zero_or y = bit_or-bitwise 0 y

pub or_shifted : (k q r : ℕ) → r < 2 ^ k → bit_or r (q * 2 ^ k) ≡ q * 2 ^ k + r
or_shifted zero q r h = let z : r ≡ 0 = omega arith in rw z (omega (arith, zero_or (q * 2 ^ 0)))
or_shifted (suc k) q r h =
    let e : q * 2 ^ suc k ≡ 2 * (q * 2 ^ k) = pow_double k q in
    let d : 2 * (q * 2 ^ k) / 2 ≡ q * 2 ^ k = omega arith in
    let half : r / 2 < 2 ^ k = omega (arith, pow-suc 2 k) in
    let a = or_half r (2 * (q * 2 ^ k)) in
    rw e (a ∙ rw (d, or_shifted k q (r / 2) half) (omega arith))

-- The page number and the offset of a 32-bit word.
pub page_mask : (x : ℕ) → x < 2 ^ 32 → bit_and x 0xFFFF_F000 ≡ x / 2 ^ 12 * 2 ^ 12
page_mask x h = omega (arith, bit_and_shifted 12 x 0xF_FFFF, bit_and_low 20 (x / 2 ^ 12))

pub offset_mask : (x : ℕ) → bit_and x 0xFFF ≡ x % 2 ^ 12
offset_mask x = bit_and_low 12 x

pub clear_low_bit : (x : ℕ) → x < 2 ^ 32 → bit_and x 0xFFFF_FFFE ≡ x / 2 * 2
clear_low_bit x h = omega (arith, bit_and_shifted 1 x 0x7FFF_FFFF, bit_and_low 31 (x / 2))

-- The bit `k` of `&`.
pub bit_and_bit : (k x y : ℕ) → bit_and x y / 2 ^ k % 2 ≡ min (x / 2 ^ k % 2) (y / 2 ^ k % 2)
bit_and_bit zero x y = ground (arith, and_half x y)
bit_and_bit (suc k) x y =
    let half : bit_and x y / 2 ≡ bit_and (x / 2) (y / 2) = ground (arith, and_half x y) in
    rw (div_double k (bit_and x y), div_double k x, div_double k y)
      (rw half (bit_and_bit k (x / 2) (y / 2)))

-- `|` of a multiple of `2 ^ k` and a number below it.
pub or_below : (k q r : ℕ) → r < 2 ^ k → bit_or (q * 2 ^ k) r ≡ q * 2 ^ k + r
or_below k q r h =
    let z : q * 2 ^ k ≡ q * 2 ^ k + 0 = omega arith in
    ap (λ t. bit_or t r) z
    ∙ (bit_or_fields k q 0 r (omega arith) h ∙ ap (λ t. q * 2 ^ k + t) (zero_or r))
