-- ===== src/Intrinsics/Parity.antt =====
-- The multiplication in `parity` adds up the parities of the eight groups of four bits.
use boot.Base.{
  ℕ, zero, suc, ◌+◌, ◌*◌, ◌/◌, ◌%◌, ◌^◌, ◌<◌, ◌≡◌, refl, sym, ◌∙◌, ap, arith, none, bit_and,
  bit_xor, div_double, mul32, bit_and_one,
}
use Prim.Native.Nat.{bit_xor-bitwise, differ}
use native.Mathlib.Nat.{le_refl, div-div-eq-div-mul, mul_comm, div-one}
use boot.Base.{bit_and_shifted, and_half, digits_stable}
use boot.Intrinsics.{parity, fold_xor}

differ_digits : (a b : ℕ) → a < 2 → b < 2 → differ a b ≡ (a + b) % 2
differ_digits zero zero h k = refl
differ_digits zero (suc zero) h k = refl
differ_digits (suc zero) zero h k = refl
differ_digits (suc zero) (suc zero) h k = refl
differ_digits (suc (suc a)) b h k = absurd (omega arith)
differ_digits zero (suc (suc b)) h k = absurd (omega arith)
differ_digits (suc zero) (suc (suc b)) h k = absurd (omega arith)

xor_half : (x y : ℕ) → bit_xor x y ≡ 2 * bit_xor (x / 2) (y / 2) + (x + y) % 2
xor_half zero y = omega (arith, bit_xor-bitwise 0 y, bit_xor-bitwise 0 (y / 2))
xor_half (suc x) y = omega (
  arith,
  bit_xor-bitwise (suc x) y,
  bit_xor-bitwise (suc x / 2) (y / 2),
  digits_stable (λ t. t) differ x (suc x / 2) (suc x / 2) (y / 2) (omega arith) (le_refl _),
  differ_digits (suc x % 2) (y % 2) (omega arith) (omega arith),
)

xor_shift : (x y : ℕ) → bit_xor x y / 2 ≡ bit_xor (x / 2) (y / 2)
xor_shift x y = omega (arith, xor_half x y)

xor_bit : (k x y : ℕ) → bit_xor x y / 2 ^ k % 2 ≡ (x / 2 ^ k + y / 2 ^ k) % 2
xor_bit zero x y = omega (arith, xor_half x y)
xor_bit (suc k) x y =
    rw (div_double k (bit_xor x y), div_double k x, div_double k y)
      (rw (xor_shift x y) (xor_bit k (x / 2) (y / 2)))

-- How many of the lowest `n` bits are set.
unfoldable pub bits : ℕ → ℕ → ℕ
bits zero x = 0
bits (suc n) x = x % 2 + bits n (x / 2)

-- A bit of the folded word is the parity of four bits.
folded_bit :
    (k x : ℕ)
    → fold_xor 2 (fold_xor 1 x) / 2 ^ k % 2
      ≡ (x / 2 ^ k + x / 2 / 2 ^ k + x / 4 / 2 ^ k + x / 8 / 2 ^ k) % 2
folded_bit k x =
    let y = fold_xor 1 x in
    let a = xor_bit k y (y / 2 ^ 2) in
    let b = xor_bit k x (x / 2) in
    let q : y / 2 ^ 2 ≡ bit_xor (x / 4) (x / 8) =
      let two : y / 2 ^ 2 ≡ y / 2 / 2 = omega arith in
      let e : x / 2 / 2 ≡ x / 4 = omega arith in
      let e' : x / 2 / 2 / 2 ≡ x / 8 = omega arith in
      two
      ∙ (ap (λ t. t / 2) (xor_shift x (x / 2))
          ∙ (xor_shift (x / 2) (x / 2 / 2) ∙ rw (e', e) refl)) in
    let c : y / 2 ^ 2 / 2 ^ k % 2 ≡ (x / 4 / 2 ^ k + x / 8 / 2 ^ k) % 2 =
      ap (λ t. t / 2 ^ k % 2) q ∙ xor_bit k (x / 4) (x / 8) in
    omega (arith, a, b, c)

mask_step : (z m : ℕ) → bit_and z (16 * m + 1) ≡ 16 * bit_and (z / 16) m + z % 2
mask_step z m =
    let half : (16 * m + 1) / 2 ≡ m * 2 ^ 3 = omega arith in
    let e : z / 2 / 2 ^ 3 ≡ z / 16 = omega arith in
    let rest = bit_and_shifted 3 (z / 2) m in
    omega (arith, and_half z (16 * m + 1), ap (bit_and (z / 2)) half, rest, ap (λ t. bit_and t m) e)

spread :
    (b0 b1 b2 b3 b4 b5 b6 b7 : ℕ)
    → b0 < 2
    → b1 < 2
    → b2 < 2
    → b3 < 2
    → b4 < 2
    → b5 < 2
    → b6 < 2
    → b7 < 2
    → mul32
          (b0 + 16 * (b1 + 16 * (b2 + 16 * (b3 + 16 * (b4 + 16 * (b5 + 16 * (b6 + 16 * b7)))))))
          0x1111_1111
        / 2 ^ 28
      ≡ b0 + b1 + b2 + b3 + b4 + b5 + b6 + b7
spread b0 b1 b2 b3 b4 b5 b6 b7 h0 h1 h2 h3 h4 h5 h6 h7 = omega arith

-- The mask keeps the lowest bit of each group of four.
masked :
    (z : ℕ)
    → bit_and z 0x1111_1111
      ≡ z % 2
        + 16
          * (z / 16 % 2
              + 16
                * (z / 2 ^ 8 % 2
                    + 16
                      * (z / 2 ^ 12 % 2
                          + 16
                            * (z / 2 ^ 16 % 2
                                + 16
                                  * (z / 2 ^ 20 % 2
                                      + 16 * (z / 2 ^ 24 % 2 + 16 * (z / 2 ^ 28 % 2)))))))
masked z =
    let e2 : z / 16 / 16 ≡ z / 2 ^ 8 = omega arith in
    let e3 : z / 2 ^ 8 / 16 ≡ z / 2 ^ 12 = omega arith in
    let e4 : z / 2 ^ 12 / 16 ≡ z / 2 ^ 16 = omega arith in
    let e5 : z / 2 ^ 16 / 16 ≡ z / 2 ^ 20 = omega arith in
    let e6 : z / 2 ^ 20 / 16 ≡ z / 2 ^ 24 = omega arith in
    let e7 : z / 2 ^ 24 / 16 ≡ z / 2 ^ 28 = omega arith in
    mask_step z 0x111_1111
    ∙ rw (mask_step (z / 16) 0x11_1111, e2, mask_step (z / 2 ^ 8) 0x1_1111, e3)
        (rw (mask_step (z / 2 ^ 12) 0x1111, e4, mask_step (z / 2 ^ 16) 0x111, e5)
          (rw
            (
              mask_step (z / 2 ^ 20) 0x11,
              e6,
              mask_step (z / 2 ^ 24) 1,
              e7,
              bit_and_one (z / 2 ^ 28),
            )
            (omega arith)))

-- How many of the lowest four bits are set.
group : ℕ → ℕ
group x = x % 2 + x / 2 % 2 + x / 4 % 2 + x / 8 % 2

bits_split : (n x : ℕ) → bits (suc (suc (suc (suc n)))) x ≡ group x + bits n (x / 16)
unfolding bits group
bits_split n x = let e : x / 2 / 2 / 2 / 2 ≡ x / 16 = omega arith in rw e (omega arith)

bits_zero : (x : ℕ) → bits 0 x ≡ 0
unfolding bits
bits_zero x = refl

bits_grouped :
    (x : ℕ)
    → bits 32 x
      ≡ group x
        + group (x / 16)
        + group (x / 2 ^ 8)
        + group (x / 2 ^ 12)
        + group (x / 2 ^ 16)
        + group (x / 2 ^ 20)
        + group (x / 2 ^ 24)
        + group (x / 2 ^ 28)
bits_grouped x =
    let e2 : x / 16 / 16 ≡ x / 2 ^ 8 = omega arith in
    let e3 : x / 2 ^ 8 / 16 ≡ x / 2 ^ 12 = omega arith in
    let e4 : x / 2 ^ 12 / 16 ≡ x / 2 ^ 16 = omega arith in
    let e5 : x / 2 ^ 16 / 16 ≡ x / 2 ^ 20 = omega arith in
    let e6 : x / 2 ^ 20 / 16 ≡ x / 2 ^ 24 = omega arith in
    let e7 : x / 2 ^ 24 / 16 ≡ x / 2 ^ 28 = omega arith in
    bits_split 28 x
    ∙ rw (bits_split 24 (x / 16), e2, bits_split 20 (x / 2 ^ 8), e3)
        (rw (bits_split 16 (x / 2 ^ 12), e4, bits_split 12 (x / 2 ^ 16), e5)
          (rw (bits_split 8 (x / 2 ^ 20), e6, bits_split 4 (x / 2 ^ 24), e7)
            (rw (bits_split 0 (x / 2 ^ 28), bits_zero (x / 2 ^ 28 / 16)) (omega arith))))

-- A bit of the folded word is the parity of a group.
div_swap : (a b x : ℕ) → x / a / b ≡ x / b / a
div_swap a b x =
    div-div-eq-div-mul x a b ∙ (ap (λ t. x / t) (mul_comm a b) ∙ sym (div-div-eq-div-mul x b a))

folded_group : (k x : ℕ) → fold_xor 2 (fold_xor 1 x) / 2 ^ k % 2 ≡ group (x / 2 ^ k) % 2
unfolding group
folded_group k x =
    rw (folded_bit k x, div_swap 2 (2 ^ k) x, div_swap 4 (2 ^ k) x, div_swap 8 (2 ^ k) x)
      (omega arith)

lowest : (x : ℕ) → fold_xor 2 (fold_xor 1 x) % 2 ≡ group x % 2
lowest x =
    let e : x / 2 ^ 0 ≡ x = omega arith in
    ap (λ t. t % 2) (sym (div-one (fold_xor 2 (fold_xor 1 x))))
    ∙ (folded_group 0 x ∙ ap (λ t. group t % 2) e)

add_up :
    (b0 b1 b2 b3 b4 b5 b6 b7 g0 g1 g2 g3 g4 g5 g6 g7 : ℕ)
    → b0 ≡ g0 % 2
    → b1 ≡ g1 % 2
    → b2 ≡ g2 % 2
    → b3 ≡ g3 % 2
    → b4 ≡ g4 % 2
    → b5 ≡ g5 % 2
    → b6 ≡ g6 % 2
    → b7 ≡ g7 % 2
    → (b0 + b1 + b2 + b3 + b4 + b5 + b6 + b7) % 2 ≡ (g0 + g1 + g2 + g3 + g4 + g5 + g6 + g7) % 2
add_up b0 b1 b2 b3 b4 b5 b6 b7 g0 g1 g2 g3 g4 g5 g6 g7 e0 e1 e2 e3 e4 e5 e6 e7 = omega arith

-- Without builtins, `parity` of a 32-bit word is the parity of the number of its bits that are set.
pub parity-bits : (x : ℕ) → parity none x ≡ bits 32 x % 2
unfolding parity
parity-bits x =
    let z = fold_xor 2 (fold_xor 1 x) in
    let b0 = z % 2 in
    let b1 = z / 16 % 2 in
    let b2 = z / 2 ^ 8 % 2 in
    let b3 = z / 2 ^ 12 % 2 in
    let b4 = z / 2 ^ 16 % 2 in
    let b5 = z / 2 ^ 20 % 2 in
    let b6 = z / 2 ^ 24 % 2 in
    let b7 = z / 2 ^ 28 % 2 in
    let sum =
      spread b0 b1 b2 b3 b4 b5 b6 b7 (omega arith) (omega arith) (omega arith) (omega arith)
        (omega arith) (omega arith) (omega arith) (omega arith) in
    rw (masked z, sum, bit_and_one (b0 + b1 + b2 + b3 + b4 + b5 + b6 + b7), bits_grouped x)
      (add_up b0 b1 b2 b3 b4 b5 b6 b7 (group x) (group (x / 16)) (group (x / 2 ^ 8))
        (group (x / 2 ^ 12)) (group (x / 2 ^ 16)) (group (x / 2 ^ 20)) (group (x / 2 ^ 24))
        (group (x / 2 ^ 28)) (lowest x) (folded_group 4 x) (folded_group 8 x) (folded_group 12 x)
        (folded_group 16 x) (folded_group 20 x) (folded_group 24 x) (folded_group 28 x))
