-- ===== src/Intrinsics/Counting.antt =====
-- What the other functions return.
use boot.Base.{
  u32, bit_or, bit_and_shifted, bit_and_low, or_zero, ℕ, zero, suc, ◌+◌, ◌-◌, ◌*◌, ◌/◌, ◌%◌, ◌^◌,
  ◌≤◌, ◌<◌, ◌≡◌, ◌≢◌, refl, arith, none, some, bit_and, ◌==◌, and_half, Bool-cases, inl, inr,
}
use Prim.Native.Nat.{bit_and-bitwise}
use boot.Intrinsics.{bswap32, clear_rounds, popcount, bswap16}
use boot.Base.{or_below}

bit_and_le : (n x y : ℕ) → x ≤ n → bit_and x y ≤ y
bit_and_le n zero y h = omega (arith, bit_and-bitwise 0 y)
bit_and_le zero (suc x) y h = elim h [ ]
bit_and_le (suc n) (suc x) y h =
    omega (arith, and_half (suc x) y, bit_and_le n (suc x / 2) (y / 2) (omega arith))

clear_rounds-empties : (fuel c x : ℕ) → x < fuel → (c' : ℕ) × (clear_rounds fuel c x ≡ some (c', 0))
unfolding clear_rounds
clear_rounds-empties zero c x h = elim h [ ]
clear_rounds-empties (suc fuel) c x h = elim (Bool-cases (x == 0)) [
  | inl e ↦ let z : x ≡ 0 = ground arith in (c, rw z refl)
  | inr e ↦
      let ne : x ≢ 0 = ground arith in
      let less = bit_and_le x x (x - 1) (omega arith) in
      let (c', r) = clear_rounds-empties fuel (c + 1) (bit_and x (x - 1)) (omega arith) in
      (c', rw e r)
]

-- Without builtins, `popcount` returns, and returns 0 for every word: what is left when all bits are
-- cleared, and not their count.
pub popcount-zero : (x : ℕ) → popcount none x ≡ some 0
unfolding popcount
popcount-zero x =
    let (c, e) = clear_rounds-empties (x + 1) 0 x (omega arith) in rw (popcount, e) refl

-- Without builtins, `bswap32` returns 0 for every argument: it takes and gives 16-bit numbers, and
-- the bytes of the argument go to the upper half.
pub bswap32-zero : (x : ℕ) → x < 2 ^ 16 → bswap32 none x ≡ 0
unfolding bswap32
bswap32-zero x h =
    let a = x % 2 ^ 8 in
    let y = x / 2 ^ 8 in
    let e1 : u32 (x * 2 ^ 24) ≡ a * 2 ^ 24 = omega arith in
    let z : x / 2 ^ 16 ≡ 0 = omega arith in
    let e2 : bit_and x 0x00FF_0000 / 2 ^ 8 ≡ 0 = rw (bit_and_shifted 16 x 0xFF, z) refl in
    let e3 : bit_and x 0xFF00 * 2 ^ 8 ≡ y * 2 ^ 16 =
      omega (arith, bit_and_shifted 8 x 0xFF, bit_and_low 8 y) in
    let e4 : x / 2 ^ 24 ≡ 0 = omega arith in
    let e5 : bit_or (a * 2 ^ 24) (y * 2 ^ 16) ≡ a * 2 ^ 24 + y * 2 ^ 16 =
      or_below 24 a (y * 2 ^ 16) (omega arith) in
    rw (e1, e2, e3, e4, or_zero (a * 2 ^ 24), e5, or_zero (a * 2 ^ 24 + y * 2 ^ 16)) (omega arith)

-- Without builtins, `bswap16` swaps the two bytes of a 16-bit number.
pub bswap16-swaps : (x : ℕ) → x < 2 ^ 16 → bswap16 none x ≡ x % 2 ^ 8 * 2 ^ 8 + x / 2 ^ 8
unfolding bswap16
bswap16-swaps x h = rw (or_below 8 x (x / 2 ^ 8) (omega arith)) (omega arith)
