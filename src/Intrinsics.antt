-- ===== src/Intrinsics.antt =====
-- stage3/include/x86/intrinsics.h: the functions on the bits of a word. Where the compiler has
-- builtins (`__GNUC__`) they are the code, and a parameter; `none` stands for the code that the
-- header itself has for other compilers. For `clz` the header has none that compiles.
pub mod Trailing
pub mod Parity
pub mod Counting
mod Tests
use boot.Base.{
  ℕ, zero, suc, ◌+◌, ◌-◌, ◌*◌, ◌/◌, ◌%◌, ◌^◌, Option, none, some, bit_and, bit_or, bit_xor, ◌==◌,
  if◌then◌else◌, u16, u32, mul32, sub32,
}

pub record Builtins : Type 0 where
  pub bswap16 : ℕ → ℕ
  pub bswap32 : ℕ → ℕ
  pub popcount : ℕ → ℕ
  pub parity : ℕ → ℕ
  pub clz : ℕ → ℕ
  pub ctz : ℕ → ℕ

-- The argument is a 16-bit number.
unfoldable pub bswap16 : Option Builtins → ℕ → ℕ
bswap16 (some b) x = u16 (b.bswap16 x)
bswap16 none x = u16 (bit_or (x * 2 ^ 8) (x / 2 ^ 8))

-- Argument and result are 16-bit numbers here too.
unfoldable pub bswap32 : Option Builtins → ℕ → ℕ
bswap32 (some b) x = u16 (b.bswap32 x)
bswap32 none x = u16 (
    bit_or
      (bit_or (bit_or (u32 (x * 2 ^ 24)) (bit_and x 0x00FF_0000 / 2 ^ 8))
        (bit_and x 0xFF00 * 2 ^ 8))
      (x / 2 ^ 24))

-- The loop that clears the lowest bit that is set, on fuel; it gives the count and what is left of
-- the word.
unfoldable pub clear_rounds : ℕ → ℕ → ℕ → Option (ℕ × ℕ)
clear_rounds zero c x = none
clear_rounds (suc fuel) c x =
    let rest = clear_rounds fuel (c + 1) (bit_and x (x - 1)) in if x == 0 then some (c, x) else rest

-- The code returns what is left, not the count. `none` stands for fuel that runs out.
unfoldable pub popcount : Option Builtins → ℕ → Option ℕ
popcount (some b) x = some (b.popcount x)
popcount none x = elim (clear_rounds (x + 1) 0 x) [ none ↦ none | some (c, rest) ↦ some rest ]

-- `x ^= x >> k`
abbrev pub fold_xor : ℕ → ℕ → ℕ
fold_xor k x = bit_xor x (x / 2 ^ k)

unfoldable pub parity : Option Builtins → ℕ → ℕ
parity (some b) x = b.parity x
parity none x =
    let folded = fold_xor 2 (fold_xor 1 x) in
    bit_and (mul32 (bit_and folded 0x1111_1111) 0x1111_1111 / 2 ^ 28) 1

unfoldable pub clz : Builtins → ℕ → ℕ
clz b x = if x == 0 then 32 else b.clz x

-- `if (x & mask) c -= k`
abbrev pub lower : ℕ → ℕ → ℕ → ℕ → ℕ
lower x mask k c = if bit_and x mask == 0 then c else sub32 c k

-- The index of the only bit that is set.
unfoldable pub bit_index : ℕ → ℕ
bit_index x = lower x 0x5555_5555 1 (
    lower x 0x3333_3333 2 (
      lower x 0x0F0F_0F0F 4
        (lower x 0x00FF_00FF 8 (lower x 0x0000_FFFF 16 (if x == 0 then 32 else sub32 32 1)))))

unfoldable pub ctz : Option Builtins → ℕ → ℕ
ctz (some b) x = if x == 0 then 32 else b.ctz x
ctz none x = if x == 0 then 32 else bit_index (bit_and x (sub32 0 x))
