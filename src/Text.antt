-- ===== src/Text.antt =====
-- stage3/crt/print.c, stage3/crt/util.c and stage2/util.c: numbers as text, and bytes of memory.
pub mod Format
pub mod Digits
pub mod Hex
pub mod Compare
pub mod Strlen
mod Tests
use boot.Base.{
  ℕ, zero, suc, ◌+◌, ◌*◌, ◌-◌, ◌/◌, ◌%◌, ◌^◌, List, [], ◌∷◌, Option, none, some, ◌⊎◌, inl, inr,
  bit_and, get_or, set, ◌==◌, if◌then◌else◌, sub32, mul32, u8, ltb,
}

abbrev pub hex : List ℕ
hex = 48 ∷ 49 ∷ 50 ∷ 51 ∷ 52 ∷ 53 ∷ 54 ∷ 55 ∷ 56 ∷ 57 ∷ 65 ∷ 66 ∷ 67 ∷ 68 ∷ 69 ∷ 70 ∷ []

-- `hex[i]`
unfoldable pub hex_digit : ℕ → ℕ
hex_digit i = get_or hex i 0

-- The loop of `fmt_uint`: the digits of `arg` before `text`.
unfoldable pub fmt_digits : ℕ → ℕ → ℕ → List ℕ → List ℕ
fmt_digits zero base arg text = text
fmt_digits (suc fuel) base arg text =
    let digits = hex_digit (arg % base) ∷ text in
    let rest = fmt_digits fuel base (arg / 10) digits in if arg / 10 == 0 then digits else rest

-- The bytes from the returned pointer to the end of the buffer; 10 rounds are enough for 32 bits.
unfoldable pub fmt_uint : ℕ → ℕ → List ℕ
fmt_uint arg base = fmt_digits 10 base arg (0 ∷ [])

-- The rounds of `hextostr` that are left.
unfoldable pub hextostr_rounds : ℕ → ℕ → List ℕ → List ℕ
hextostr_rounds zero in' out = out
hextostr_rounds (suc left) in' out =
    hextostr_rounds left (in' / 2 ^ 4) (set out left (hex_digit (bit_and in' 0x0F)))

unfoldable pub hextostr : ℕ → List ℕ → List ℕ
hextostr in' out = hextostr_rounds 8 in' out

-- `memory a` is the byte at the address `a`.
unfoldable pub memcmp : (ℕ → ℕ) → ℕ → ℕ → ℕ → ℕ
memcmp memory s1 s2 zero = 0
memcmp memory s1 s2 (suc n) =
    let rest = memcmp memory (s1 + 1) (s2 + 1) n in
    if memory s1 == memory s2 then rest else sub32 (memory s1) (memory s2)

abbrev pub min : ℕ → ℕ → ℕ
min a b = if ltb a b then a else b

abbrev pub max : ℕ → ℕ → ℕ
max a b = if ltb b a then a else b

-- The four bytes at an address, as `uint32_t`.
abbrev pub word_of : (ℕ → ℕ) → ℕ → ℕ
word_of memory a =
    memory a + memory (a + 1) * 2 ^ 8 + memory (a + 2) * 2 ^ 16 + memory (a + 3) * 2 ^ 24

-- `HASLESS(x, n)`
abbrev pub has_less : ℕ → ℕ → ℕ
has_less x n = bit_and (bit_and (sub32 x (mul32 0x0101_0101 n)) (0xFFFF_FFFF - x)) 0x8080_8080

-- The first loop of `strlen`, which makes at most 15 rounds: the length that it returns, or the
-- address that it ends at.
unfoldable pub align : (ℕ → ℕ) → ℕ → ℕ → ℕ → ℕ ⊎ ℕ
align memory str zero s = inr s
align memory str (suc left) s =
    let next = (if memory s == 0 then inl (s - str) else align memory str left (s + 1)) in
    if bit_and s 15 == 0 then inr s else next

-- The second loop and the third, on fuel for their rounds.
unfoldable pub skip_words : (ℕ → ℕ) → ℕ → ℕ → Option ℕ
skip_words memory zero w = none
skip_words memory (suc fuel) w =
    let rest = skip_words memory fuel (w + 4) in
    if has_less (word_of memory w) 1 == 0 then rest else some w

unfoldable pub scan : (ℕ → ℕ) → ℕ → ℕ → Option ℕ
scan memory zero s = none
scan memory (suc fuel) s =
    let rest = scan memory fuel (s + 1) in if memory s == 0 then some s else rest

unfoldable pub strlen : ℕ → (ℕ → ℕ) → ℕ → Option ℕ
strlen fuel memory str = elim (align memory str 15 str) [
  | inl n ↦ some n
  | inr s ↦ elim (skip_words memory fuel s) [
    | none ↦ none
    | some w ↦ elim (scan memory fuel w) [ none ↦ none | some e ↦ some (e - str) ]
  ]
]

-- `memset` of memory.
unfoldable pub memset : (ℕ → ℕ) → ℕ → ℕ → ℕ → (ℕ → ℕ)
memset memory s c zero = memory
memset memory s c (suc n) = memset (λ a. if a == s then u8 c else memory a) (s + 1) c n
