-- ===== src/Text/Hex.antt =====
-- `hextostr`: the eight hexadecimal digits.
use boot.Base.{
  ℕ, zero, suc, ◌-◌, ◌/◌, ◌%◌, ◌^◌, ◌<◌, ◌≤◌, ◌≡◌, refl, arith, List, length, get_or, set, bit_and,
  bit_and_low, length-set, get_or-set_self, get_or-set_ne,
}
use boot.Text.{hex_digit, hextostr_rounds, hextostr}
use boot.Base.{◌∙◌, sym, ap}
use native.Mathlib.Decide.{dec_lt}
use native.Mathlib.Nat.{div-div-eq-div-mul, pow-suc}

div_sixteen : (k x : ℕ) → x / 16 ^ suc k ≡ x / 16 / 16 ^ k
div_sixteen k x =
    rw (div-div-eq-div-mul x 16 (16 ^ k)) (ap (λ (t : ℕ). x / t) (omega (arith, pow-suc 16 k)))

-- The rounds that are left write only below their count.
get_or-hextostr_rounds_rest :
    (left n : ℕ) (out : List ℕ) (i : ℕ)
    → left ≤ i
    → get_or (hextostr_rounds left n out) i 0 ≡ get_or out i 0
unfolding hextostr_rounds
get_or-hextostr_rounds_rest zero n out i h = refl
get_or-hextostr_rounds_rest (suc left) n out i h =
    get_or-hextostr_rounds_rest left (n / 16) (set out left (hex_digit (bit_and n 15))) i
      (omega arith)
    ∙ get_or-set_ne out left i (hex_digit (bit_and n 15)) 0 (omega arith)

pub get_or-hextostr_rounds :
    (left n : ℕ) (out : List ℕ) (i : ℕ)
    → left ≤ length out
    → i < left
    → get_or (hextostr_rounds left n out) i 0 ≡ hex_digit (n / 16 ^ (left - 1 - i) % 16)
unfolding hextostr_rounds
get_or-hextostr_rounds zero n out i h hi = absurd (omega arith)
get_or-hextostr_rounds (suc left) n out i h hi = elim (dec_lt i left) [
  | yes lt ↦
      let m = length-set out left (hex_digit (bit_and n 15)) in
      let e : n / 16 / 16 ^ (left - 1 - i) ≡ n / 16 ^ (suc left - 1 - i) =
        let k : suc left - 1 - i ≡ suc (left - 1 - i) = omega arith in
        rw k (sym (div_sixteen (left - 1 - i) n)) in
      get_or-hextostr_rounds left (n / 16) (set out left (hex_digit (bit_and n 15))) i
        (omega (arith, m)) lt
      ∙ rw e refl
  | no ge ↦
      let here : i ≡ left = omega arith in
      let z : suc left - 1 - left ≡ 0 = omega arith in
      let c : hex_digit (bit_and n 15) ≡ hex_digit (n / 16 ^ (suc left - 1 - left) % 16) =
        rw (z, bit_and_low 4 n) (ap (λ t. hex_digit (t % 16)) (omega arith)) in
      rw here (
        get_or-hextostr_rounds_rest left (n / 16) (set out left (hex_digit (bit_and n 15))) left
          (omega arith)
        ∙ get_or-set_self out left (hex_digit (bit_and n 15)) 0 (omega arith)
        ∙ c)
]

-- In a buffer of at least eight bytes, byte `i` below 8 of what `hextostr` writes is the
-- hexadecimal digit of the number with the weight `16 ^ (7 - i)`.
pub get_or-hextostr :
    (n : ℕ) (out : List ℕ) (i : ℕ)
    → 8 ≤ length out
    → i < 8
    → get_or (hextostr n out) i 0 ≡ hex_digit (n / 16 ^ (7 - i) % 16)
unfolding hextostr
get_or-hextostr n out i h hi = get_or-hextostr_rounds 8 n out i h hi
