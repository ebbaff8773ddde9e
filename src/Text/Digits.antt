-- ===== src/Text/Digits.antt =====
-- `fmt_uint` in base 10, read back.
use boot.Base.{
  ℕ, zero, suc, ◌+◌, ◌-◌, ◌*◌, ◌/◌, ◌%◌, ◌^◌, ◌<◌, ◌≤◌, ◌≡◌, refl, arith, List, [], ◌∷◌, length,
  ◌==◌, if◌then◌else◌,
}
use boot.Text.{hex_digit, fmt_digits, fmt_uint}
use boot.Base.{◌∙◌, false, true, Bool-cases, ne→==_false, inl, inr}
use native.Mathlib.Nat.{pow-suc}
use boot.Base.{Option, some, none, Bool, leb, ◌&&◌}

-- The end of a text of the number `n`.
abbrev at_end : ℕ → List ℕ → Option ℕ
at_end n [] = some n
at_end n (byte ∷ text) = none

abbrev is_digit : ℕ → Bool
is_digit byte = leb 48 byte && leb byte 57

-- The rest of a number, behind digits that spell `n`.
abbrev digits : ℕ → List ℕ → Option ℕ
digits n [] = none
digits n (byte ∷ text) =
    let rest = digits (n * 10 + (byte - 48)) text in
    if byte == 0 then at_end n text else if is_digit byte then rest else none

-- The number that a text spells: at least one decimal digit and a zero byte behind the last, no 0
-- in front unless it is the only digit, and nothing else.
abbrev pub decimal : List ℕ → Option ℕ
decimal [] = none
decimal (byte ∷ text) =
    if byte == 48
    then elim text [ [] ↦ none | (x ∷ xs) ↦ if x == 0 then at_end 0 xs else none ]
    else if is_digit byte
    then digits (byte - 48) text
    else none

hex_digit-decimal : (d : ℕ) → d < 10 → hex_digit d ≡ 48 + d
unfolding hex_digit
hex_digit-decimal zero h = refl
hex_digit-decimal (suc zero) h = refl
hex_digit-decimal (suc (suc zero)) h = refl
hex_digit-decimal (suc (suc (suc zero))) h = refl
hex_digit-decimal (suc (suc (suc (suc zero)))) h = refl
hex_digit-decimal (suc (suc (suc (suc (suc zero))))) h = refl
hex_digit-decimal (suc (suc (suc (suc (suc (suc zero)))))) h = refl
hex_digit-decimal (suc (suc (suc (suc (suc (suc (suc zero))))))) h = refl
hex_digit-decimal (suc (suc (suc (suc (suc (suc (suc (suc zero)))))))) h = refl
hex_digit-decimal (suc (suc (suc (suc (suc (suc (suc (suc (suc zero))))))))) h = refl
hex_digit-decimal (suc (suc (suc (suc (suc (suc (suc (suc (suc (suc d)))))))))) h =
    absurd (omega arith)

is_digit_lem : (d : ℕ) → d < 10 → is_digit (48 + d) ≡ true
is_digit_lem d h = ground arith

digits-digit :
    (n d : ℕ) (text : List ℕ) → d < 10 → digits n (hex_digit d ∷ text) ≡ digits (n * 10 + d) text
digits-digit n d text h =
    let e : 48 + d - 48 ≡ d = omega arith in
    let z : (48 + d == 0) ≡ false = ne→==_false (48 + d) 0 (omega arith) in
    rw (hex_digit-decimal d h, e) (rw (z, is_digit_lem d h) refl)

decimal-first :
    (d : ℕ) (text : List ℕ) → 0 < d → d < 10 → decimal (hex_digit d ∷ text) ≡ digits d text
decimal-first d text pos h =
    let e : 48 + d - 48 ≡ d = omega arith in
    let z : (48 + d == 48) ≡ false = ne→==_false (48 + d) 48 (omega arith) in
    rw (hex_digit-decimal d h, e) (rw (z, is_digit_lem d h) refl)

decimal-fmt_digits :
    (fuel arg : ℕ) (text : List ℕ)
    → 0 < arg
    → arg < 10 ^ suc fuel
    → decimal (fmt_digits (suc fuel) 10 arg text) ≡ digits arg text
unfolding fmt_digits
decimal-fmt_digits zero arg text pos h =
    let z : (arg / 10 == 0) ≡ true = ground arith in
    let e : arg % 10 ≡ arg = omega arith in rw (z, e) (decimal-first arg text pos (omega arith))
decimal-fmt_digits (suc fuel) arg text pos h = elim (Bool-cases (arg / 10 == 0)) [
  | inl t ↦
      let z : arg / 10 ≡ 0 = grind arith in
      let e : arg % 10 ≡ arg = omega arith in rw (t, e) (decimal-first arg text pos (omega arith))
  | inr f ↦
      let e : arg / 10 * 10 + arg % 10 ≡ arg = omega arith in
      let some_left : 0 < arg / 10 = ground arith in
      let less : arg / 10 < 10 ^ suc fuel = omega (arith, pow-suc 10 (suc fuel)) in
      rw f (
        decimal-fmt_digits fuel (arg / 10) (hex_digit (arg % 10) ∷ text) some_left less
        ∙ digits-digit (arg / 10) (arg % 10) text (omega arith)
        ∙ rw e refl)
]

decimal-zero : decimal (fmt_uint 0 10) ≡ some 0
unfolding fmt_uint fmt_digits hex_digit
decimal-zero = refl

-- For every 32-bit number, `fmt_uint` in base 10 writes a text that spells the number in decimal: at
-- least one digit, no 0 in front unless it is the only digit, and one zero byte at the end.
pub decimal-fmt_uint : (arg : ℕ) → arg < 2 ^ 32 → decimal (fmt_uint arg 10) ≡ some arg
unfolding fmt_uint
decimal-fmt_uint zero h = decimal-zero
decimal-fmt_uint (suc n) h = decimal-fmt_digits 9 (suc n) (0 ∷ []) (omega arith) (omega arith)

length-fmt_digits :
    (fuel base arg : ℕ) (text : List ℕ)
    → length (fmt_digits fuel base arg text) ≤ fuel + length text
unfolding fmt_digits
length-fmt_digits zero base arg text = omega arith
length-fmt_digits (suc fuel) base arg text =
    ground (arith, length-fmt_digits fuel base (arg / 10) (hex_digit (arg % base) ∷ text))

-- In every base the text and its zero byte take at most 11 of the 12 bytes of the buffer.
pub length-fmt_uint : (arg base : ℕ) → length (fmt_uint arg base) ≤ 11
unfolding fmt_uint
length-fmt_uint arg base = length-fmt_digits 10 base arg (0 ∷ [])
