-- ===== src/Text/Tests.antt =====
-- The texts of small numbers, and the theorems at concrete ones.
use boot.Base.{◌==◌, if◌then◌else◌, some, ℕ, ◌≡◌, refl, arith, [], ◌∷◌}
use boot.Text.{hex_digit, fmt_uint, fmt_digits, strlen}
use boot.Text.Strlen.{IsString, strlen_lem}
use boot.Text.Digits.{decimal, decimal-fmt_uint}

-- In base 16 the digits of 26 are those of 26 mod 16 and of 2.
hex_of_26 : fmt_uint 26 16 ≡ 50 ∷ 65 ∷ 0 ∷ []
unfolding fmt_uint fmt_digits hex_digit
hex_of_26 = refl

decimal-fmt_uint_example : decimal (fmt_uint 4096 10) ≡ some 4096
decimal-fmt_uint_example = decimal-fmt_uint 4096 (omega arith)

-- "Hi!" at the address 17.
abbrev hi : ℕ → ℕ
hi a = if a == 17 then 72 else if a == 18 then 105 else if a == 19 then 33 else 0

hi-IsString : IsString hi 17 3
hi-IsString = record { bytes = λ a. ground arith; no_end = λ k h. ground arith; ends = refl }

strlen_lem_example : strlen 4 hi 17 ≡ some 3
strlen_lem_example = strlen_lem hi 17 3 hi-IsString 4 (omega arith)
