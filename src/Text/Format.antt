-- ===== src/Text/Format.antt =====
-- `getfmt` of stage3/crt/print.c: the text for one conversion. The arguments that are left are a
-- list of 32-bit patterns.
use boot.Base.{
  ℕ, ◌^◌, ◌-◌, List, [], ◌∷◌, ◌||◌, ◌==◌, if◌then◌else◌, leb, u8, Outcome, ok, fault, ◌>>=◌,
}
use boot.Text.{fmt_uint}

-- The result: a text in the buffer, the address of a string that was an argument, or NULL.
pub data Formatted : Type 0 where
  text : List ℕ → Formatted
  string : ℕ → Formatted
  null : Formatted

abbrev va_arg : List ℕ → Outcome (ℕ × List ℕ)
va_arg [] = fault
va_arg (a ∷ vlist) = ok (a, vlist)

-- `%i` and `%d`: a minus sign before the digits of the magnitude.
abbrev signed_text : ℕ → List ℕ
signed_text arg = if leb (2 ^ 31) arg then 45 ∷ fmt_uint (2 ^ 32 - arg) 10 else fmt_uint arg 10

unfoldable pub getfmt : ℕ → List ℕ → Outcome (Formatted × List ℕ)
getfmt fmt vlist =
    let arg = va_arg vlist in
    if fmt == 37
    then ok (text (37 ∷ 0 ∷ []), vlist)
    else if fmt == 99
    then arg >>= (λ (c, rest). ok (text (u8 c ∷ 0 ∷ []), rest))
    else if fmt == 115
    then arg >>= (λ (s, rest). ok (string s, rest))
    else if fmt == 105 || fmt == 100
    then arg >>= (λ (d, rest). ok (text (signed_text d), rest))
    else if fmt == 117
    then arg >>= (λ (u, rest). ok (text (fmt_uint u 10), rest))
    else if fmt == 120
    then arg >>= (λ (x, rest). ok (text (fmt_uint x 16), rest))
    else ok (null, vlist)
