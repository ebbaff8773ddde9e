-- ===== src/Console/Tests.antt =====
-- "Hi" at the address 17, and the screen.
use boot.Base.{ℕ, ◌+◌, ◌*◌, ◌≡◌, refl, arith, inl, some, ◌==◌, if◌then◌else◌}
use boot.Text.Strlen.{IsString}
use boot.Console.{kputs, line_break}
use boot.Console.Screen.{IsShown, kputs-IsShown}

abbrev memory : ℕ → ℕ
memory a = if a == 17 then 72 else if a == 18 then 105 else 0

memory-IsString : IsString memory 17 2
memory-IsString = record { bytes = λ a. ground arith; no_end = λ k h. ground arith; ends = refl }

kputs-IsShown_example :
    (new : ℕ → ℕ) × (kputs 3 17 0xB_8000 159 memory ≡ some (160 + 2 * 2, new))
    × IsShown memory new 17 (0xB_8000 + 160) 2
kputs-IsShown_example =
    kputs-IsShown 3 17 0xB_8000 159 2 memory memory-IsString (omega arith) (omega arith)
      (inl (omega arith))

-- A text of 50 characters at the byte 100 of a line is not moved, and runs over the end of the line.
line_break_bytes : line_break 100 50 ≡ 100
line_break_bytes = refl
