-- ===== src/Isrs.antt =====
-- stage3/x86/isrs.cc: the handlers of the timer and of COM1. The port that COM1 points to is an
-- argument.
use boot.Base.{ℕ, List, [], ◌∷◌, Outcome, ok, ◌>>=◌, length}
use boot.Ports.{Cpu}
use boot.Serial.{Serial, ser_write, ser_flush}
use boot.Pic.{pic_eoi}

abbrev pub pic_pit : ℕ
pic_pit = 0

abbrev pub pic_com1 : ℕ
pic_com1 = 4

-- "PIT interrupt received\r\n"
abbrev msg : List ℕ
msg =
    80 ∷ 73 ∷ 84 ∷ 32 ∷ 105 ∷ 110 ∷ 116 ∷ 101 ∷ 114 ∷ 114 ∷ 117 ∷ 112 ∷ 116 ∷ 32 ∷ 114 ∷ 101 ∷ 99
    ∷ 101 ∷ 105 ∷ 118 ∷ 101 ∷ 100 ∷ 13 ∷ 10 ∷ []

unfoldable pub timer_isr : Serial → Cpu → Outcome (Serial × Cpu)
timer_isr com1 cpu = do
  (written, com1, cpu) ← ser_write com1 msg (length msg) cpu
  ok (com1, pic_eoi pic_pit cpu)

unfoldable pub com1_isr : Serial → Cpu → Outcome (Serial × Cpu)
com1_isr com1 cpu = do (com1, cpu) ← ser_flush com1 cpu; ok (com1, pic_eoi pic_com1 cpu)
