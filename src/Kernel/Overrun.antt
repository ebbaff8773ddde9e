-- ===== src/Kernel/Overrun.antt =====
-- A text of stage3/kmain.cpp that comes too early for COM1.
use boot.Base.{ℕ, suc, ◌+◌, ◌-◌, ◌<◌, ◌≤◌, ◌≡◌, arith, List, length, Outcome, fault, lt→ltb, refl}
use boot.Ports.{Cpu, Access}
use boot.Serial.{Serial, serial_bufsize}
use boot.Serial.Contents.{IsHolding}
use boot.Serial.Write.{ser_write_overrun}
use boot.Console.{kprint_serial}
use boot.Kernel.Printing.{print_text, print_bytes, interrupts}
use boot.Kernel.Texts.{IsText, strlen-text}

-- Where no interrupt comes before a text that takes all free places of a well-formed COM1 or more,
-- two at least being free, the copy of `ser_write` goes outside the buffer.
pub print_text_overrun :
    (fuel str : ℕ) (halt : Serial → Cpu → Outcome (Serial × Cpu)) (gap : List Access → ℕ)
    (text : List ℕ) (cpu : Cpu) {com1 : Serial} {w t : ℕ} {waiting : List ℕ}
    → IsHolding com1 w t waiting
    → IsText text
    → length text < 64
    → gap cpu.accesses ≡ 0
    → serial_bufsize ≤ length waiting + length text
    → length waiting < serial_bufsize - 1
    → print_text (suc fuel) str halt gap text com1 cpu ≡ fault
unfolding print_text print_bytes kprint_serial interrupts
print_text_overrun fuel str halt gap text cpu g t short none over two =
    rw
      (
        print_text,
        strlen-text str text t short,
        print_bytes,
        none,
        kprint_serial,
        lt→ltb 0 (length text) (omega arith),
        ser_write_overrun g text (length text) cpu (omega arith) over two,
      )
      refl
