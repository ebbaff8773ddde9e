-- ===== src/Panic.antt =====
-- stage3/crt/assert.c: a message on COM1, and the end of the kernel. `device` is what the ports
-- answer; a wait for the port runs on fuel for its rounds, and `none` says that it went on longer.
pub mod Sent
mod Tests
use boot.Base.{ℕ, zero, suc, ◌+◌, List, [], ◌∷◌, bit_and, ◌==◌, if◌then◌else◌, Option, none, some}
use boot.Base.{Outcome, ok, fault, ◌>>=◌}
use boot.Ports.{Cpu, Device, inb, outb, cli}
use boot.Serial.{serial_com1, ser_init_poll}
use boot.Text.Format.{Formatted, text, string, null, getfmt}

-- A call that may wait.
abbrev pub Waiting : Type 0
Waiting = Cpu → Outcome (Option Cpu)

abbrev pub and_then : Waiting → Waiting → Waiting
and_then first second cpu =
    first cpu >>= λ waited. elim waited [ none ↦ ok none | some cpu ↦ second cpu ]

abbrev pub done : Waiting
done cpu = ok (some cpu)

unfoldable pub assert_ser_write : ℕ → Device → ℕ → Waiting
assert_ser_write zero device c cpu = ok none
assert_ser_write (suc fuel) device c cpu =
    let (status, cpu) = inb device (serial_com1 + 5) cpu in
    let again = assert_ser_write fuel device c cpu in
    if bit_and status 0x20 == 0x20 then done (outb serial_com1 c cpu) else again

module _ (fuel : ℕ) (device : Device) where
  -- The loop over a text in the buffer, up to its zero.
  unfoldable pub write_text : List ℕ → Waiting
  write_text [] cpu = fault
  write_text (c ∷ buf) cpu =
      let rest = and_then (assert_ser_write fuel device c) (write_text buf) cpu in
      if c == 0 then done cpu else rest

  -- The same loop over a text at an address.
  unfoldable pub write_string : ℕ → (ℕ → ℕ) → ℕ → Waiting
  write_string zero memory buf cpu = ok none
  write_string (suc rounds) memory buf cpu =
      let rest =
        and_then (assert_ser_write fuel device (memory buf)) (write_string rounds memory (buf + 1))
          cpu in
      if memory buf == 0 then done cpu else rest

  -- What `getfmt` gave: a NULL is read.
  unfoldable pub write_formatted : (ℕ → ℕ) → Formatted → Waiting
  write_formatted memory (text buf) cpu = write_text buf cpu
  write_formatted memory (string s) cpu = write_string fuel memory s cpu
  write_formatted memory null cpu = fault

  -- The loop over the format, which ends at its zero. A `%` in front of the zero has no conversion.
  unfoldable pub write_format : (ℕ → ℕ) → List ℕ → List ℕ → Waiting
  write_format memory [] args cpu = fault
  write_format memory (c ∷ []) args cpu = if c == 0 then done cpu else fault
  write_format memory (c ∷ f ∷ fmt) args cpu =
      let plain =
        and_then (assert_ser_write fuel device c) (write_format memory (f ∷ fmt) args) cpu in
      let conversion = getfmt f args >>= λ (buf, args).
      and_then (write_formatted memory buf) (write_format memory fmt args) cpu in
      if c == 0 then done cpu else if c == 37 then conversion else plain

  -- `panic` up to the loop that never ends.
  unfoldable pub panic : (ℕ → ℕ) → List ℕ → List ℕ → Waiting
  panic memory fmt args cpu = write_format memory fmt args (ser_init_poll (cli cpu))

  -- `__assert_fail`: the arguments are the addresses of the texts and the line.
  unfoldable pub kernel_assert_fail : (ℕ → ℕ) → List ℕ → ℕ → ℕ → ℕ → ℕ → Waiting
  kernel_assert_fail memory assert_fmt x file line func =
      panic memory assert_fmt (x ∷ file ∷ func ∷ line ∷ [])
