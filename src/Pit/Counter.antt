-- ===== src/Pit/Counter.antt =====
-- The counter from its data sheet, and what the two calls do with it.
use boot.Base.{
  ℕ, ◌+◌, ◌*◌, ◌/◌, ◌%◌, ◌^◌, ◌<◌, ◌≡◌, refl, arith, List, [], ◌∷◌, ◌==◌, if◌then◌else◌, bit_and,
  bit_or, bit_and_low, bit_and_shifted,
}
use boot.Ports.{Access, wrote, read, Cpu, Device}
use boot.Pit.{pit_data, pit_cmd, pit_arm, pit_read}
use boot.Base.{bit_or_fields, ◌∙◌, zero_or, or_shifted}

-- `low_next` is 1 when the next byte of data is the low one.
pub record Counter : Type 0 where
  pub control : ℕ
  pub reload : ℕ
  pub low_next : ℕ

-- The counter after a history of accesses. A command whose two access bits are 0 latches.
abbrev pub counter : Counter → List Access → Counter
counter c [] = c
counter c (wrote port v ∷ older) =
    let before = counter c older in
    if port == pit_cmd
    then (if v / 2 ^ 4 % 4 == 0 then before else record before { control = v; low_next = 1 })
    else if port == pit_data
    then (if before.low_next == 1
        then record before { reload = v; low_next = 0 }
        else record before { reload = before.reload + v * 2 ^ 8; low_next = 1 })
    else before
counter c (read port v ∷ older) = counter c older

-- For a mode below 16 and a 16-bit period, `pit_arm` loads the counter with the whole period in
-- that mode, and leaves the processor's flags as it found them.
pub pit_arm-loads :
    (c : Counter) (mode period : ℕ) (cpu : Cpu)
    → mode < 16
    → period < 2 ^ 16
    → let cpu' = pit_arm mode period cpu in
      ((counter c cpu'.accesses).reload ≡ period)
      × ((counter c cpu'.accesses).control ≡ 0x30 + mode)
      × (cpu'.eflags ≡ cpu.eflags)
unfolding pit_arm
pit_arm-loads c mode period cpu hm h =
    let e0 : bit_or 0x30 mode ≡ 0x30 + mode =
      bit_or_fields 4 3 0 mode (omega arith) hm ∙ rw (zero_or mode) refl in
    let e1 : bit_and period 0xFF ≡ period % 2 ^ 8 = bit_and_low 8 period in
    let e2 : bit_and period 0xFF00 / 2 ^ 8 ≡ period / 2 ^ 8 =
      omega (arith, bit_and_shifted 8 period 0xFF, bit_and_low 8 (period / 2 ^ 8)) in
    ground (arith, e0, e1, e2)

-- When the timer answers the low byte of a 16-bit count after a latch command, and the high byte
-- after that, `pit_read` gives the count, and the processor's flags stay as they were.
pub pit_read-latched :
    (device : Device) (count : ℕ) (cpu : Cpu)
    → count < 2 ^ 16
    → let latched = wrote pit_cmd 0 ∷ cpu.accesses in
      device latched pit_data ≡ count % 2 ^ 8
      → device (read pit_data (count % 2 ^ 8) ∷ wrote pit_cmd 0 ∷ cpu.accesses) pit_data
        ≡ count / 2 ^ 8
      → ((pit_read device cpu).0 ≡ count) × ((pit_read device cpu).1.eflags ≡ cpu.eflags)
unfolding pit_read
pit_read-latched device count cpu h low high =
    let e1 : count % 2 ^ 8 % 2 ^ 8 ≡ count % 2 ^ 8 = omega arith in
    let e2 : count / 2 ^ 8 % 2 ^ 8 ≡ count / 2 ^ 8 = omega arith in
    let e3 : bit_or (count % 2 ^ 8) (count / 2 ^ 8 * 2 ^ 8) ≡ count =
      or_shifted 8 (count / 2 ^ 8) (count % 2 ^ 8) (omega arith) ∙ omega arith in
    let e4 : count % 2 ^ 16 ≡ count = omega arith in (rw (low, e1, high, e2, e3) e4, refl)
