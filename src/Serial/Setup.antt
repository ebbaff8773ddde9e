-- ===== src/Serial/Setup.antt =====
-- The programming of the serial chip, seen from a 16550's side.
use boot.Base.{ℕ, ◌^◌, ◌<◌, ◌≡◌, refl, List, [], ◌∷◌, arith, true}
use boot.Base.{leb, if◌then◌else◌, ◌==◌, u8, ◌-◌, lt→leb_false, bit_and, bit_and_low, ◌/◌}
use boot.Ports.{Cpu, Device, Access, wrote, read}
use boot.RingBuf
use boot.Serial.{Serial, serial_com1, ser_init, ser_init_poll, buf_init}

-- The registers that software writes. While bit 7 of the line control is set, the first two ports
-- lead to the divisor and not to the data and the interrupt enable.
pub record Uart : Type 0 where
  pub interrupt_enable : ℕ
  pub divisor_low : ℕ
  pub divisor_high : ℕ
  pub fifo_control : ℕ
  pub line_control : ℕ
  pub modem_control : ℕ

abbrev pub uart_write : ℕ → ℕ → Uart → Uart
uart_write offset v u =
    if offset == 0
    then (if leb 0x80 u.line_control then record u { divisor_low = v } else u)
    else if offset == 1
    then (if leb 0x80 u.line_control
        then record u { divisor_high = v }
        else record u { interrupt_enable = v })
    else if offset == 2
    then record u { fifo_control = v }
    else if offset == 3
    then record u { line_control = v }
    else if offset == 4
    then record u { modem_control = v }
    else u

-- The chip at the ports from `base` on after a history of accesses, from a state `u`.
abbrev pub programmed : ℕ → Uart → List Access → Uart
programmed base u [] = u
programmed base u (wrote p v ∷ older) =
    if leb base p
    then uart_write (p - base) v (programmed base u older)
    else programmed base u older
programmed base u (read p v ∷ older) = programmed base u older

abbrev pub polled_chip : Uart
polled_chip = record {
  interrupt_enable = 0;
  divisor_low = 3;
  divisor_high = 0;
  fifo_control = 0;
  line_control = 0x03;
  modem_control = 0x03;
}

abbrev pub running_chip : ℕ → Uart
running_chip speed = record {
  interrupt_enable = 0x02;
  divisor_low = u8 speed;
  divisor_high = 0;
  fifo_control = 0xC7;
  line_control = 0x03;
  modem_control = 0x0F;
}

-- `ser_init_poll` leaves the chip at 38400 baud, 8N1, with interrupts and FIFOs off, whatever was
-- programmed before, if the line control then led to the interrupt enable.
pub ser_init_poll-chip :
    (u : Uart) (cpu : Cpu)
    → (programmed serial_com1 u cpu.accesses).line_control < 0x80
    → programmed serial_com1 u (ser_init_poll cpu).accesses ≡ polled_chip
unfolding ser_init_poll
ser_init_poll-chip u cpu h =
    rw (lt→leb_false 0x80 (programmed serial_com1 u cpu.accesses).line_control h) refl

-- When the line control leads to the interrupt enable and the chip echoes 0xAE so that `ser_init`
-- at COM1 returns true, it leaves the chip at 8N1 with FIFOs on, the transmit interrupt enabled,
-- and the low 8 bits of `speed` as its divisor; the ring is empty, the transmitter counts as busy,
-- and the processor's flags are as before.
pub ser_init-chip :
    (device : Device) (u : Uart) (port : Serial) (speed : ℕ) (cpu : Cpu)
    → (programmed serial_com1 u cpu.accesses).line_control < 0x80
    → (ser_init device port serial_com1 speed cpu).0 ≡ true
    → let (found, out, cpu') = ser_init device port serial_com1 speed cpu in
      (programmed serial_com1 u cpu'.accesses ≡ running_chip speed)
      × (out.hdr ≡ 0)
      × (out.fifo_empty ≡ 0)
      × (out.port ≡ serial_com1)
      × (cpu'.eflags ≡ cpu.eflags)
unfolding ser_init RingBuf.buf_init
ser_init-chip device u port speed cpu h found =
    let low : bit_and (u8 speed) 0xFF ≡ u8 speed = omega (arith, bit_and_low 8 (u8 speed)) in
    let high : u8 speed / 2 ^ 8 ≡ 0 = omega arith in ground (arith, low, high)
