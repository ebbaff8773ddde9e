-- ===== src/Pit.antt =====
-- stage3/x86/pit.c: counter 0 of the 8254 timer.
pub mod Counter
use boot.Base.{ℕ, ◌*◌, ◌/◌, ◌^◌, bit_and, bit_or, u16}
use boot.Ports.{Cpu, Device, outb, inb, save_intr, restore_intr}

abbrev pub pit_data : ℕ
pit_data = 0x40

abbrev pub pit_cmd : ℕ
pit_cmd = 0x43

abbrev pub pit_latch : ℕ
pit_latch = 0

abbrev pub pit_hilo : ℕ
pit_hilo = 0x30

unfoldable pub pit_arm : ℕ → ℕ → Cpu → Cpu
pit_arm mode period cpu =
    let (eflags, cpu) = save_intr cpu in
    let cpu = outb pit_cmd (bit_or pit_hilo mode) cpu in
    let cpu = outb pit_data (bit_and period 0xFF) cpu in
    let cpu = outb pit_data (bit_and period 0xFF00 / 2 ^ 8) cpu in restore_intr eflags cpu

unfoldable pub pit_read : Device → Cpu → ℕ × Cpu
pit_read device cpu =
    let (eflags, cpu) = save_intr cpu in
    let cpu = outb pit_cmd pit_latch cpu in
    let (low, cpu) = inb device pit_data cpu in
    let (high, cpu) = inb device pit_data cpu in
    (u16 (bit_or low (high * 2 ^ 8)), restore_intr eflags cpu)
