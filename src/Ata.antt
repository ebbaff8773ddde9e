-- ===== src/Ata.antt =====
-- stage3/x86/ata.c: the status, and the signature that tells the kind of a drive.
use boot.Base.{
  zero, suc, Bool, true, false, bit_and, ◌-◌, ◌==◌, if◌then◌else◌, ℕ, ◌+◌, ◌*◌, ◌^◌, bit_or, u16,
}
use boot.Ports.{Cpu, Device, outb, inb}

abbrev pub ata_lbamid : ℕ
ata_lbamid = 0x4

abbrev pub ata_lbahi : ℕ
ata_lbahi = 0x5

abbrev pub ata_dsel : ℕ
ata_dsel = 0x6

abbrev pub ata_srst : ℕ
ata_srst = 2

unfoldable pub ata_get_status : Device → ℕ → Cpu → ℕ × Cpu
ata_get_status device ctl_base cpu = inb device ctl_base cpu

unfoldable pub detect_devtype : Device → ℕ → ℕ → ℕ → Cpu → ℕ × Cpu
detect_devtype device slavebit ata_base ctl_base cpu =
    let cpu = outb (ata_base + ata_dsel) (bit_or 0xA0 (slavebit * 2 ^ 4)) cpu in
    let (wait1, cpu) = inb device ctl_base cpu in
    let (wait2, cpu) = inb device ctl_base cpu in
    let (wait3, cpu) = inb device ctl_base cpu in
    let (wait4, cpu) = inb device ctl_base cpu in
    let (cl, cpu) = inb device (ata_base + ata_lbamid) cpu in
    let (ch, cpu) = inb device (ata_base + ata_lbahi) cpu in (u16 (ch * 2 ^ 8 + cl), cpu)

-- The wait for the drive, on fuel for its rounds: whether it ended, and the processor.
unfoldable pub ata_wait : ℕ → Device → ℕ → Cpu → Bool × Cpu
ata_wait zero device ctl_base cpu = (false, cpu)
ata_wait (suc fuel) device ctl_base cpu =
    let (status, cpu) = ata_get_status device ctl_base cpu in
    let again = ata_wait fuel device ctl_base (outb 0x80 0 cpu) in
    if bit_and status 0x80 == 0 then (true, cpu) else again

unfoldable pub ata_soft_reset : ℕ → Device → ℕ → Cpu → Bool × Cpu
ata_soft_reset fuel device ctl_base cpu =
    let (ctrl_reg, cpu) = inb device ctl_base cpu in
    let cpu = outb ctl_base (bit_or ctrl_reg (2 ^ ata_srst)) cpu in
    let cpu = outb ctl_base (bit_and (bit_or ctrl_reg (2 ^ ata_srst)) (0xFF - 2 ^ ata_srst)) cpu in
    ata_wait fuel device ctl_base cpu
