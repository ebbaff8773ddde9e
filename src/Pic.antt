-- ===== src/Pic.antt =====
-- stage3/x86/pic.c: the two 8259 interrupt controllers, and the handlers of stage3/x86/isrs.cc that
-- acknowledge to them.
pub mod Chip
pub mod Setup
pub mod Handlers
mod Tests
use boot.Base.{ℕ, ◌+◌, ◌*◌, ◌/◌, ◌^◌, bit_and, bit_or, ◌==◌, if◌then◌else◌, leb, u8, u16}
use boot.Ports.{Cpu, Device, outb, inb, io_wait}

abbrev pub pic1_cmd : ℕ
pic1_cmd = 0x20

abbrev pub pic1_data : ℕ
pic1_data = 0x21

abbrev pub pic2_cmd : ℕ
pic2_cmd = 0xA0

abbrev pub pic2_data : ℕ
pic2_data = 0xA1

abbrev pub icw1_icw4 : ℕ
icw1_icw4 = 0x01

abbrev pub icw1_init : ℕ
icw1_init = 0x10

abbrev pub icw4_8086 : ℕ
icw4_8086 = 0x01

abbrev pub pic_eoi_cmd : ℕ
pic_eoi_cmd = 0x20

abbrev pub pic_isr : ℕ
pic_isr = 0x0B

abbrev pub pic_cascade : ℕ
pic_cascade = 2

abbrev pub pic_lpt1 : ℕ
pic_lpt1 = 7

unfoldable pub pic_init : ℕ → Cpu → Cpu
pic_init offset cpu =
    let cpu = io_wait (outb pic1_cmd (bit_or icw1_init icw1_icw4) cpu) in
    let cpu = io_wait (outb pic2_cmd (bit_or icw1_init icw1_icw4) cpu) in
    let cpu = io_wait (outb pic1_data offset cpu) in
    let cpu = io_wait (outb pic2_data (offset + 8) cpu) in
    let cpu = io_wait (outb pic1_data 4 cpu) in
    let cpu = io_wait (outb pic2_data 2 cpu) in
    let cpu = io_wait (outb pic1_data icw4_8086 cpu) in io_wait (outb pic2_data icw4_8086 cpu)

unfoldable pub pic_irqmask : ℕ → Cpu → Cpu
pic_irqmask mask cpu =
    let cpu = outb pic1_data (bit_and mask 0xFF) cpu in
    outb pic2_data (bit_and mask 0xFF00 / 2 ^ 8) cpu

unfoldable pub pic_irqmask1 : ℕ → Cpu → Cpu
pic_irqmask1 mask cpu = outb pic1_data mask cpu

unfoldable pub pic_irqmask2 : ℕ → Cpu → Cpu
pic_irqmask2 mask cpu = outb pic2_data mask cpu

unfoldable pub pic_disable : Cpu → Cpu
pic_disable cpu = pic_irqmask 0xFFFF cpu

unfoldable pub pic_read : Device → ℕ → Cpu → ℕ × Cpu
pic_read device reg cpu =
    let cpu = outb pic1_cmd reg cpu in
    let cpu = outb pic2_cmd reg cpu in
    let (high, cpu) = inb device pic2_cmd cpu in
    let (low, cpu) = inb device pic1_cmd cpu in (u16 (bit_or (high * 2 ^ 8) low), cpu)

unfoldable pub pic_eoi : ℕ → Cpu → Cpu
pic_eoi irq cpu =
    let cpu = (if leb 8 irq then outb pic2_cmd pic_eoi_cmd cpu else cpu) in
    outb pic1_cmd pic_eoi_cmd cpu

unfoldable pub spurious_irq7_isr : Device → Cpu → Cpu
spurious_irq7_isr device cpu =
    let (isr, cpu) = pic_read device pic_isr cpu in
    if bit_and isr 0x80 == 0 then cpu else pic_eoi pic_lpt1 cpu

unfoldable pub spurious_irq15_isr : Device → Cpu → Cpu
spurious_irq15_isr device cpu =
    let (isr, cpu) = pic_read device pic_isr cpu in
    let cpu = (if bit_and isr 0x8000 == 0 then cpu else pic_eoi pic_lpt1 cpu) in
    pic_eoi pic_cascade cpu
