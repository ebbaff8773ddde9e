-- ===== src/Ports.antt =====
-- stage3/include/x86/intrinsics.h: the processor's flags and the I/O ports, as the drivers use
-- them. What a device answers to a read is the argument `device`, a function of everything that
-- happened at the ports before.
use boot.Base.{ℕ, ◌-◌, List, [], ◌∷◌, bit_and, bit_or, u8, u16}

-- One access to a port: a byte written, or a byte read.
pub data Access : Type 0 where
  wrote : ℕ → ℕ → Access
  read : ℕ → ℕ → Access

-- The latest access stands first.
pub record Cpu : Type 0 where
  pub eflags : ℕ
  pub accesses : List Access

abbrev pub Device : Type 0
Device = List Access → ℕ → ℕ

abbrev pub eflags_if : ℕ
eflags_if = 0x200

abbrev pub outb : ℕ → ℕ → Cpu → Cpu
outb port val cpu = record cpu { accesses = wrote (u16 port) (u8 val) ∷ cpu.accesses }

abbrev pub inb : Device → ℕ → Cpu → ℕ × Cpu
inb device port cpu =
    let val = u8 (device cpu.accesses (u16 port)) in
    (val, record cpu { accesses = read (u16 port) val ∷ cpu.accesses })

abbrev pub rep_outsb : ℕ → List ℕ → Cpu → Cpu
rep_outsb port [] cpu = cpu
rep_outsb port (b ∷ bytes) cpu = rep_outsb port bytes (outb port b cpu)

abbrev pub cli : Cpu → Cpu
cli cpu = record cpu { eflags = cpu.eflags - bit_and cpu.eflags eflags_if }

abbrev pub sti : Cpu → Cpu
sti cpu = record cpu { eflags = bit_or cpu.eflags eflags_if }

abbrev pub save_intr : Cpu → ℕ × Cpu
save_intr cpu = (cpu.eflags, cli cpu)

abbrev pub restore_intr : ℕ → Cpu → Cpu
restore_intr eflags cpu = record cpu { eflags = eflags }

abbrev pub io_wait : Cpu → Cpu
io_wait = outb 0x80 0
