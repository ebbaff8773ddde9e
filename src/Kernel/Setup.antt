-- ===== src/Kernel/Setup.antt =====
-- The first part of `kmain`: the initializations up to the serial port, in their order. The screen,
-- which `clear` empties, is apart from this state, and the pointer COM1, which `ser_subsystem_init`
-- sets, is the object that it points to.
use boot.Base.{Bool, ℕ, ◌-◌, ◌^◌, List}
use boot.Mmu.{Cmd, ret, ◌>>=◌, ◌>>◌}
use boot.Ports.{Cpu, Device, sti}
use boot.Gates.{GdtEntry, IdtEntry, Dtr, gdt_init, idt_init, idt_set_irq, irq_int}
use boot.PageTable.{PageTable, page_table, activate}
use boot.Pmm.{Pmm, pmm_init}
use boot.MemoryMap.{Smap32}
use boot.Pic.{pic_init, pic_irqmask}
use boot.Isrs.{pic_com1}
use boot.Cpuid.{Cpuid, cpuid_init, cpuid}
use boot.Mtrr.{Mtrr, mtrr_init}
use boot.Serial.{Serial, serial_com1, ser_init}
use boot.Serial.Speed.{b115200, divisor}
use boot.Kmalloc.{lift, assert}

-- What the linker places, and what the processor and the devices answer.
pub record Environment : Type 0 where
  pub gdt : ℕ
  pub tss : ℕ
  pub idt : ℕ
  pub isr_stub : ℕ → ℕ
  pub com1_isr : ℕ
  pub spurious_irq7_isr : ℕ
  pub spurious_irq15_isr : ℕ
  pub curr_pages : ℕ
  pub get_cpuid : ℕ
  pub rdmsr : ℕ → ℕ
  pub device : Device

-- The objects that the initializations set.
pub record State : Type 0 where
  pub gdtr : Dtr
  pub tss_entry : GdtEntry
  pub idtr : Dtr
  pub idt : List IdtEntry
  pub pt : PageTable
  pub pmm : Pmm
  pub cpu : Cpu
  pub cpuid : Cpuid
  pub mtrr : Mtrr
  pub com1 : Serial

-- The calls that reach the interrupt controllers and COM1.
abbrev pub set_irqs : Cpu → Cpu
set_irqs cpu = pic_irqmask (0xFFFF - 2 ^ pic_com1) (pic_init 0x20 cpu)

abbrev pub set_com1 : Environment → State → Bool × Serial × Cpu
set_com1 env s = ser_init env.device s.com1 serial_com1 (divisor b115200) (sti (set_irqs s.cpu))

unfoldable pub setup : Environment → List Smap32 → State → Cmd State
setup env e820 s = do
  let (gdtr, tss_entry) = gdt_init env.gdt env.tss s.tss_entry
  pt ← page_table 0xFFFF_F000
  pt ← activate pt
  pmm ← pmm_init env.curr_pages e820 s.pmm
  (idtr, idt) ← lift (idt_init env.idt env.isr_stub s.idt)
  idt ← lift (idt_set_irq 0x24 env.com1_isr irq_int idt)
  idt ← lift (idt_set_irq 0x27 env.spurious_irq7_isr irq_int idt)
  idt ← lift (idt_set_irq 0x2F env.spurious_irq15_isr irq_int idt)
  let c = cpuid_init env.get_cpuid s.cpuid
  mtrr ← lift (mtrr_init (cpuid c) env.rdmsr s.mtrr)
  let (good, com1, cpu) = set_com1 env s
  assert good
  ret (record {
    gdtr = gdtr;
    tss_entry = tss_entry;
    idtr = idtr;
    idt = idt;
    pt = pt;
    pmm = pmm;
    cpu = cpu;
    cpuid = c;
    mtrr = mtrr;
    com1 = com1;
  })
