-- ===== src/Gates.antt =====
-- stage3/x86/gdt.cc: the descriptor tables. The addresses that the linker gives to the tables and
-- to the handlers `isr_stub0` to `isr_stub31` are arguments.
pub mod Decode
pub mod Stubs
use boot.Base.{
  ℕ, zero, suc, ◌+◌, ◌-◌, ◌*◌, ◌/◌, ◌^◌, List, [], ◌∷◌, bit_and, u8, u16, u32, ◌==◌, if◌then◌else◌,
}
use boot.Base.{Outcome, ok, ◌>>=◌, store}

abbrev pub gdt_cs0 : ℕ
gdt_cs0 = 0x08

abbrev pub gdt_tss : ℕ
gdt_tss = 0x28

abbrev pub max_irq : ℕ
max_irq = 256

abbrev pub irq_int : ℕ
irq_int = 0x8E

abbrev pub irq_trap : ℕ
irq_trap = 0x8F

-- The bytes of `struct TSS`, which is packed.
abbrev pub tss_size : ℕ
tss_size = 4 + 4 + 2 + 2 + 24 * 4

pub record GdtEntry : Type 0 where
  pub low_limit : ℕ
  pub low_base : ℕ
  pub med_base : ℕ
  pub access : ℕ
  pub flags_limit : ℕ
  pub high_base : ℕ

pub record IdtEntry : Type 0 where
  pub isr_low : ℕ
  pub kernel_cs : ℕ
  pub reserved : ℕ
  pub attribs : ℕ
  pub isr_high : ℕ

pub record Dtr : Type 0 where
  pub size : ℕ
  pub offset : ℕ

-- The stores of `GDT_init`: the pointer to the table and the entry of the task state.
unfoldable pub gdt_init : ℕ → ℕ → GdtEntry → Dtr × GdtEntry
gdt_init gdt tss entry = (
  record { offset = gdt; size = gdt_tss + 8 },
  record entry {
    low_limit = tss_size;
    low_base = u16 (bit_and tss 0xFFFF);
    med_base = u8 (bit_and (tss / 2 ^ 16) 0xFF);
    high_base = u8 (tss / 2 ^ 24);
    access = 0x89;
  },
)

unfoldable pub idt_set_irq : ℕ → ℕ → ℕ → List IdtEntry → Outcome (List IdtEntry)
idt_set_irq vector isr flags idt = store idt (u8 vector) record {
  isr_low = u16 (bit_and isr 0xFFFF);
  kernel_cs = gdt_cs0;
  reserved = 0;
  attribs = u8 flags;
  isr_high = u16 (isr / 2 ^ 16);
}

-- The calls of `IDT_init` from the vector `n` on; the gate of vector 2 is an interrupt gate.
unfoldable pub idt_stubs : ℕ → ℕ → (ℕ → ℕ) → List IdtEntry → Outcome (List IdtEntry)
idt_stubs zero n isr_stub idt = ok idt
idt_stubs (suc left) n isr_stub idt = do
  idt ← idt_set_irq n (isr_stub n) (if n == 2 then irq_int else irq_trap) idt
  idt_stubs left (n + 1) isr_stub idt

unfoldable pub idt_init : ℕ → (ℕ → ℕ) → List IdtEntry → Outcome (Dtr × List IdtEntry)
idt_init address isr_stub idt = do
  idt ← idt_stubs 32 0 isr_stub idt
  ok (record { offset = address; size = u16 (8 * max_irq - 1) }, idt)
