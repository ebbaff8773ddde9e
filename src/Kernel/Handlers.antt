-- ===== src/Kernel/Handlers.antt =====
-- The gates that the initializations leave.
use boot.Base.{ℕ, ◌-◌, ◌*◌, ◌^◌, ◌<◌, ◌≡◌, ◌∙◌, arith, List, length, ok, Ensures, Ensures-then}
use boot.Mmu.{Machine}
use boot.MemoryMap.{Smap32}
use boot.Gates.{IdtEntry, Dtr, idt_init, idt_set_irq, irq_int}
use boot.Gates.Decode.{IsGate, IsGate-moved, idt_init-IsStubbed, idt_set_irq-IsGate, stub_type}
use boot.PageTable.{page_table, activate}
use boot.Pmm.{pmm_init}
use boot.Cpuid.{cpuid, cpuid_init}
use boot.Mtrr.{mtrr_init}
use boot.Kmalloc.{lift, assert-Ensures}
use boot.Kernel.Setup.{Environment, State, set_com1, setup}

-- The handlers have 32-bit addresses.
pub record IsPlaced (env : Environment) : Type 0 where
  pub stubs : (i : ℕ) → env.isr_stub i < 2 ^ 32
  pub com1 : env.com1_isr < 2 ^ 32
  pub irq7 : env.spurious_irq7_isr < 2 ^ 32
  pub irq15 : env.spurious_irq15_isr < 2 ^ 32

-- The gates of the exceptions and of the three interrupts. `none` stands for a gate out of range.
pub record IsGated (env : Environment) (none : IdtEntry) (idt : List IdtEntry) : Type 0 where
  pub exceptions : (i : ℕ) → i < 32 → IsGate i (env.isr_stub i) (stub_type i) idt none
  pub com1 : IsGate 0x24 env.com1_isr irq_int idt none
  pub irq7 : IsGate 0x27 env.spurious_irq7_isr irq_int idt none
  pub irq15 : IsGate 0x2F env.spurious_irq15_isr irq_int idt none

-- The calls that fill the table, one after another.
record Filled (env : Environment) (none : IdtEntry) (idt : List IdtEntry) : Type 0 where
  idtr : Dtr
  idt1 : List IdtEntry
  idt2 : List IdtEntry
  idt3 : List IdtEntry
  idt4 : List IdtEntry
  first : idt_init env.idt env.isr_stub idt ≡ ok (idtr, idt1)
  second : idt_set_irq 0x24 env.com1_isr irq_int idt1 ≡ ok idt2
  third : idt_set_irq 0x27 env.spurious_irq7_isr irq_int idt2 ≡ ok idt3
  fourth : idt_set_irq 0x2F env.spurious_irq15_isr irq_int idt3 ≡ ok idt4
  gated : IsGated env none idt4

filled :
    (env : Environment) (none : IdtEntry) (idt : List IdtEntry)
    → IsPlaced env
    → length idt ≡ 256
    → Filled env none idt
filled env none idt placed len =
    let (idt1, e1, w) = idt_init-IsStubbed env.idt env.isr_stub idt none placed.stubs len in
    let n1 : length idt1 ≡ 256 = w.same_length ∙ len in
    let (idt2, e2, g2, l2, o2) =
      idt_set_irq-IsGate 0x24 env.com1_isr irq_int idt1 none (omega arith) (omega arith) placed.com1
        (omega arith) in
    let n2 : length idt2 ≡ 256 = l2 ∙ n1 in
    let (idt3, e3, g3, l3, o3) =
      idt_set_irq-IsGate 0x27 env.spurious_irq7_isr irq_int idt2 none (omega arith) (omega arith)
        placed.irq7 (omega arith) in
    let n3 : length idt3 ≡ 256 = l3 ∙ n2 in
    let (idt4, e4, g4, l4, o4) =
      idt_set_irq-IsGate 0x2F env.spurious_irq15_isr irq_int idt3 none (omega arith) (omega arith)
        placed.irq15 (omega arith) in
    record {
      idt1 = idt1;
      idt2 = idt2;
      idt3 = idt3;
      idt4 = idt4;
      idtr = record { offset = env.idt; size = 8 * 256 - 1 };
      first = e1;
      second = e2;
      third = e3;
      fourth = e4;
      gated = record {
        exceptions = λ i h.
            IsGate-moved i (env.isr_stub i) (stub_type i) idt1 idt4 none
              (o4 i (omega arith) ∙ (o3 i (omega arith) ∙ o2 i (omega arith)))
              (w.inside i (omega arith) (omega arith));
        com1 =
            IsGate-moved 0x24 env.com1_isr irq_int idt2 idt4 none
              (o4 0x24 (omega arith) ∙ o3 0x24 (omega arith)) g2;
        irq7 =
            IsGate-moved 0x27 env.spurious_irq7_isr irq_int idt3 idt4 none (o4 0x27 (omega arith))
              g3;
        irq15 = g4;
      };
    }

-- When the initializations of `kmain` are done, every exception has its stub, and the interrupts of
-- COM1 and of the spurious lines 7 and 15 have their handlers, by interrupt gates: no call undoes
-- one before it.
pub setup-IsGated :
    (env : Environment) (e820 : List Smap32) (s : State) (m : Machine) (none : IdtEntry)
    → IsPlaced env
    → length s.idt ≡ 256
    → Ensures (λ (s', m'). IsGated env none s'.idt) (setup env e820 s m)
unfolding setup
setup-IsGated env e820 s m none placed len =
    let Result : State × Machine → Type 0 = λ (s', m'). IsGated env none s'.idt in
    let w = filled env none s.idt placed len in
    Ensures-then Result (page_table 0xFFFF_F000 m) _ (λ (pt, m1).
      Ensures-then Result (activate pt m1) _ (λ (pt, m2).
        Ensures-then Result (pmm_init env.curr_pages e820 s.pmm m2) _ (λ (pmm, m3). rw w.first (
          rw w.second (
            rw w.third (
              rw w.fourth (
                Ensures-then Result
                  (lift (mtrr_init (cpuid (cpuid_init env.get_cpuid s.cpuid)) env.rdmsr s.mtrr) m3)
                  _
                  (λ (mtrr, m4).
                    assert-Ensures Result (set_com1 env s).0 _ m4 (λ t. w.gated)))))))))
