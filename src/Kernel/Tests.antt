-- ===== src/Kernel/Tests.antt =====
-- A directory at the frame 4, an empty interrupt table, and COM1 as `ser_init` leaves it.
use boot.Base.{ℕ, ◌+◌, ◌*◌, ◌^◌, [], Ensures, ◌&&◌, ◌==◌, if◌then◌else◌}
use boot.Mmu.{Machine}
use boot.Base.{refl, arith, replicate}
use boot.Gates.{IdtEntry, GdtEntry}
use boot.Kernel.Setup.{Environment, State, setup}
use boot.Serial.{Serial}
use boot.Ports.{Cpu}
use boot.Serial.Stream.{transmitted}
use boot.MemoryMap.{Smap32}
use boot.Base.{Outcome, ok, ◌++◌, ◌∷◌, List}
use boot.Kernel.Printing.{header, print_map}
use boot.Kernel.Printed.{Streamed, map_lines, print_map-Streamed}
use boot.Kernel.Handlers.{IsPlaced, IsGated, setup-IsGated}

abbrev words : ℕ → ℕ → ℕ
words f i =
    if f == 4 && i == 1023
    then 4 * 2 ^ 12 + 3
    else if f == 4 && i == 0
    then 6 * 2 ^ 12 + 3
    else 5 * 2 ^ 12 + 3

abbrev machine : Machine
machine = record { frames = words; cr3 = 4; flushed = [] }

abbrev no_gate : IdtEntry
no_gate = record { isr_low = 0; kernel_cs = 0; reserved = 0; attribs = 0; isr_high = 0 }

abbrev no_segment : GdtEntry
no_segment = record {
  low_limit = 0;
  low_base = 0;
  med_base = 0;
  access = 0;
  flags_limit = 0;
  high_base = 0;
}

abbrev env : Environment
env = record {
  gdt = 0xC010_0000;
  tss = 0xC010_1000;
  idt = 0xC010_2000;
  isr_stub = λ n. 0xC000_0000;
  com1_isr = 0xC000_1000;
  spurious_irq7_isr = 0xC000_2000;
  spurious_irq15_isr = 0xC000_3000;
  curr_pages = 0x1000;
  get_cpuid = 0;
  rdmsr = λ r. 0;
  device = λ accesses port. 0xAE;
}

abbrev initial : State
initial = record {
  gdtr = record { size = 0; offset = 0 };
  tss_entry = no_segment;
  idtr = record { size = 0; offset = 0 };
  idt = replicate 256 no_gate;
  pt = record { vaddr = 0; paddr = 0 };
  pmm = record { pcount = 0; pfree = 0; pidx = 0 };
  cpu = record { eflags = 2; accesses = [] };
  cpuid = record { features = 0 };
  mtrr = record { mtrrcap = 0; var_mtrrs = []; fix_mtrrs = [] };
  com1 = record { port = 0; speed = 0; fifo_empty = 0; hdr = 0; buffer = replicate 64 0 };
}

env-IsPlaced : IsPlaced env
env-IsPlaced = record {
  stubs = λ i. omega arith;
  com1 = omega arith;
  irq7 = omega arith;
  irq15 = omega arith;
}

setup-IsGated_example :
    Ensures (λ (s', m'). IsGated env no_gate s'.idt) (setup env [] initial machine)
setup-IsGated_example = setup-IsGated env [] initial machine no_gate env-IsPlaced refl

-- COM1 as `ser_init` leaves it, and a map of one region.
abbrev fresh : Serial
fresh = record { port = 0x3F8; speed = 1; fifo_empty = 0; hdr = 0; buffer = replicate 64 0 }

abbrev started : Cpu
started = record { eflags = 0x202; accesses = [] }

abbrev low_memory : List Smap32
low_memory = record { base = 0; length = 0x9_FC00; type = 1; acpi = 0 } ∷ []

abbrev asleep : Serial → Cpu → Outcome (Serial × Cpu)
asleep com1 cpu = ok (com1, cpu)

print_map-Streamed_example :
    Streamed 0x3F8
      (print_map 1 0x1000 asleep (λ accesses. 2) low_memory fresh started)
      (([] ++ header) ++ map_lines low_memory)
      63
      63
unfolding transmitted
print_map-Streamed_example =
    print_map-Streamed 0x3F8 (omega arith) (λ e. absurd (omega (arith, e))) 0 0x1000 asleep
      (λ accesses. 2) (λ accesses. omega arith) low_memory {accepted = []}
      (record {
        written = 0;
        taken = 0;
        waiting = [];
        same_port = refl;
        holding = record { counting = omega arith; sized = refl; wide = omega arith; holds = refl };
        in_order = refl;
      })
      (omega arith, tt) (omega arith) (omega arith)
