-- ===== src/Kernel/Main.antt =====
-- `kmain` of stage3/kmain.cpp, from its parts. The screen is apart from it.
use boot.Base.{ℕ, List, false, Outcome, Ensures, Ensures-then}
use boot.Mmu.{Cmd, ◌>>=◌, Machine}
use boot.Ports.{Cpu, Access}
use boot.Serial.{Serial}
use boot.Kmalloc.{Kmalloc, lift, assert}
use boot.MemoryMap.{Smap32}
use boot.Acpi.Init.{acpi_init_fixed}
use boot.Kernel.{test_vaddrs, test_pages}
use boot.Kernel.Setup.{Environment, State, setup}
use boot.Kernel.Printing.{print_map, print_free, print_error, print_cpuid}

-- COM1 and the processor.
abbrev Console : Type 0
Console = Serial × Cpu

-- `memory` is what the address space shows, `cpuid_flags` and `rsdp_sig` are the addresses of
-- constant texts, and `memcpy` copies between pages.
module _ (fuel str : ℕ) (halt : Serial → Cpu → Outcome (Serial × Cpu)) (gap : List Access → ℕ)
    (memory : ℕ → ℕ) (cpuid_flags rsdp_sig : ℕ) (memcpy : ℕ → ℕ → ℕ → Cmd (Unit {0})) where
  abbrev pub report : ℕ → Console → Cmd Console
  report temp_page (com1, cpu) = lift (print_error fuel str halt gap temp_page com1 cpu)

  abbrev pub show_free : ℕ → Console → Cmd Console
  show_free free_pages (com1, cpu) = lift (print_free fuel str halt gap free_pages com1 cpu)

  unfoldable pub kmain : Environment → List Smap32 → State → Kmalloc → Cmd (Unit {0})
  kmain env e820 s k = do
    s ← setup env e820 s
    (com1, cpu) ← lift (print_map fuel str halt gap e820 s.com1 s.cpu)
    k ← test_vaddrs env.curr_pages (record k { pmm = s.pmm })
    (pmm, (com1, cpu)) ← test_pages env.curr_pages report show_free k.pmm (com1, cpu)
    (com1, cpu) ← lift (print_cpuid fuel str halt gap memory cpuid_flags s.cpuid com1 cpu)
    (fixed, k) ← acpi_init_fixed memcpy env.curr_pages memory rsdp_sig (record k { pmm = pmm })
    assert false

  -- `kmain` does not return: it ends in a panic or a fault.
  pub kmain_stops :
      (env : Environment) (e820 : List Smap32) (s : State) (k : Kmalloc) (m : Machine)
      → Ensures (λ r. ⊥) (kmain env e820 s k m)
  unfolding kmain
  kmain_stops env e820 s k m =
      let Never : Unit {0} × Machine → Type 0 = λ r. ⊥ in
      Ensures-then Never (setup env e820 s m) _ (λ (s, m).
        Ensures-then Never (lift (print_map fuel str halt gap e820 s.com1 s.cpu) m) _ (λ (c, m).
          Ensures-then Never (test_vaddrs env.curr_pages (record k { pmm = s.pmm }) m) _ (λ (k, m).
            Ensures-then Never (test_pages env.curr_pages report show_free k.pmm c m) _ (λ (r, m).
              Ensures-then Never
                (lift (print_cpuid fuel str halt gap memory cpuid_flags s.cpuid r.1.0 r.1.1) m) _
                (λ (c, m).
                  Ensures-then Never
                    (acpi_init_fixed memcpy env.curr_pages memory rsdp_sig (record k { pmm = r.0 })
                      m)
                    _ (λ (f, m). tt))))))
