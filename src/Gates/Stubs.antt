-- ===== src/Gates/Stubs.antt =====
-- The handlers `isr_stub0` to `isr_stub31` of stage3/x86/gdt.cc, which all end in a panic.
use Prim.Native.String.{String}
use Prim.Native.Char.{code}
use boot.Base.{
  ℕ, List, [], ◌∷◌, ◌++◌, Bool, true, false, if◌then◌else◌, get_elem?, some, none, fault,
}
use boot.Ports.{Device}
use boot.Panic
use boot.Panic.{Waiting}

abbrev codes : String → List ℕ
codes String.[] = []
codes (String.◌∷◌ c s) = code c ∷ codes s

-- Whether the processor gives an error code, and the text.
abbrev pub stubs : List (Bool × String)
stubs =
    (false, "Division By 0")
    ∷ (false, "Debug Trap")
    ∷ (false, "NMI")
    ∷ (false, "Breakpoint")
    ∷ (false, "Overflow")
    ∷ (false, "Bound Range Exceeded")
    ∷ (false, "Invalid Opcode")
    ∷ (false, "Device Not Available")
    ∷ (true, "Double Fault")
    ∷ (false, "Coprocessor Segment Overrun")
    ∷ (true, "Invalid TSS")
    ∷ (true, "Segment Not Present")
    ∷ (true, "Stack Segment Fault")
    ∷ (true, "General Protection Fault")
    ∷ (true, "Page Fault")
    ∷ (false, "Reserved 0xF")
    ∷ (false, "x87 Exception")
    ∷ (true, "Alignment Check")
    ∷ (false, "Machine Check")
    ∷ (false, "SIMD Exception")
    ∷ (false, "Virtualization Exception")
    ∷ (true, "Control Protection Exception")
    ∷ (false, "Reserved 0x16")
    ∷ (false, "Reserved 0x17")
    ∷ (false, "Reserved 0x18")
    ∷ (false, "Reserved 0x19")
    ∷ (false, "Reserved 0x1A")
    ∷ (false, "Reserved 0x1B")
    ∷ (false, "Hypervisor Injection Exception")
    ∷ (true, "VMM Communication Exception")
    ∷ (true, "Security Exception")
    ∷ (false, "Reserved 0x1F")
    ∷ []

abbrev pub stub_format : Bool → String → List ℕ
stub_format has_code msg =
    codes "Unexpected exception: "
    ++ codes msg
    ++ (if has_code then codes ", error code 0x%x" else [])
    ++ (0 ∷ [])

-- The handler for the exception `n`.
unfoldable pub isr_stub : ℕ → Device → (ℕ → ℕ) → ℕ → ℕ → Waiting
isr_stub fuel device memory n error_code = elim (get_elem? stubs n) [
  | none ↦ λ cpu. fault
  | some (has_code, msg) ↦
      Panic.panic fuel device memory (stub_format has_code msg)
        (if has_code then error_code ∷ [] else [])
]
