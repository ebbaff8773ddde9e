-- ===== src/Gates/Decode.antt =====
-- What the processor reads back from the tables.
use boot.Base.{
  ℕ, zero, suc, ◌+◌, ◌-◌, ◌*◌, ◌/◌, ◌%◌, ◌^◌, ◌≤◌, ◌<◌, ◌≡◌, ◌≢◌, refl, arith, List, length, get_or,
  set, bit_and, bit_and_low, ok, store_in_range, length-set, get_or-set_self, get_or-set_ne, ◌==◌,
  if◌then◌else◌,
}
use mathlib.Core.Path.{subst}
use boot.Gates.{
  IdtEntry, GdtEntry, gdt_init, idt_set_irq, idt_stubs, idt_init, irq_int, irq_trap, gdt_cs0,
}
use boot.Base.{ap, ◌∙◌, sym}
use native.Mathlib.Decide.{dec_lt}

abbrev pub gate_address : IdtEntry → ℕ
gate_address gate = gate.isr_high * 2 ^ 16 + gate.isr_low

abbrev pub segment_base : GdtEntry → ℕ
segment_base e = e.high_base * 2 ^ 24 + e.med_base * 2 ^ 16 + e.low_base

-- The gate of a vector is one for `isr` with the given type, and the others are as they were.
pub record IsGate (vector isr flags : ℕ) (idt : List IdtEntry) (none : IdtEntry) : Type 0 where
  pub address : gate_address (get_or idt vector none) ≡ isr
  pub attribs : (get_or idt vector none).attribs ≡ flags
  pub segment : (get_or idt vector none).kernel_cs ≡ gdt_cs0

-- `GDT_init` writes a descriptor whose base, put together from its three parts, is the 32-bit
-- address of the task state.
pub gdt_init-base :
    (gdt tss : ℕ) (entry : GdtEntry) → tss < 2 ^ 32 → segment_base (gdt_init gdt tss entry).1 ≡ tss
unfolding gdt_init
gdt_init-base gdt tss entry h = omega (arith, bit_and_low 16 tss, bit_and_low 8 (tss / 2 ^ 16))

-- For a vector below 256 inside the table, a 32-bit handler address and an 8-bit type,
-- `IDT_setIRQ` writes a gate of that vector that leads to the handler with that type, and no other
-- gate.
pub idt_set_irq-IsGate :
    (vector isr flags : ℕ) (idt : List IdtEntry) (none : IdtEntry)
    → vector < length idt
    → vector < 256
    → isr < 2 ^ 32
    → flags < 256
    → (idt' : List IdtEntry) × (idt_set_irq vector isr flags idt ≡ ok idt')
      × IsGate vector isr flags idt' none
      × (length idt' ≡ length idt)
      × ((i : ℕ) → i ≢ vector → get_or idt' i none ≡ get_or idt i none)
unfolding idt_set_irq
idt_set_irq-IsGate vector isr flags idt none h hv hi hf =
    let e : vector % 2 ^ 8 ≡ vector = omega arith in
    let low : bit_and isr 0xFFFF % 2 ^ 16 ≡ isr % 2 ^ 16 = omega (arith, bit_and_low 16 isr) in
    let gate : IdtEntry = record {
      isr_low = isr % 2 ^ 16;
      kernel_cs = gdt_cs0;
      reserved = 0;
      attribs = flags % 2 ^ 8;
      isr_high = isr / 2 ^ 16 % 2 ^ 16;
    } in
    let self = get_or-set_self idt vector gate none h in
    (
      set idt vector gate,
      rw (e, low) (store_in_range idt vector gate h),
      record {
        address = ap gate_address self ∙ omega arith;
        attribs = ap (λ g. g.attribs) self ∙ omega arith;
        segment = ap (λ g. g.kernel_cs) self;
      },
      length-set idt vector gate,
      λ i ne. get_or-set_ne idt vector i gate none (λ q. ne (sym q)),
    )

abbrev pub stub_type : ℕ → ℕ
stub_type n = if n == 2 then irq_int else irq_trap

pub stub_type_byte : (n : ℕ) → stub_type n < 256
stub_type_byte n = ground arith

-- The vectors from `n` to `n + count` have their handlers, and the other gates are the old ones.
pub record IsStubbed (count n : ℕ) (isr_stub : ℕ → ℕ) (none : IdtEntry) (old new : List IdtEntry)
    : Type 0 where
  pub same_length : length new ≡ length old
  pub inside : (i : ℕ) → n ≤ i → i < n + count → IsGate i (isr_stub i) (stub_type i) new none
  pub below : (i : ℕ) → i < n → get_or new i none ≡ get_or old i none
  pub above : (i : ℕ) → n + count ≤ i → get_or new i none ≡ get_or old i none

pub IsGate-moved :
    (vector isr flags : ℕ) (idt idt' : List IdtEntry) (none : IdtEntry)
    → get_or idt' vector none ≡ get_or idt vector none
    → IsGate vector isr flags idt none
    → IsGate vector isr flags idt' none
IsGate-moved vector isr flags idt idt' none e g = record {
  address = ap gate_address e ∙ g.address;
  attribs = ap (λ x. x.attribs) e ∙ g.attribs;
  segment = ap (λ x. x.kernel_cs) e ∙ g.segment;
}

idt_stubs-IsStubbed :
    (left n : ℕ) (isr_stub : ℕ → ℕ) (idt : List IdtEntry) (none : IdtEntry)
    → ((i : ℕ) → isr_stub i < 2 ^ 32)
    → n + left ≤ 256
    → length idt ≡ 256
    → (idt' : List IdtEntry) × (idt_stubs left n isr_stub idt ≡ ok idt')
      × IsStubbed left n isr_stub none idt idt'
unfolding idt_stubs
idt_stubs-IsStubbed zero n isr_stub idt none hs h hl = (
  idt,
  refl,
  record {
    same_length = refl;
    inside = λ i a b. absurd (omega arith);
    below = λ i a. refl;
    above = λ i a. refl;
  },
)
idt_stubs-IsStubbed (suc left) n isr_stub idt none hs h hl =
    let (one, e, g, l, others) =
      idt_set_irq-IsGate n (isr_stub n) (stub_type n) idt none (omega arith) (omega arith) (hs n)
        (stub_type_byte n) in
    let (idt', e', w) =
      idt_stubs-IsStubbed left (n + 1) isr_stub one none hs (omega arith) (l ∙ hl) in
    let inside : (i : ℕ)
        → n ≤ i
        → i < n + suc left
        → IsGate i (isr_stub i) (stub_type i) idt' none =
      λ i a b. elim (dec_lt n i) [
        | yes more ↦ w.inside i (omega arith) (omega arith)
        | no same ↦
            let z : i ≡ n = omega arith in
            subst (λ k. IsGate k (isr_stub k) (stub_type k) idt' none) (sym z)
              (IsGate-moved n (isr_stub n) (stub_type n) one idt' none (w.below n (omega arith)) g)
      ] in
    (
      idt',
      rw e e',
      record {
        same_length = w.same_length ∙ l;
        inside = inside;
        below = λ i a. w.below i (omega arith) ∙ others i (omega arith);
        above = λ i a. w.above i (omega arith) ∙ others i (omega arith);
      },
    )

-- `IDT_init` succeeds on a table of 256 gates with 32-bit handler addresses: the first 32 vectors
-- get their handlers, by a trap gate each and an interrupt gate for vector 2, the other gates stay
-- as they were, and the limit that the processor is given is the last byte of the table.
pub idt_init-IsStubbed :
    (address : ℕ) (isr_stub : ℕ → ℕ) (idt : List IdtEntry) (none : IdtEntry)
    → ((i : ℕ) → isr_stub i < 2 ^ 32)
    → length idt ≡ 256
    → (idt' : List IdtEntry) × (idt_init address isr_stub idt
        ≡ ok (record { offset = address; size = 8 * 256 - 1 }, idt'))
      × IsStubbed 32 0 isr_stub none idt idt'
unfolding idt_init
idt_init-IsStubbed address isr_stub idt none hs hl =
    let (idt', e, w) = idt_stubs-IsStubbed 32 0 isr_stub idt none hs (omega arith) hl in
    (idt', rw e refl, w)
