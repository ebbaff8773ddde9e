-- ===== src/Kernel/Printed.antt =====
-- What the kernel prints of its memory map reaches COM1.
use boot.Base.{
  ℕ, zero, suc, ◌+◌, ◌-◌, ◌*◌, ◌^◌, ◌<◌, ◌≤◌, ◌≡◌, ◌≢◌, refl, ◌∙◌, ap, sym, arith, List, [], ◌∷◌,
  ◌++◌, length, take, drop, Outcome, ok, ne→==_false, lt→ltb, u16, sub32,
}
use mathlib.Core.List.{append-nil, append_assoc}
use boot.Ports.{Cpu, Access}
use boot.Serial.{Serial, serial_bufsize}
use boot.Serial.Stream.{IsStream, line, transmitted, ser_write-IsStream, ser_flush-IsStream}
use boot.Isrs.{com1_isr, pic_com1}
use boot.Pic.{pic_eoi, pic1_cmd}
use boot.Console.{kprint_serial}
use boot.MemoryMap.{Smap32}
use boot.Kernel.Printing.{header, interrupts, print_text, print_regions, print_map, print_bytes}
use boot.Kernel.Texts.{
  IsText, strlen-text, region_line, put_region-region_line, region_text-first_region, header-IsText,
  IsTyped, region_line-IsText,
}
use boot.Kernel.Texts.{first_region}

take-length : (xs : List ℕ) → take (length xs) xs ≡ xs
take-length [] = refl
take-length (x ∷ xs) = ap (λ t. x ∷ t) (take-length xs)

-- The lines of a memory map.
abbrev pub map_lines : List Smap32 → List ℕ
map_lines [] = []
map_lines (r ∷ e820) = region_line r ++ map_lines e820

abbrev pub AllTyped : List Smap32 → Type 0
AllTyped [] = Unit
AllTyped (r ∷ e820) = IsTyped r × AllTyped e820

module _ (base : ℕ) where
  -- A run that returns a stream of these bytes, of which `count` passed the ring and at most `most`
  -- wait.
  pub record Streamed (run : Outcome (Serial × Cpu)) (accepted : List ℕ) (count most : ℕ)
      : Type 0 where
    pub out : Serial
    pub after : Cpu
    pub runs : run ≡ ok (out, after)
    pub stream : IsStream base (line out after accepted)
    pub counted : stream.written ≡ count
    pub few : length stream.waiting ≤ most

  module _ (small : base < 2 ^ 15) (apart : base ≢ pic1_cmd) where
    -- The end of the interrupt goes to another port.
    com1_isr-Streamed :
        {com1 : Serial} {cpu : Cpu} {accepted : List ℕ}
        → (s : IsStream base (line com1 cpu accepted))
        → Streamed (com1_isr com1 cpu) accepted s.written (length s.waiting - 16)
    unfolding com1_isr pic_eoi transmitted
    com1_isr-Streamed {com1} {cpu} s =
        let (out, cpu', runs, s', w, l) = ser_flush-IsStream small s in
        let other = ne→==_false pic1_cmd base (λ e. apart (sym e)) in
        record {
          out = out;
          after = pic_eoi pic_com1 cpu';
          runs = rw runs refl;
          stream = record {
            written = s'.written;
            taken = s'.taken;
            waiting = s'.waiting;
            same_port = s'.same_port;
            holding = s'.holding;
            in_order = rw other s'.in_order;
          };
          counted = w;
          few = omega (arith, l);
        }

    interrupts-Streamed :
        (k : ℕ) {com1 : Serial} {cpu : Cpu} {accepted : List ℕ}
        → (s : IsStream base (line com1 cpu accepted))
        → Streamed (interrupts k com1 cpu) accepted s.written (length s.waiting - 16 * k)
    unfolding interrupts
    interrupts-Streamed zero {com1} {cpu} s = record {
      out = com1;
      after = cpu;
      runs = refl;
      stream = s;
      counted = refl;
      few = omega arith;
    }
    interrupts-Streamed (suc k) s =
        let a = com1_isr-Streamed s in
        let b = interrupts-Streamed k a.stream in
        record {
          out = b.out;
          after = b.after;
          runs = rw a.runs b.runs;
          stream = b.stream;
          counted = b.counted ∙ a.counted;
          few = omega (arith, a.few, b.few);
        }

    module _ (fuel str : ℕ) (halt : Serial → Cpu → Outcome (Serial × Cpu))
        (gap : List Access → ℕ) where
      kprint_serial-nothing :
          (left : ℕ) (xs : List ℕ) (com1 : Serial) (cpu : Cpu)
          → kprint_serial left halt xs 0 com1 cpu ≡ ok (xs, com1, cpu)
      unfolding kprint_serial
      kprint_serial-nothing zero xs com1 cpu = refl
      kprint_serial-nothing (suc left) xs com1 cpu = refl

      -- A text that fits behind the bytes that still wait is taken in one round.
      print_text-Streamed :
          (text : List ℕ) {com1 : Serial} {cpu : Cpu} {accepted : List ℕ}
          → (s : IsStream base (line com1 cpu accepted)) → IsText text
          → 0 < length text
          → length s.waiting - 16 * gap cpu.accesses + length text < serial_bufsize
          → s.written + length text < 2 ^ 15
          → Streamed
              (print_text (suc fuel) str halt gap text com1 cpu)
              (accepted ++ text)
              (s.written + length text)
              63
      unfolding print_text print_bytes kprint_serial
      print_text-Streamed text {com1} {cpu} {accepted} s t some_text fits lap =
          let n = length text in
          let a = interrupts-Streamed (gap cpu.accesses) s in
          let (out, cpu', runs, s', w, l) =
            ser_write-IsStream small a.stream text n (omega arith) (omega (arith, a.few))
              (omega (arith, a.counted)) in
          let z : u16 (sub32 n n) ≡ 0 = omega arith in
          let streamed : Streamed (print_text (suc fuel) str halt gap text com1 cpu)
              (accepted ++ take n text) (s.written + n) 63 =
            record {
              out = out;
              after = cpu';
              runs =
                  rw
                    (
                      print_text,
                      strlen-text str text t (omega arith),
                      print_bytes,
                      a.runs,
                      kprint_serial,
                      lt→ltb 0 n some_text,
                      runs,
                      ne→==_false n 0 (omega arith),
                      z,
                      kprint_serial-nothing fuel (drop n text) out cpu',
                    )
                    refl;
              stream = s';
              counted = omega (arith, w, a.counted);
              few = omega (arith, l, a.few);
            } in
          rw (take-length text) at streamed

      module _ (often : (accesses : List Access) → 2 ≤ gap accesses) where
        print_regions-Streamed :
            (old : Smap32) (e820 : List Smap32) {com1 : Serial} {cpu : Cpu} {accepted : List ℕ}
            → (s : IsStream base (line com1 cpu accepted)) → AllTyped e820
            → length s.waiting < serial_bufsize
            → s.written + 30 * length e820 < 2 ^ 15
            → Streamed
                (print_regions (suc fuel) str halt gap (region_line old) e820 com1 cpu)
                (accepted ++ map_lines e820)
                (s.written + 30 * length e820)
                63
        unfolding print_regions
        print_regions-Streamed old [] {com1} {cpu} {accepted} s typed room lap =
            rw (append-nil accepted) (record {
              out = com1;
              after = cpu;
              runs = refl;
              stream = s;
              counted = omega arith;
              few = omega arith;
            })
        print_regions-Streamed old (r ∷ e820) {com1} {cpu} {accepted} s typed room lap =
            let b =
              print_text-Streamed (region_line r) s (region_line-IsText r typed.0) (omega arith)
                (omega (arith, often cpu.accesses)) (omega arith) in
            let c =
              print_regions-Streamed r e820 b.stream typed.1 (omega (arith, b.few))
                (omega (arith, b.counted)) in
            let all : Streamed
                (print_regions (suc fuel) str halt gap (region_line old) (r ∷ e820) com1 cpu)
                ((accepted ++ region_line r) ++ map_lines e820) (s.written + 30 * length (r ∷ e820))
                63 =
              record {
                out = c.out;
                after = c.after;
                runs = rw (print_regions, put_region-region_line old r, b.runs) c.runs;
                stream = c.stream;
                counted = omega (arith, b.counted, c.counted);
                few = c.few;
              } in
            rw (append_assoc accepted (region_line r) (map_lines e820)) at all

        -- From a port below 0x8000 that is not the command port of the first interrupt controller,
        -- whose sent bytes followed by its waiting ones, at most 62, are the accepted ones: when at
        -- least two interrupts of COM1 come before each text, the type of each region gives a
        -- character that is not zero, and the count of written bytes stays below 0x8000, printing
        -- the memory map returns. The bytes that went out, followed by those that still wait, are
        -- then those accepted before, the header, and for each region in order the line of its base
        -- and its length in hexadecimal digits and of its type.
        pub print_map-Streamed :
            (e820 : List Smap32) {com1 : Serial} {cpu : Cpu} {accepted : List ℕ}
            → (s : IsStream base (line com1 cpu accepted)) → AllTyped e820
            → length s.waiting ≤ 62
            → s.written + 33 + 30 * length e820 < 2 ^ 15
            → Streamed
                (print_map (suc fuel) str halt gap e820 com1 cpu)
                ((accepted ++ header) ++ map_lines e820)
                (s.written + 33 + 30 * length e820)
                63
        unfolding print_map
        print_map-Streamed e820 {com1} {cpu} s typed room lap =
            let a =
              print_text-Streamed header s header-IsText (omega arith)
                (omega (arith, often cpu.accesses)) (omega arith) in
            let c =
              print_regions-Streamed first_region e820 a.stream typed (omega (arith, a.few))
                (omega (arith, a.counted)) in
            record {
              out = c.out;
              after = c.after;
              runs = rw (print_map, a.runs, region_text-first_region) c.runs;
              stream = c.stream;
              counted = omega (arith, a.counted, c.counted);
              few = c.few;
            }
