-- ===== src/Serial/Stream.antt =====
-- The port as a stream: writers append, the interrupt handler sends, in any order of calls.
use boot.Base.{
  ℕ, zero, suc, ◌+◌, ◌^◌, ◌≤◌, ◌<◌, ◌≡◌, refl, ◌∙◌, ap, List, [], ◌∷◌, ◌++◌, arith, min, map,
}
use boot.Base.{length, take, drop, ok, if◌then◌else◌, ◌==◌, u8, u16, sym, ==_iff, length-drop, ◌-◌}
use boot.Ports.{Cpu, Access, wrote, read, rep_outsb, outb}
use boot.RingBuf.{head, buf_elements}
use boot.RingBuf.FirstLap.{buf_elements-waiting, head_written}
use boot.Serial.{Serial, serial_bufsize, ser_write, ser_flush}
use boot.Serial.Contents.{IsHolding, length-waiting}
use boot.Serial.Write.{due, ser_write-appends}
use boot.Serial.Flush.{ser_flush-sends}
use mathlib.Core.List.{append-nil, append_assoc, map-append}
use boot.Base.{length-append, length-take}

-- What went out at a port, oldest first.
unfoldable pub transmitted : ℕ → List Access → List ℕ
transmitted port [] = []
transmitted port (wrote p v ∷ older) =
    if p == port then transmitted port older ++ (v ∷ []) else transmitted port older
transmitted port (read p v ∷ older) = transmitted port older

-- The port, the processor, and all bytes that `ser_write` said it took.
pub record Line : Type 0 where
  pub port : Serial
  pub cpu : Cpu
  pub accepted : List ℕ

abbrev pub line : Serial → Cpu → List ℕ → Line
line port cpu accepted = record { port = port; cpu = cpu; accepted = accepted }

-- A writer asks for less than what is free, and the counts stay below 0x8000.
pub data Step : Line → Line → Type 0 where
  write :
      {port out : Serial} {cpu cpu' : Cpu} {accepted : List ℕ} (bytes : List ℕ) (n count : ℕ)
      → n ≤ length bytes
      → buf_elements port.hdr + n < serial_bufsize
      → head port.hdr + n < 2 ^ 15
      → ser_write port bytes n cpu ≡ ok (count, out, cpu')
      → Step (line port cpu accepted) (line out cpu' (accepted ++ take count bytes))
  interrupt :
      {port out : Serial} {cpu cpu' : Cpu} {accepted : List ℕ}
      → ser_flush port cpu ≡ ok (out, cpu')
      → Step (line port cpu accepted) (line out cpu' accepted)

pub data Reach (l : Line) : Line → Type 0 where
  here : Reach l l
  next : {m n : Line} → Reach l m → Step m n → Reach l n

transmitted-rep_outsb :
    (p : ℕ) (xs : List ℕ) (cpu : Cpu)
    → p < 2 ^ 15
    → transmitted p (rep_outsb p xs cpu).accesses ≡ transmitted p cpu.accesses ++ map u8 xs
unfolding transmitted
transmitted-rep_outsb p [] cpu h = sym (append-nil (transmitted p cpu.accesses))
transmitted-rep_outsb p (x ∷ xs) cpu h =
    transmitted-rep_outsb p xs (outb p x cpu) h
    ∙ rw ((==_iff (u16 p) p).1 (omega arith))
        (append_assoc (transmitted p cpu.accesses) (u8 x ∷ []) (map u8 xs))

-- Sent and waiting bytes together are the accepted ones.
pub record IsStream (base : ℕ) (l : Line) : Type 0 where
  pub written : ℕ
  pub taken : ℕ
  pub waiting : List ℕ
  pub same_port : l.port.port ≡ base
  pub holding : IsHolding l.port written taken waiting
  pub in_order : transmitted base l.cpu.accesses ++ map u8 waiting ≡ map u8 l.accepted

take-append-drop : (n : ℕ) (xs : List ℕ) → take n xs ++ drop n xs ≡ xs
take-append-drop zero xs = refl
take-append-drop (suc n) [] = refl
take-append-drop (suc n) (x ∷ xs) = ap (λ t. x ∷ t) (take-append-drop n xs)

-- Sending the first `m` of the waiting bytes moves them from one part to the other.
send_moves :
    (base m : ℕ) (cpu : Cpu) (waiting accepted : List ℕ)
    → base < 2 ^ 15
    → transmitted base cpu.accesses ++ map u8 waiting ≡ map u8 accepted
    → transmitted base (rep_outsb base (take m waiting) cpu).accesses ++ map u8 (drop m waiting)
      ≡ map u8 accepted
send_moves base m cpu waiting accepted small e =
    ap (λ s. s ++ map u8 (drop m waiting)) (transmitted-rep_outsb base (take m waiting) cpu small)
    ∙ (append_assoc (transmitted base cpu.accesses) (map u8 (take m waiting))
          (map u8 (drop m waiting))
        ∙ (ap (λ s. transmitted base cpu.accesses ++ s)
              (sym (map-append u8 (take m waiting) (drop m waiting))
                ∙ ap (map u8) (take-append-drop m waiting))
            ∙ e))

-- Bytes that join both the waiting and the accepted ones leave the order as it is.
join_both :
    (sent waiting accepted new : List ℕ)
    → sent ++ map u8 waiting ≡ map u8 accepted
    → sent ++ map u8 (waiting ++ new) ≡ map u8 (accepted ++ new)
join_both sent waiting accepted new e =
    ap (λ s. sent ++ s) (map-append u8 waiting new)
    ∙ (sym (append_assoc sent (map u8 waiting) (map u8 new))
        ∙ (ap (λ s. s ++ map u8 new) e ∙ sym (map-append u8 accepted new)))

-- A write that fits takes all its bytes, and at most these join the waiting ones.
pub ser_write-IsStream :
    {base : ℕ} {port : Serial} {cpu : Cpu} {accepted : List ℕ}
    → base < 2 ^ 15
    → (s : IsStream base (line port cpu accepted)) (bytes : List ℕ) (n : ℕ) → n ≤ length bytes
    → length s.waiting + n < serial_bufsize
    → s.written + n < 2 ^ 15
    → (out : Serial) × (cpu' : Cpu) × (ser_write port bytes n cpu ≡ ok (n, out, cpu'))
      × (s' : IsStream base (line out cpu' (accepted ++ take n bytes))) × (s'.written
          ≡ s.written + n)
      × (length s'.waiting ≤ length s.waiting + n)
ser_write-IsStream {base} {port} {cpu} {accepted} small s bytes n enough fits lap =
    let all = s.waiting ++ take n bytes in
    let m = due port all in
    let (out, runs, holding, same) = ser_write-appends s.holding bytes n enough fits lap cpu in
    (
      out,
      rep_outsb port.port (take m all) cpu,
      runs,
      record {
        written = s.written + n;
        taken = s.taken + m;
        waiting = drop m all;
        same_port = same ∙ s.same_port;
        holding = holding;
        in_order = rw s.same_port (
            send_moves base m cpu all (accepted ++ take n bytes) small (
              join_both (transmitted base cpu.accesses) s.waiting accepted (take n bytes)
                s.in_order));
      },
      refl,
      omega (arith, length-drop m all, length-append s.waiting (take n bytes), length-take n bytes),
    )

-- An interrupt sends up to 16 of the waiting bytes.
pub ser_flush-IsStream :
    {base : ℕ} {port : Serial} {cpu : Cpu} {accepted : List ℕ}
    → base < 2 ^ 15
    → (s : IsStream base (line port cpu accepted))
    → (out : Serial) × (cpu' : Cpu) × (ser_flush port cpu ≡ ok (out, cpu'))
      × (s' : IsStream base (line out cpu' accepted)) × (s'.written ≡ s.written)
      × (length s'.waiting ≡ length s.waiting - 16)
ser_flush-IsStream {base} {port} {cpu} {accepted} small s =
    let m = min 16 (length s.waiting) in
    let (out, runs, holding, flag, same) = ser_flush-sends s.holding cpu in
    (
      out,
      rep_outsb port.port (take m s.waiting) cpu,
      runs,
      record {
        written = s.written;
        taken = s.taken + m;
        waiting = drop m s.waiting;
        same_port = same ∙ s.same_port;
        holding = holding;
        in_order = rw s.same_port (send_moves base m cpu s.waiting accepted small s.in_order);
      },
      refl,
      omega (arith, length-drop m s.waiting),
    )

Step-IsStream :
    {base : ℕ} {l m : Line} → base < 2 ^ 15 → Step l m → IsStream base l → IsStream base m
Step-IsStream {base} small
      (write {port} {out} {cpu} {cpu'} {accepted} bytes n count enough room lap runs) s =
    let (out', cpu'', runs', s', w, k) =
      ser_write-IsStream small s bytes n enough
        (omega (arith, buf_elements-waiting s.holding.counting, length-waiting s.holding))
        (omega (arith, head_written s.holding.counting)) in
    let e = sym runs ∙ runs' in
    let e0 : count ≡ n = cc e in
    let e1 : out ≡ out' = cc e in let e2 : cpu' ≡ cpu'' = cc e in rw (e0, e1, e2) s'
Step-IsStream {base} small (interrupt {port} {out} {cpu} {cpu'} {accepted} runs) s =
    let (out', cpu'', runs', s', w, k) = ser_flush-IsStream small s in
    let e = sym runs ∙ runs' in
    let e1 : out ≡ out' = cc e in let e2 : cpu' ≡ cpu'' = cc e in rw (e1, e2) s'

-- From a port below 0x8000 on whose sent bytes followed by its waiting ones are the accepted ones,
-- whatever calls of `ser_write` and interrupts come in whatever order: the bytes that went out at
-- the port, followed by those that wait in the ring, are still exactly the bytes that `ser_write`
-- took, in order, so that none is lost, repeated or overtaken. The writers ask for less than what
-- is free, and the counts stay below 0x8000.
pub Reach-IsStream :
    {base : ℕ} {l m : Line} → base < 2 ^ 15 → IsStream base l → Reach l m → IsStream base m
Reach-IsStream small s here = s
Reach-IsStream small s (next r st) = Step-IsStream small st (Reach-IsStream small s r)
