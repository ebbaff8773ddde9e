-- ===== src/Serial/Write.antt =====
-- `ser_write`: bytes join the waiting ones, and go out at once when the transmitter is idle.
use boot.Base.{ℕ, ◌+◌, ◌-◌, ◌%◌, ◌^◌, ◌≤◌, ◌<◌, ◌≡◌, refl, ◌∙◌, List, [], ◌∷◌, ◌++◌, arith, drop}
use boot.Base.{length, take, ok, le→ltb_false, if◌then◌else◌, ◌≢◌, fault, min, ◌==◌, ==_iff, ap}
use boot.Ports.{Cpu, rep_outsb, outb, cli, restore_intr}
use boot.RingBuf.{buf_write, buf_write_commit, buf_elements}
use boot.RingBuf.FirstLap.{buf_elements-waiting, buf_write-room, buf_write_commit-IsCounting}
use boot.Serial.{Serial, serial_bufsize, ser_room, ser_write, ser_append}
use boot.Serial.Contents.{window, IsHolding, window-append, window_ext, window_of}
use boot.Serial.Contents.{length-waiting}
use boot.Serial.Append.{Appended, ser_append-Appended}
use boot.Base.{length-take, sym, get_or-take, ne→==_false, lt→ltb, sub32}
use mathlib.Core.Path.{ap₂}
use native.Mathlib.Decide.{ℕ_discrete}
use boot.Serial.Flush.{ser_flush-sends}
use native.Mathlib.Nat.{add-zero}

-- Interrupts are off during the transmission and as before after it.
restore_rep_outsb :
    (p : ℕ) (xs : List ℕ) (cpu : Cpu)
    → restore_intr cpu.eflags (rep_outsb p xs (cli cpu)) ≡ rep_outsb p xs cpu
restore_rep_outsb p [] cpu = refl
restore_rep_outsb p (x ∷ xs) cpu = restore_rep_outsb p xs (outb p x cpu)

module _ {port : Serial} {w t : ℕ} {waiting : List ℕ} (g : IsHolding port w t waiting)
    (bytes : List ℕ) (n : ℕ) (enough : n ≤ length bytes)
    (fits : length waiting + n < serial_bufsize) (lap : w + n < 2 ^ 15) (cpu : Cpu) where
  waiting_len : length waiting ≡ w - t
  waiting_len = length-waiting g

  ser_room_lem : ser_room port n ≡ n
  ser_room_lem = rw (buf_elements-waiting g.counting) (ground (arith, waiting_len))

  buf_write_lem : buf_write port.hdr serial_bufsize n ≡ (w % serial_bufsize, port.hdr)
  buf_write_lem =
      rw (buf_write-room g.counting n, le→ltb_false (63 - (w - t)) n (omega (arith, waiting_len)))
        refl

  -- The port with the bytes in its ring.
  abbrev appended : List ℕ → Serial
  appended b = record port { hdr = buf_write_commit port.hdr n; buffer = b }

  old_bytes : {b : List ℕ} → Appended port.buffer b w bytes n → waiting ≡ window b t (w - t)
  old_bytes {b} a =
      g.holds
      ∙ window_ext port.buffer b t (w - t) (λ k hk.
        sym (a.kept (t + k) (omega arith) (omega (arith, waiting_len, g.counting.ordered))))

  new_bytes : {b : List ℕ} → Appended port.buffer b w bytes n → take n bytes ≡ window b w n
  new_bytes {b} a =
      let len : length (take n bytes) ≡ n = omega (arith, length-take {0} n bytes) in
      sym (
        rw len at (
          window_of b w (take n bytes) (λ k hk.
            let hk' : k < n = rw len at hk in a.fresh k hk' ∙ sym (get_or-take n k bytes 0 hk'))))

  IsHolding-appended :
      (b : List ℕ)
      → Appended port.buffer b w bytes n
      → IsHolding (appended b) (w + n) t (waiting ++ take n bytes)
  IsHolding-appended b a = record {
    counting = buf_write_commit-IsCounting g.counting n (omega (arith, waiting_len)) lap;
    sized = a.sized;
    wide = g.wide;
    holds =
        let e : w + n - t ≡ w - t + n = omega (arith, g.counting.ordered) in
        let e' : t + (w - t) ≡ w = omega (arith, g.counting.ordered) in
        rw (e, window-append b t (w - t) n, e') (ap₂ ◌++◌ (old_bytes a) (new_bytes a));
  }

  -- While the transmitter is busy the bytes only join the ring.
  ser_write_busy :
      port.fifo_empty ≡ 0
      → (out : Serial) × (ser_write port bytes n cpu ≡ ok (n, out, cpu))
        × IsHolding out (w + n) t (waiting ++ take n bytes)
        × (out.port ≡ port.port)
  unfolding ser_write
  ser_write_busy busy =
      let (b, runs, a) = ser_append-Appended port.buffer w bytes n g.sized enough (omega arith) in
      (appended b, rw (ser_room_lem, buf_write_lem, runs, busy) refl, IsHolding-appended b a, refl)

  -- With an idle transmitter the oldest bytes go out at once.
  ser_write_idle :
      port.fifo_empty ≢ 0
      → let s = waiting ++ take n bytes in
        (out : Serial) × (ser_write port bytes n cpu
          ≡ ok (n, out, rep_outsb port.port (take (min 16 (length s)) s) cpu))
        × IsHolding out (w + n) (t + min 16 (length s)) (drop (min 16 (length s)) s)
        × (out.port ≡ port.port)
  unfolding ser_write
  ser_write_idle idle =
      let s = waiting ++ take n bytes in
      let (b, runs, a) = ser_append-Appended port.buffer w bytes n g.sized enough (omega arith) in
      let (out, sends, holding, flag, same) = ser_flush-sends (IsHolding-appended b a) (cli cpu) in
      (
        out,
        rw (ser_room_lem, buf_write_lem, runs, ne→==_false port.fifo_empty 0 idle, sends)
            (ap (λ c. ok (n, out, c))
              (restore_rep_outsb port.port (take (min 16 (length s)) s) cpu)),
        holding,
        same,
      )

-- How many bytes a write sends itself, of those that then wait.
abbrev pub due : Serial → List ℕ → ℕ
due port s = if port.fifo_empty == 0 then 0 else min 16 (length s)

-- When `n` of the given bytes fit behind the waiting ones of a well-formed port with a place to
-- spare, and the count of written bytes stays below 0x8000, `ser_write` takes all of them, in
-- order and inside the buffer. It sends nothing while the transmitter is busy, and the oldest 16
-- bytes, or all when there are fewer, when it is idle; it leaves the interrupt flag as it was.
pub ser_write-appends :
    {port : Serial} {w t : ℕ} {waiting : List ℕ}
    → IsHolding port w t waiting
    → (bytes : List ℕ) (n : ℕ) → n ≤ length bytes
    → length waiting + n < serial_bufsize
    → w + n < 2 ^ 15
    → (cpu : Cpu)
    → let s = waiting ++ take n bytes in
      let m = due port s in
      (out : Serial) × (ser_write port bytes n cpu
        ≡ ok (n, out, rep_outsb port.port (take m s) cpu))
      × IsHolding out (w + n) (t + m) (drop m s)
      × (out.port ≡ port.port)
ser_write-appends {port} {w} {t} g bytes n enough fits lap cpu =
    elim (ℕ_discrete port.fifo_empty 0) [
      | yes busy ↦
          rw ((==_iff port.fifo_empty 0).1 busy, add-zero)
            (ser_write_busy g bytes n enough fits lap cpu busy)
      | no idle ↦
          rw (ne→==_false port.fifo_empty 0 idle)
            (ser_write_idle g bytes n enough fits lap cpu idle)
    ]

ser_append_front :
    (b bytes : List ℕ) (r : ℕ)
    → length b ≡ serial_bufsize
    → 0 < r
    → r < serial_bufsize
    → ser_append b (sub32 0 r) bytes (r + 1) ≡ fault
unfolding ser_append
ser_append_front b bytes r sized pos small = ground arith

ser_room_over :
    (port : Serial) (n k : ℕ)
    → buf_elements port.hdr ≡ k
    → k < serial_bufsize - 1
    → n < 2 ^ 31
    → serial_bufsize ≤ k + n
    → ser_room port n ≡ 63 - k + 1
ser_room_over port n k e two small over = rw e (ground arith)

-- A well-formed port with at least two free places that is asked for at least as many bytes as
-- there are free places counts the place that must stay empty as room; `buf_write` then refuses
-- with a negative index, and the copy of `ser_write` goes outside the buffer.
pub ser_write_overrun :
    {port : Serial} {w t : ℕ} {waiting : List ℕ}
    → IsHolding port w t waiting
    → (bytes : List ℕ) (n : ℕ) (cpu : Cpu) → n < 2 ^ 31
    → serial_bufsize ≤ length waiting + n
    → length waiting < serial_bufsize - 1
    → ser_write port bytes n cpu ≡ fault
unfolding ser_write
ser_write_overrun {port} {w} {t} {waiting} g bytes n cpu small over two =
    let k : w - t ≡ length waiting = sym (length-waiting g) in
    rw
      (
        ser_room_over port n (w - t) (buf_elements-waiting g.counting) (omega arith) small
            (omega arith),
        buf_write-room g.counting (63 - (w - t) + 1),
        lt→ltb (63 - (w - t)) (63 - (w - t) + 1) (omega arith),
        ser_append_front port.buffer bytes (63 - (w - t)) g.sized (omega arith) (omega arith),
      )
      refl
