-- ===== src/Serial/Flush.antt =====
-- `ser_flush`, the body of the transmit interrupt: up to 16 waiting bytes go out.
use boot.Base.{ℕ, ◌+◌, ◌-◌, ◌%◌, ◌^◌, ◌≤◌, ◌<◌, ◌≡◌, refl, List, [], ◌∷◌, ◌++◌, arith, ap, drop}
use boot.Base.{length, ok, sub32, add32, le→leb, lt→ltb, le→ltb_false, min, take, if◌then◌else◌}
use native.Mathlib.Decide.{dec_lt, ℕ_discrete}
use boot.Ports.{Cpu, rep_outsb, outb}
use boot.RingBuf.{buf_read_commit}
use boot.RingBuf.FirstLap.{buf_elements-waiting, buf_read-waiting, buf_read_commit-IsCounting}
use boot.Serial.{Serial, serial_bufsize, send, ser_flush, flush_len, ser_send}
use boot.Serial.Contents.{window, IsHolding, window-append, drop-window, take-window}
use boot.Serial.Contents.{take-drop-window, length-waiting}
use boot.Base.{◌∙◌, ◌==◌, sym}
use native.Mathlib.Nat.{add-zero}

rep_outsb-append :
    (p : ℕ) (xs ys : List ℕ) (cpu : Cpu)
    → rep_outsb p (xs ++ ys) cpu ≡ rep_outsb p ys (rep_outsb p xs cpu)
rep_outsb-append p [] ys cpu = refl
rep_outsb-append p (x ∷ xs) ys cpu = rep_outsb-append p xs ys (outb p x cpu)

-- One `rep_outsb` inside the buffer sends a window of it.
send-window :
    (p : ℕ) (b : List ℕ) (i c n : ℕ) (cpu : Cpu)
    → c % serial_bufsize ≡ i
    → i + n ≤ serial_bufsize
    → length b ≡ serial_bufsize
    → send p b i n cpu ≡ ok (rep_outsb p (window b c n) cpu)
send-window p b i c n cpu e fits sized =
    rw (le→leb (i + n) (length b) (omega arith), take-drop-window b i c n e fits sized) refl

-- The port after `m` bytes were sent.
abbrev sent : Serial → ℕ → Serial
sent port m = record port { fifo_empty = 0; hdr = buf_read_commit port.hdr m }

module _ {port : Serial} {w t : ℕ} {waiting : List ℕ} (g : IsHolding port w t waiting)
    (cpu : Cpu) where
  n_small : w - t < 64
  n_small = g.counting.fits

  run_none : w - t ≡ 0 → ser_flush port cpu ≡ ok (record port { fifo_empty = 1 }, cpu)
  unfolding ser_flush
  run_none e = rw (buf_elements-waiting g.counting, e) refl

  -- The bytes of both parts, in order.
  ser_send-window :
      (m : ℕ)
      → m < serial_bufsize
      → ser_send port (t % serial_bufsize) m cpu
        ≡ ok (rep_outsb port.port (window port.buffer t m) cpu)
  unfolding ser_send
  ser_send-window m small = elim (dec_lt serial_bufsize (h + m)) [
    | yes over ↦
        let e1 : sub32 serial_bufsize h ≡ space = omega arith in
        let e2 : sub32 m space ≡ m - space = omega arith in
        let e3 : m ≡ space + (m - space) = omega arith in
        let e4 : (t + space) % serial_bufsize ≡ 0 = omega arith in
        rw (lt→ltb (serial_bufsize + 2 ^ 31) ((add32 h m + 2 ^ 31) % 2 ^ 32) (omega arith), e1, e2)
          (rw
            (
              send-window port.port port.buffer h t space cpu refl (omega arith) g.sized,
              send-window port.port port.buffer 0 (t + space) (m - space)
                  (rep_outsb port.port (window port.buffer t space) cpu) e4 (omega arith) g.sized,
              ← rep_outsb-append port.port (window port.buffer t space)
                  (window port.buffer (t + space) (m - space)) cpu,
              ← window-append port.buffer t space (m - space),
              ← e3,
            )
            refl)
    | no inside ↦
        rw (le→ltb_false (serial_bufsize + 2 ^ 31) ((add32 h m + 2 ^ 31) % 2 ^ 32) (omega arith))
          (send-window port.port port.buffer h t m cpu refl (omega arith) g.sized)
  ]
    where
      h : ℕ
      h = t % serial_bufsize

      space : ℕ
      space = serial_bufsize - h

  run_some :
      (m : ℕ)
      → 0 < w - t
      → flush_len (w - t) ≡ m
      → m ≤ w - t
      → ser_flush port cpu ≡ ok (sent port m, rep_outsb port.port (window port.buffer t m) cpu)
  unfolding ser_flush
  run_some m pos e le =
      rw
        (
          buf_elements-waiting g.counting,
          e,
          buf_read-waiting g.counting m,
          le→ltb_false (w - t) m le,
          ser_send-window m (omega arith),
          lt→ltb (2 ^ 31) ((w - t + 2 ^ 31) % 2 ^ 32) (omega arith),
        )
        refl

  flush_len_lem : flush_len (w - t) ≡ min 16 (w - t)
  unfolding flush_len
  flush_len_lem = ground (arith, n_small)

  IsHolding-sent : (m : ℕ) → m ≤ w - t → IsHolding (sent port m) w (t + m) (drop m waiting)
  IsHolding-sent m le = record {
    counting = buf_read_commit-IsCounting g.counting m le;
    sized = g.sized;
    wide = g.wide;
    holds =
        let e : w - t - m ≡ w - (t + m) = omega arith in
        ap (drop m) g.holds
        ∙ (drop-window port.buffer t m (w - t) le ∙ ap (window port.buffer (t + m)) e);
  }

  take-waiting : (m : ℕ) → m ≤ w - t → take m waiting ≡ window port.buffer t m
  take-waiting m le = ap (take m) g.holds ∙ take-window port.buffer t m (w - t) le

-- At a well-formed port `ser_flush` hands the first 16 waiting bytes, or all when there are fewer,
-- to the port in order, keeps the others waiting, touches nothing outside the buffer, and notes in
-- `fifo_empty` whether there was nothing to send.
pub ser_flush-sends :
    {port : Serial} {w t : ℕ} {waiting : List ℕ}
    → IsHolding port w t waiting
    → (cpu : Cpu)
    → (out : Serial) × (ser_flush port cpu
        ≡ ok (out, rep_outsb port.port (take (min 16 (length waiting)) waiting) cpu))
      × IsHolding out w (t + min 16 (length waiting)) (drop (min 16 (length waiting)) waiting)
      × (out.fifo_empty ≡ (if length waiting == 0 then 1 else 0))
      × (out.port ≡ port.port)
ser_flush-sends {port} {w} {t} {waiting} g cpu =
    rw (length-waiting g) (elim (ℕ_discrete (w - t) 0) [
      | yes e ↦
          rw (e, add-zero)
            (
              record port { fifo_empty = 1 },
              run_none g cpu e,
              record { counting = g.counting; sized = g.sized; wide = g.wide; holds = g.holds },
              refl,
              refl,
            )
      | no ne ↦ (
        sent port (min 16 (w - t)),
        run_some g cpu (min 16 (w - t)) (omega arith) (flush_len_lem g cpu) (omega arith)
            ∙ ap (λ xs. ok (sent port (min 16 (w - t)), rep_outsb port.port xs cpu))
                (sym (take-waiting g cpu (min 16 (w - t)) (omega arith))),
        IsHolding-sent g cpu (min 16 (w - t)) (omega arith),
        ground arith,
        refl,
      )
    ])
