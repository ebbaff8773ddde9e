-- ===== src/Serial/Tests.antt =====
-- The serial driver on small inputs, and the theorems at a concrete port.
use boot.Base.{◌+◌, ◌*◌, ◌≡◌, refl, [], ◌∷◌, ◌++◌, arith, ok, fault}
use boot.Base.{replicate}
use boot.RingBuf
use boot.Ports.{Cpu, Device, rep_outsb}
use boot.Serial.{Serial, serial_com1, ser_flush, ser_send}
use boot.Serial.{flush_len, ser_append, ser_write}
use boot.Serial.Contents.{IsHolding}
use boot.Serial.Write.{ser_write-appends, ser_write_overrun}
use boot.Serial.Flush.{ser_flush-sends}
use boot.Serial.Stream.{Line, line, Step, Reach, IsStream, transmitted, Reach-IsStream}
use boot.Serial.Setup.{Uart}

abbrev quiet : Cpu
quiet = record { eflags = 0x202; accesses = [] }

-- Two bytes wait, at the places 62 and 63.
abbrev busy : Serial
busy = record {
  port = serial_com1;
  speed = 0;
  fifo_empty = 0;
  hdr = 64 + 62 * 0x1_0000;
  buffer = replicate 62 0 ++ (7 ∷ 8 ∷ []);
}

busy-IsHolding : IsHolding busy 64 62 (7 ∷ 8 ∷ [])
busy-IsHolding = record { counting = omega arith; sized = refl; wide = omega arith; holds = refl }

-- The bytes are sent over the end of the buffer.
write_then_flush :
    (ser_write busy (9 ∷ 10 ∷ []) 2 quiet
      ≡ ok (
        2,
        record busy {
          hdr = 66 + 62 * 0x1_0000;
          buffer = 9 ∷ 10 ∷ (replicate 60 0 ++ (7 ∷ 8 ∷ []));
        },
        quiet,
      ))
    × (ser_flush
          (record busy {
            hdr = 66 + 62 * 0x1_0000;
            buffer = 9 ∷ 10 ∷ (replicate 60 0 ++ (7 ∷ 8 ∷ []));
          })
          quiet
        ≡ ok (
          record busy {
            hdr = 66 + 66 * 0x1_0000;
            buffer = 9 ∷ 10 ∷ (replicate 60 0 ++ (7 ∷ 8 ∷ []));
          },
          rep_outsb serial_com1 (7 ∷ 8 ∷ 9 ∷ 10 ∷ []) quiet,
        ))
unfolding ser_write ser_append ser_flush flush_len ser_send RingBuf.buf_elements RingBuf.buf_write
    RingBuf.buf_read RingBuf.buf_write_commit RingBuf.buf_read_commit
write_then_flush = (refl, refl)

ser_flush-sends_example :
    (out : Serial) × (ser_flush busy quiet ≡ ok (out, rep_outsb serial_com1 (7 ∷ 8 ∷ []) quiet))
    × IsHolding out 64 64 []
    × (out.fifo_empty ≡ 0)
    × (out.port ≡ serial_com1)
ser_flush-sends_example = ser_flush-sends busy-IsHolding quiet

abbrev idle : Serial
idle = record busy { fifo_empty = 1 }

idle-IsHolding : IsHolding idle 64 62 (7 ∷ 8 ∷ [])
idle-IsHolding = record { counting = omega arith; sized = refl; wide = omega arith; holds = refl }

ser_write-appends_example :
    (out : Serial) × (ser_write idle (9 ∷ 10 ∷ 11 ∷ []) 2 quiet
      ≡ ok (2, out, rep_outsb serial_com1 (7 ∷ 8 ∷ 9 ∷ 10 ∷ []) quiet))
    × IsHolding out 66 66 []
    × (out.port ≡ serial_com1)
ser_write-appends_example =
    ser_write-appends idle-IsHolding (9 ∷ 10 ∷ 11 ∷ []) 2 (omega arith) (omega arith) (omega arith)
      quiet

ser_write_overrun_example : ser_write busy (replicate 70 1) 70 quiet ≡ fault
ser_write_overrun_example =
    ser_write_overrun busy-IsHolding (replicate 70 1) 70 quiet (omega arith) (omega arith)
      (omega arith)

busy-IsStream : IsStream serial_com1 (line busy quiet (7 ∷ 8 ∷ []))
unfolding transmitted
busy-IsStream = record {
  written = 64;
  taken = 62;
  waiting = 7 ∷ 8 ∷ [];
  same_port = refl;
  holding = busy-IsHolding;
  in_order = refl;
}

abbrev flushed : Line
flushed =
    line (record busy { hdr = 64 + 64 * 0x1_0000 }) (rep_outsb serial_com1 (7 ∷ 8 ∷ []) quiet)
      (7 ∷ 8 ∷ [])

flushed_reached : Reach (line busy quiet (7 ∷ 8 ∷ [])) flushed
unfolding ser_flush flush_len ser_send RingBuf.buf_elements RingBuf.buf_read RingBuf.buf_read_commit
flushed_reached = Reach.next Reach.here (Step.interrupt refl)

Reach-IsStream_example : IsStream serial_com1 flushed
Reach-IsStream_example = Reach-IsStream (omega arith) busy-IsStream flushed_reached

abbrev blank_chip : Uart
blank_chip = record {
  interrupt_enable = 0;
  divisor_low = 0;
  divisor_high = 0;
  fifo_control = 0;
  line_control = 0;
  modem_control = 0;
}

abbrev echoing : Device
echoing accesses port = 0xAE
