-- ===== src/RingBuf/Tests.antt =====
-- The ring's header on small inputs, and the theorems at concrete headers.
use boot.Base.{ℕ, ◌+◌, ◌%◌, ◌^◌, ◌≡◌, ◌≢◌, refl, arith}
use boot.RingBuf.{buf_init, buf_elements, buf_write, buf_read, buf_write_commit}
use boot.RingBuf.FirstLap.{IsCounting}
use boot.RingBuf.Sharing.{Users, Step, Reach, initial, Reach-apart}
use boot.RingBuf.Wrap.{buf_write-wrapped}

-- 5 bytes in, 3 out, of 8 places.
abbrev some_header : ℕ
some_header = 0x3_0005

some_header-IsCounting : IsCounting 3 5 3 some_header
some_header-IsCounting = omega arith

full_answers_like_empty_place :
    (buf_write 0x1_0008 8 3 ≡ (0, 0x1_0008)) × (buf_write 0x0 8 3 ≡ (0, 0))
unfolding buf_write buf_elements
full_answers_like_empty_place = (refl, refl)

abbrev both_busy : Users
both_busy = record { hdr = 4; write_at = 4; writing = 3; read_at = 0; reading = 2 }

both_busy_reached : Reach 3 (initial 77) both_busy
unfolding buf_init buf_elements buf_write buf_read buf_write_commit
both_busy_reached =
    Reach.next
      (Reach.next
        (Reach.next
          (Reach.next Reach.here
            (Step.begin_write 0 0 0 0 4 (omega arith) (omega arith) (omega arith)))
          (Step.end_write 0 0 4 0 0))
        (Step.begin_read 4 0 0 0 2 (omega arith) (omega arith)))
      (Step.begin_write 4 0 0 2 3 (omega arith) (omega arith) (omega arith))

-- Places 4, 5 and 6 are being written while 0 and 1 are being read.
Reach-apart_example : (both_busy.write_at + 2) % 2 ^ 3 ≢ (both_busy.read_at + 1) % 2 ^ 3
Reach-apart_example = Reach-apart 77 2 1 (omega arith) both_busy_reached (omega arith) (omega arith)

buf_write-wrapped_example : (buf_write 0x7FF0_8000 64 1).1 ≡ 0x7FEF_FFFF
buf_write-wrapped_example = buf_write-wrapped 0x7FF0 64 1 (omega arith) (omega arith)
