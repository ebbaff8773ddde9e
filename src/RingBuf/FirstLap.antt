-- ===== src/RingBuf/FirstLap.antt =====
-- The ring while the count of written bytes has not reached 0x8000.
use boot.Base.{ℕ, ◌+◌, ◌-◌, ◌*◌, ◌/◌, ◌%◌, ◌^◌, ◌≤◌, ◌<◌, ◌≡◌, refl, arith, bit_and, ltb, ap}
use native.Mathlib.Nat.{pow-le-pow_right, one-le-pow}
use boot.RingBuf.{head, tail, capacity, buf_elements, buf_write, buf_read}
use boot.RingBuf.{buf_write_commit, buf_read_commit}
use boot.Base.{bit_and_low, bit_and_shifted, if◌then◌else◌, sub32}

-- `written` bytes went in and `taken` came out, of a ring of `2 ^ bits` places, one of which stays
-- empty.
pub record IsCounting (bits written taken hdr : ℕ) : Type 0 where
  pub packed : hdr ≡ written + taken * 2 ^ 16
  pub ordered : taken ≤ written
  pub first_lap : written < 2 ^ 15
  pub fits : written - taken < 2 ^ bits
  pub narrow : bits < 15

module _ {bits written taken hdr : ℕ} (c : IsCounting bits written taken hdr) where
  head_lem : head hdr ≡ written
  head_lem = omega (arith, bit_and_low 15 hdr)

  tail_lem : tail hdr ≡ taken
  tail_lem = omega (arith, bit_and_low 15 (hdr / 2 ^ 16))

  -- `buf_elements` is the number of bytes that wait in the ring.
  pub buf_elements-waiting : buf_elements hdr ≡ written - taken
  unfolding buf_elements
  buf_elements-waiting = omega (arith, head_lem, tail_lem)

  -- Bit 15 of the header is clear.
  no_flag : bit_and hdr 0x8000 ≡ 0
  no_flag = omega (arith, bit_and_shifted 15 hdr 1, bit_and_low 1 (hdr / 2 ^ 15))

  pow_small : 2 ^ bits ≤ 2 ^ 14
  pow_small = pow-le-pow_right {n = 2} (omega arith) {i = bits} {j = 14} (omega (arith, c.narrow))

  -- Places for new bytes: one always stays empty.
  abbrev pub room : ℕ
  room = 2 ^ bits - 1 - (written - taken)

  capacity_lem : capacity hdr (2 ^ bits) ≡ room
  capacity_lem = rw buf_elements-waiting (omega (arith, pow_small, one-le-pow bits 2 (omega arith)))

  mask_lem : sub32 (2 ^ bits) 1 ≡ 2 ^ bits - 1
  mask_lem = omega (arith, pow_small, one-le-pow bits 2 (omega arith))

  -- In the first lap, `buf_write` gives the index of the next place to write when there is room
  -- for `num` bytes, and minus the room otherwise; it leaves the header alone.
  pub buf_write-room :
      (num : ℕ)
      → buf_write hdr (2 ^ bits) num
        ≡ (if ltb room num then sub32 0 room else written % 2 ^ bits, hdr)
  unfolding buf_write
  buf_write-room num =
      rw (no_flag, capacity_lem, mask_lem, head_lem, bit_and_low bits written) (ground arith)

  pub buf_write_header : (num : ℕ) → (buf_write hdr (2 ^ bits) num).1 ≡ hdr
  buf_write_header num = ap (λ r. r.1) (buf_write-room num)

  pub head_written : head hdr ≡ written
  head_written = head_lem

  -- In the first lap, `buf_read` gives the index of the next byte to read when `num` bytes wait,
  -- and minus the number that waits otherwise.
  pub buf_read-waiting :
      (num : ℕ)
      → buf_read hdr (2 ^ bits) num
        ≡ (if ltb (written - taken) num then sub32 0 (written - taken) else taken % 2 ^ bits)
  unfolding buf_read
  buf_read-waiting num = rw (buf_elements-waiting, mask_lem, tail_lem, bit_and_low bits taken) refl

  pub buf_write_commit-IsCounting :
      (num : ℕ)
      → written - taken + num < 2 ^ bits
      → written + num < 2 ^ 15
      → IsCounting bits (written + num) taken (buf_write_commit hdr num)
  unfolding buf_write_commit
  buf_write_commit-IsCounting num fits lap = record {
    packed = omega arith;
    ordered = omega arith;
    first_lap = lap;
    fits = omega arith;
    narrow = c.narrow;
  }

  pub buf_read_commit-IsCounting :
      (num : ℕ)
      → num ≤ written - taken
      → IsCounting bits written (taken + num) (buf_read_commit hdr num)
  unfolding buf_read_commit
  buf_read_commit-IsCounting num fits = record {
    packed = omega arith;
    ordered = omega arith;
    first_lap = c.first_lap;
    fits = omega arith;
    narrow = c.narrow;
  }
