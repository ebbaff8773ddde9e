-- ===== src/RingBuf/Wrap.antt =====
-- What happens once 0x8000 bytes have been written.
use boot.Base.{ℕ, ◌+◌, ◌*◌, ◌^◌, ◌<◌, ◌≡◌, arith, ◌-◌, bit_and_low, ◌/◌}
use boot.RingBuf.{buf_elements, buf_write}
use boot.Base.{bit_and_shifted}

-- The header after `0x8000` bytes went in and `taken` came out.
abbrev pub wrapped : ℕ → ℕ
wrapped taken = 0x8000 + taken * 2 ^ 16

-- When 0x8000 bytes went in, and from 1 to 0x7FFF came out, `buf_elements` counts the written ones
-- from 0 again and gives minus the number of bytes read, as a number above 2 ^ 31.
pub buf_elements-wrapped :
    (taken : ℕ) → 0 < taken → taken < 2 ^ 15 → buf_elements (wrapped taken) ≡ 2 ^ 32 - taken
unfolding buf_elements
buf_elements-wrapped taken pos small =
    omega (arith, bit_and_low 15 (wrapped taken), bit_and_low 15 (wrapped taken / 2 ^ 16))

-- When 0x8000 bytes went in, and from 1 to 0x7FFF came out, `buf_write` adds `~0x8000` to the
-- header where it means to clear bit 15, so that it takes 1 from the read count and sets the low
-- half to 0xFFFF.
pub buf_write-wrapped :
    (taken size num : ℕ)
    → 0 < taken
    → taken < 2 ^ 15
    → (buf_write (wrapped taken) size num).1 ≡ 0xFFFF + (taken - 1) * 2 ^ 16
unfolding buf_write
buf_write-wrapped taken size num pos small =
    ground (arith, bit_and_shifted 15 (wrapped taken) 1, bit_and_low 1 (wrapped taken / 2 ^ 15))
