-- ===== src/RingBuf.antt =====
-- stage3/mem/ringbuf.cpp: the indices of a ring of bytes, packed into one 32-bit word `hdr`. The
-- low half counts what was written, the high half what was read. An int32_t result is its bit
-- pattern, a number below 2 ^ 32. Each function is one access to `*hdr`, or two in `buf_write`.
pub mod FirstLap
pub mod Sharing
pub mod Wrap
mod Tests
use boot.Base.{ℕ, ◌+◌, ◌-◌, ◌*◌, ◌/◌, ◌^◌, bit_and, Bool, true, false}
use boot.Base.{ltb, ◌==◌, if◌then◌else◌, not, add32, sub32, mul32}

abbrev pub max_elem : ℕ
max_elem = 0x7FFF

-- GRAB_HEAD_TAIL
abbrev pub head : ℕ → ℕ
head hdr = bit_and hdr max_elem

abbrev pub tail : ℕ → ℕ
tail hdr = bit_and (hdr / 2 ^ 16) max_elem

unfoldable pub buf_init : ℕ → ℕ
buf_init hdr = 0

unfoldable pub buf_elements : ℕ → ℕ
buf_elements hdr = sub32 (head hdr) (tail hdr)

-- `atomic_fetch_and` of crt/atomic.h, which its macro expands to `__atomic_fetch_add`.
abbrev pub atomic_fetch_and : ℕ → ℕ → ℕ
atomic_fetch_and hdr v = add32 hdr v

-- (size - (head - tail)) - 1
abbrev pub capacity : ℕ → ℕ → ℕ
capacity hdr size = sub32 (sub32 size (buf_elements hdr)) 1

-- The comparison of the int32_t `capacity` with the uint32_t `num` is unsigned. The second
-- argument of `atomic_fetch_and` is `~0x8000`.
unfoldable pub buf_write : ℕ → ℕ → ℕ → ℕ × ℕ
buf_write hdr size num =
    let hdr' = if bit_and hdr 0x8000 == 0 then hdr else atomic_fetch_and hdr 0xFFFF_7FFF in
    if ltb (capacity hdr size) num
    then (sub32 0 (capacity hdr size), hdr')
    else (bit_and (head hdr) (sub32 size 1), hdr')

unfoldable pub buf_read : ℕ → ℕ → ℕ → ℕ
buf_read hdr size num =
    if ltb (buf_elements hdr) num
    then sub32 0 (buf_elements hdr)
    else bit_and (tail hdr) (sub32 size 1)

unfoldable pub buf_write_commit : ℕ → ℕ → ℕ
buf_write_commit hdr num = add32 hdr num

unfoldable pub buf_read_commit : ℕ → ℕ → ℕ
buf_read_commit hdr num = add32 hdr (mul32 num 0x1_0000)
