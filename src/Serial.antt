-- ===== src/Serial.antt =====
-- stage3/x86/serial.c: a serial port with a ring of 64 bytes that the transmit interrupt empties.
-- An `int` is its 32-bit pattern.
pub mod Contents
pub mod Append
pub mod Write
pub mod Flush
pub mod Stream
pub mod Setup
pub mod Speed
mod Tests
use boot.Base.{ℕ, ◌+◌, ◌-◌, ◌*◌, ◌/◌, ◌^◌, bit_and, Bool, true, false, List, [], ◌∷◌}
use boot.Base.{
  zero, suc, Option, some, none, ltb, leb, ◌==◌, if◌then◌else◌, not, u8, u16, add32, sub32, slt32,
  take, drop,
}
use boot.Base.{Outcome, ok, fault, ◌>>=◌, ◌>>◌, memcpy, length}
use boot.Ports.{Cpu, Device, outb, inb, rep_outsb, save_intr, restore_intr}
use boot.RingBuf.{buf_init, buf_elements, buf_write, buf_read, buf_write_commit, buf_read_commit}

abbrev pub serial_bufsize : ℕ
serial_bufsize = 64

abbrev pub serial_fifo : ℕ
serial_fifo = 16

abbrev pub serial_com1 : ℕ
serial_com1 = 0x3F8

-- `struct serial`, with `serial_bufsize` bytes in `buffer`.
pub record Serial : Type 0 where
  pub port : ℕ
  pub speed : ℕ
  pub fifo_empty : ℕ
  pub hdr : ℕ
  pub buffer : List ℕ

-- The `assert`-free programming of COM1 for a panic.
unfoldable pub ser_init_poll : Cpu → Cpu
ser_init_poll cpu =
    let cpu = outb (serial_com1 + 1) 0x00 cpu in
    let cpu = outb (serial_com1 + 3) 0x80 cpu in
    let cpu = outb (serial_com1 + 0) 3 cpu in
    let cpu = outb (serial_com1 + 1) 0 cpu in
    let cpu = outb (serial_com1 + 3) 0x03 cpu in
    let cpu = outb (serial_com1 + 2) 0 cpu in outb (serial_com1 + 4) 0x03 cpu

-- `speed` is a uint8_t field, so that a divisor above 255 is cut.
pub ser_init : Device → Serial → ℕ → ℕ → Cpu → Bool × Serial × Cpu
ser_init device port base speed cpu =
    let port = record port {
      port = u16 base;
      speed = u8 speed;
      fifo_empty = 0;
      hdr = buf_init port.hdr;
    } in
    let cpu = outb (port.port + 1) 0x02 cpu in
    let cpu = outb (port.port + 3) 0x80 cpu in
    let cpu = outb (port.port + 0) (bit_and port.speed 0xFF) cpu in
    let cpu = outb (port.port + 1) (port.speed / 2 ^ 8) cpu in
    let cpu = outb (port.port + 3) 0x03 cpu in
    let cpu = outb (port.port + 2) 0xC7 cpu in
    let cpu = outb (port.port + 4) 0x0B cpu in
    let cpu = outb (port.port + 4) 0x1D cpu in
    let cpu = outb (port.port + 0) 0xAE cpu in
    let (echo, cpu) = inb device (port.port + 0) cpu in
    if echo == 0xAE then (true, port, outb (port.port + 4) 0x0F cpu) else (false, port, cpu)

pub ser_ready : Serial → ℕ
ser_ready port = buf_elements port.hdr

-- `rep_outsb(port, buffer + at, count)`, which reads the buffer.
abbrev pub send : ℕ → List ℕ → ℕ → ℕ → Cpu → Outcome Cpu
send port buffer at count cpu =
    if leb (at + count) (length buffer)
    then ok (rep_outsb port (take count (drop at buffer)) cpu)
    else fault

-- What `ser_flush` sends of its waiting bytes, in two parts where they run over the end.
pub ser_send : Serial → ℕ → ℕ → Cpu → Outcome Cpu
ser_send port tail buflen cpu =
    let space_left = sub32 serial_bufsize tail in
    let wrapping = (do
      cpu ← send port.port port.buffer tail space_left cpu
      send port.port port.buffer 0 (sub32 buflen space_left) cpu) in
    if slt32 serial_bufsize (add32 tail buflen)
    then wrapping
    else send port.port port.buffer tail buflen cpu

-- At most a FIFO full of bytes at a time.
pub flush_len : ℕ → ℕ
flush_len waiting = if slt32 serial_fifo waiting then serial_fifo else waiting

pub ser_flush : Serial → Cpu → Outcome (Serial × Cpu)
ser_flush port cpu =
    let waiting = buf_elements port.hdr in
    let buflen = flush_len waiting in
    let tail = buf_read port.hdr serial_bufsize buflen in
    let sending = (do
      cpu ← ser_send port tail buflen cpu
      ok (record port { fifo_empty = 0; hdr = buf_read_commit port.hdr buflen }, cpu)) in
    if slt32 0 waiting then sending else ok (record port { fifo_empty = 1 }, cpu)

-- How much of `n` bytes the port takes.
abbrev pub ser_room : Serial → ℕ → ℕ
ser_room port n =
    let written = sub32 serial_bufsize (buf_elements port.hdr) in
    if slt32 written n then written else n

-- `memcpy` at the head of the ring, in two parts where it runs over the end.
pub ser_append : List ℕ → ℕ → List ℕ → ℕ → Outcome (List ℕ)
ser_append buffer head bytes written =
    let space_left = sub32 serial_bufsize head in
    let wrapping = (do
      buffer ← memcpy buffer head bytes 0 space_left
      memcpy buffer 0 bytes space_left (sub32 written space_left)) in
    if slt32 (add32 head written) serial_bufsize
    then memcpy buffer head bytes 0 written
    else wrapping

pub ser_write : Serial → List ℕ → ℕ → Cpu → Outcome (ℕ × Serial × Cpu)
ser_write port bytes n cpu = do
  let written = ser_room port n
  let (eflags, cpu) = save_intr cpu
  let (head, hdr) = buf_write port.hdr serial_bufsize written
  buffer ← ser_append port.buffer head bytes written
  let port' = record port { hdr = buf_write_commit hdr written; buffer = buffer }
  (port'', cpu) ← (if port.fifo_empty == 0 then ok (port', cpu) else ser_flush port' cpu)
  ok (written, port'', restore_intr eflags cpu)

pub ser_avail : Device → Serial → Cpu → Bool × Cpu
ser_avail device port cpu =
    let (status, cpu) = inb device (port.port + 5) cpu in (not (bit_and status 1 == 0), cpu)

-- `ser_read`, whose wait runs on fuel for its rounds.
unfoldable pub ser_read : ℕ → Device → Serial → Cpu → Option ℕ × Cpu
ser_read zero device port cpu = (none, cpu)
ser_read (suc fuel) device port cpu =
    let (avail, cpu) = ser_avail device port cpu in
    let again = ser_read fuel device port cpu in
    let byte = inb device (port.port + 0) cpu in if avail then (some byte.0, byte.1) else again
