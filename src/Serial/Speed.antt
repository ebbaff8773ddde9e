-- ===== src/Serial/Speed.antt =====
-- stage3/include/x86/serial.h: the speeds of a port, as divisors of its clock.
use boot.Base.{ℕ}

-- `speed_t`
pub data Speed : Type 0 where
  b0 : Speed
  b50 : Speed
  b75 : Speed
  b110 : Speed
  b134 : Speed
  b150 : Speed
  b200 : Speed
  b300 : Speed
  b600 : Speed
  b1200 : Speed
  b1800 : Speed
  b2400 : Speed
  b4800 : Speed
  b9600 : Speed
  b19200 : Speed
  b38400 : Speed
  b57600 : Speed
  b76800 : Speed
  b115200 : Speed

unfoldable pub divisor : Speed → ℕ
divisor b0 = 65535
divisor b50 = 2304
divisor b75 = 1536
divisor b110 = 1047
divisor b134 = 859
divisor b150 = 768
divisor b200 = 576
divisor b300 = 384
divisor b600 = 192
divisor b1200 = 96
divisor b1800 = 64
divisor b2400 = 48
divisor b4800 = 24
divisor b9600 = 12
divisor b19200 = 6
divisor b38400 = 3
divisor b57600 = 2
divisor b76800 = 1
divisor b115200 = 0
