-- ===== src/Intrinsics/Tests.antt =====
-- Words on which the functions are run.
use boot.Base.{◌%◌, ◌<◌, ◌≡◌, refl, arith, none, some}
use boot.Intrinsics.{bswap16, popcount, clear_rounds, parity, ctz, bit_index}
use boot.Intrinsics.Trailing.{IsLowest, ctz-IsLowest}
use boot.Intrinsics.Parity.{bits, parity-bits}

ctz_run : ctz none 0x50 ≡ 4
unfolding ctz bit_index
ctz_run = refl

parity_run : parity none 0x8000_0007 ≡ 0
unfolding parity
parity_run = refl

-- Three bits are set, and the code returns 0.
popcount_run : popcount none 0x70 ≡ some 0
unfolding popcount clear_rounds
popcount_run = refl

bswap16_run : bswap16 none 0x1234 ≡ 0x3412
unfolding bswap16
bswap16_run = refl

ctz-IsLowest_example : (ctz none 0x50 < 32) × IsLowest 0x50 (ctz none 0x50)
ctz-IsLowest_example = ctz-IsLowest 0x50 (omega arith) (omega arith)

parity-bits_example : parity none 0x8000_0007 ≡ bits 32 0x8000_0007 % 2
parity-bits_example = parity-bits 0x8000_0007
