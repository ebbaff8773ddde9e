-- ===== src/Acpi/Sum.antt =====
-- The checksum is the sum of the bytes.
use boot.Base.{ℕ, zero, suc, ◌+◌, ◌%◌, ◌^◌, ◌<◌, ◌≡◌, arith, ◌∙◌, ap}
use boot.Acpi.{checksum_rounds, checksum}

-- The sum of the bytes from `a` on.
unfoldable pub total : (ℕ → ℕ) → ℕ → ℕ → ℕ
total memory a zero = 0
total memory a (suc n) = memory a + total memory (a + 1) n

checksum_rounds-total :
    (memory : ℕ → ℕ) (left a csum : ℕ)
    → csum < 2 ^ 8
    → checksum_rounds memory left a csum ≡ (csum + total memory a left) % 2 ^ 8
unfolding checksum_rounds total
checksum_rounds-total memory zero a csum h = omega arith
checksum_rounds-total memory (suc left) a csum h =
    omega
      (arith, checksum_rounds-total memory left (a + 1) ((csum + memory a) % 2 ^ 8) (omega arith))

-- `checksum` is the sum of the bytes of the block modulo 256.
pub checksum-total :
    (memory : ℕ → ℕ) (block size : ℕ) → checksum memory block size ≡ total memory block size % 2 ^ 8
unfolding checksum
checksum-total memory block size =
    let z : 0 + total memory block size ≡ total memory block size = omega arith in
    checksum_rounds-total memory size block 0 (omega arith) ∙ ap (λ t. t % 2 ^ 8) z
