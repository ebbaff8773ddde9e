-- ===== src/Mtrr/Bases.antt =====
-- Where the fixed ranges lie.
use boot.Base.{ℕ, suc, ◌+◌, ◌^◌, ◌<◌, ◌≡◌, refl, arith, ltb, if◌then◌else◌}
use boot.Mtrr.{mtrr_base}

-- The ranges of `mtrr_base` follow each other without a gap from 0 to 1 MiB: eight of 64 KiB,
-- sixteen of 16 KiB and sixty-four of 4 KiB.
pub mtrr_base-tiles :
    (mtrr : ℕ)
    → mtrr < 88
    → (mtrr_base 0 ≡ 0)
      × (mtrr_base (suc mtrr)
          ≡ mtrr_base mtrr
            + (if ltb mtrr 8 then 2 ^ 16 else if ltb mtrr 24 then 2 ^ 14 else 2 ^ 12))
      × (mtrr_base 88 ≡ 2 ^ 20)
unfolding mtrr_base
mtrr_base-tiles mtrr h = (refl, ground arith, refl)
