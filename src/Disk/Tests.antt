-- ===== src/Disk/Tests.antt =====
-- A disk whose sectors are filled with their numbers.
use boot.Base.{ℕ, ◌≡◌, refl, arith, List, ok, false, replicate, take, drop, length-replicate}
use boot.Disk.{Disk, disk_readp, res_ok, no_sector}
use boot.Disk.Cache.{IsCached, disk_readp-reads}

abbrev numbered : ℕ → ℕ → List ℕ
numbered s d = replicate 512 s

abbrev fresh : Disk
fresh = record { drive = 0x80; current_sector = no_sector; buf = replicate 514 0 }

fresh-IsCached : IsCached numbered fresh
fresh-IsCached = record {
  sized = omega (arith, length-replicate {A = ℕ} 514 0);
  holds = λ h. absurd (h refl);
}

disk_readp-reads_example :
    (out : Disk) × (disk_readp numbered false 7 500 12 fresh
      ≡ ok (res_ok, take 12 (drop 500 (numbered 7 0x80)), out))
    × IsCached numbered out
    × (out.drive ≡ 0x80)
disk_readp-reads_example =
    disk_readp-reads numbered 7 500 12 fresh (λ s d. length-replicate 512 s) fresh-IsCached
      (omega arith) (omega arith) (omega arith)
