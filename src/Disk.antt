-- ===== src/Disk.antt =====
-- stage2/pff3a/source/diskio.c: the loader's sector reads, with the last sector kept in `buf`. What
-- the BIOS call of `readSector` stores for a sector and a drive is the argument `read_sector`.
pub mod Cache
mod Tests
use boot.Base.{
  ℕ, ◌+◌, ◌^◌, List, [], ◌++◌, Bool, ◌||◌, ◌==◌, if◌then◌else◌, ltb, leb, add32, length, take, drop,
}
use boot.Base.{Outcome, ok, fault, ◌>>=◌}

-- The static variables.
pub record Disk : Type 0 where
  pub drive : ℕ
  pub current_sector : ℕ
  pub buf : List ℕ

abbrev pub res_ok : ℕ
res_ok = 0

abbrev pub res_parerr : ℕ
res_parerr = 3

abbrev pub sta_noinit : ℕ
sta_noinit = 1

abbrev pub no_sector : ℕ
no_sector = 0xFFFF_FFFF

abbrev pub set_drive : ℕ → Disk → Disk
set_drive drv d = record d { drive = drv }

abbrev pub disk_initialize : Disk → ℕ
disk_initialize d = if d.drive == 0xFFFF then sta_noinit else 0

-- The bytes that the copy loop reads from `buf`.
abbrev pub copied : List ℕ → ℕ → ℕ → Outcome (List ℕ)
copied buf offset count =
    if leb (offset + count) (length buf) then ok (take count (drop offset buf)) else fault

-- `buf` holds the sector.
abbrev pub filled : (ℕ → ℕ → List ℕ) → ℕ → Disk → Disk
filled read_sector sector d =
    if d.current_sector == sector
    then d
    else record d { buf = read_sector sector d.drive ++ drop 512 d.buf; current_sector = sector }

-- The result, the bytes that went to `buff`, and the variables. `null` says that `buff` is NULL.
unfoldable pub disk_readp : (ℕ → ℕ → List ℕ) → Bool → ℕ → ℕ → ℕ → Disk → Outcome (ℕ × List ℕ × Disk)
disk_readp read_sector null sector offset count d =
    let reading = (do
      bytes ← copied (filled read_sector sector d).buf offset count
      ok (res_ok, bytes, filled read_sector sector d)) in
    if null || leb 512 offset || ltb 512 (add32 offset count)
    then ok (res_parerr, [], d)
    else reading
