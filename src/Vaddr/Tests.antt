-- ===== src/Vaddr/Tests.antt =====
-- A directory at frame 5 with a page table at frame 6 for its entry 0, and runs on it.
use boot.Base.{
  ℕ, ◌+◌, ◌*◌, ◌/◌, ◌%◌, ◌^◌, ◌<◌, ◌≡◌, refl, arith, ok, some, none, if◌then◌else◌, ◌==◌, ◌&&◌,
}
use mathlib.Core.Option
use boot.Mmu.{Machine, translate}
use boot.Vaddr.{pt_invalid_page, get_paddr, pt_map, pt_unmap}
use boot.Vaddr.Access.{IsRecursive}
use boot.Vaddr.Calls.{IsWords, entry}
use boot.Vaddr.Translate.{IsOwnTable, same_page, get_paddr-translate}
use boot.Vaddr.Mapping.{pt_map-translate, pt_unmap-translate}
use boot.Base.{[]}

-- Entry 0 leads to the table, entry 1023 to the directory; page 2 leads to frame 9.
abbrev words : ℕ → ℕ → ℕ
words f i =
    if f == 5 && i == 0
    then 6 * 2 ^ 12 + 3
    else if f == 5 && i == 1023
    then 5 * 2 ^ 12 + 3
    else if f == 6 && i == 2
    then 9 * 2 ^ 12 + 3
    else 0

abbrev small : Machine
small = record { frames = words; cr3 = 5; flushed = [] }

small-IsRecursive : IsRecursive small
small-IsRecursive = record { is_present = refl; is_small = refl; is_self = refl }

small-IsWords : IsWords small
small-IsWords f i = ground arith

small-IsOwnTable : IsOwnTable small 0x2010
small-IsOwnTable = record {
  is_present = refl;
  is_small = refl;
  is_not_self = omega arith;
  is_alone = λ i h n p q. ground arith;
}

get_paddr-translate_example :
    get_paddr 0x2010 small ≡ ok (Option.get_or (translate small 0x2010) pt_invalid_page, small)
get_paddr-translate_example =
    get_paddr-translate 0x2010 small-IsRecursive small-IsWords (omega arith) refl

pt_map-translate_example :
    (m' : Machine) × (pt_map (7 * 2 ^ 12) 0x2010 3 small ≡ ok (entry small 0x2010, m'))
    × IsRecursive m'
    × ((at : ℕ)
        → at < 2 ^ 32
        → translate m' at
          ≡ (if same_page at 0x2010 then some (7 * 2 ^ 12 + at % 2 ^ 12) else translate small at))
pt_map-translate_example =
    pt_map-translate 0x2010 7 3 small-IsRecursive small-IsOwnTable (omega arith)

pt_unmap-translate_example :
    (m' : Machine) × (pt_unmap 0x2010 small ≡ ok (entry small 0x2010 / 2 ^ 12 * 2 ^ 12, m'))
    × IsRecursive m'
    × ((at : ℕ)
        → at < 2 ^ 32
        → translate m' at ≡ (if same_page at 0x2010 then none else translate small at))
pt_unmap-translate_example =
    pt_unmap-translate 0x2010 small-IsRecursive small-IsWords small-IsOwnTable (omega arith)
