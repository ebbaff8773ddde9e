-- ===== src/Pmm/Tests.antt =====
-- A stack of pages at 0x400000, in the frame 9. Before its link there is the page 10, and behind
-- the link, in the frame 12, the page 13.
use boot.Base.{ℕ, ◌+◌, ◌*◌, ◌^◌, refl, arith, [], ◌==◌, ◌&&◌, if◌then◌else◌, List}
use boot.Mmu.{Machine, put_word}
use boot.Vaddr.Access.{IsRecursive}
use boot.Vaddr.Calls.{IsWords}
use boot.Pmm.{Pmm, Smap32}
use boot.Pmm.Stack.{IsStack}
use boot.Pmm.Pool.{IsPool, popped}
use boot.Pmm.Runs.{Client, Reach, next, here, write, alloc}
use boot.Pmm.Service.{IsStocked, Serves, Reach-IsStocked, Reach-Serves}
use boot.Base.{◌∷◌}
use boot.Pmm.Taking.{Taken, take_first}

abbrev words : ℕ → ℕ → ℕ
words f i =
    if f == 5 && i == 1
    then 6 * 2 ^ 12 + 3
    else if f == 5 && i == 1023
    then 5 * 2 ^ 12 + 3
    else if f == 6 && i == 0
    then 9 * 2 ^ 12 + 3
    else if f == 9 && i == 1022
    then 10 * 2 ^ 12
    else if f == 9 && i == 1023
    then 12 * 2 ^ 12
    else if f == 12 && i == 0
    then 13 * 2 ^ 12
    else 0

abbrev small : Machine
small = record { frames = words; cr3 = 5; flushed = [] }

small-IsRecursive : IsRecursive small
small-IsRecursive = record { is_present = refl; is_small = refl; is_self = refl }

small-IsWords : IsWords small
small-IsWords f i = ground arith

small-IsStack : IsStack small 0x40_0000 9
small-IsStack = record {
  low = omega arith;
  aligned = refl;
  is_present = refl;
  is_small = refl;
  entry_present = refl;
  leads = refl;
  not_dir = omega arith;
  dir_not_table = omega arith;
  not_table = omega arith;
}

-- The next place is the link, so the freed page becomes the next frame of the stack.
abbrev at_link : Pmm
at_link = record { pcount = 5000; pfree = 3976; pidx = 1024 }

abbrev three : Pmm
three = record { pcount = 4; pfree = 3; pidx = 1022 }

small-IsPool : IsPool 0x40_0000 5 6 small 9 three (10 ∷ 9 ∷ 13 ∷ []) 12
small-IsPool = record {
  words = small-IsWords;
  recursive = small-IsRecursive;
  stack = small-IsStack;
  is_dir = refl;
  is_table = refl;
  counted = refl;
  low = omega arith;
  distinct = omega arith;
  clear = omega arith;
  lists = (refl, (12, refl, refl, (refl, refl)));
}

-- Two allocations, the second across the link.
first_page : Taken 0x40_0000 5 6 small three 10 (9 ∷ 13 ∷ []) 12
first_page = take_first 0x40_0000 5 6 small 9 three 10 (9 ∷ 13 ∷ []) 12 small-IsPool

second_page : Taken 0x40_0000 5 6 first_page.after (popped three) 9 (13 ∷ []) 12
second_page =
    take_first 0x40_0000 5 6 first_page.after first_page.frame (popped three) 9 (13 ∷ []) 12
      first_page.pool

abbrev held_two : Client
held_two = record { machine = second_page.after; pmm = popped (popped three); live = 9 ∷ 10 ∷ [] }

took_two : Reach 0x40_0000 (record { machine = small; pmm = three; live = [] }) held_two
took_two =
    next (next here (alloc 10 (omega arith) first_page.runs))
      (alloc 9 (omega arith) second_page.runs)

-- The client then writes to the frame that was in use before.
wrote_one :
    Reach 0x40_0000
      (record { machine = small; pmm = three; live = [] })
      (record held_two { machine = put_word held_two.machine 9 1023 7 })
wrote_one = next took_two (write 9 1023 7 (omega arith) (omega arith))

Reach-IsStocked_example :
    IsStocked 0x40_0000 5 6
      (10 ∷ 9 ∷ 13 ∷ [])
      12
      (record held_two { machine = put_word held_two.machine 9 1023 7 })
Reach-IsStocked_example = Reach-IsStocked small-IsPool (omega arith) wrote_one

Reach-Serves_example :
    Serves 0x40_0000 5 6
      (10 ∷ 9 ∷ 13 ∷ [])
      (record held_two { machine = put_word held_two.machine 9 1023 7 })
Reach-Serves_example = Reach-Serves small-IsPool (omega arith) wrote_one

-- A usable region of three pages, and a reserved one.
abbrev two_regions : List Smap32
two_regions =
    record { base = 0x1_0000; length = 0x2001; type = 1; acpi = 1 }
    ∷ record { base = 0xF000_0000; length = 0x1000_0000; type = 2; acpi = 1 }
    ∷ []
