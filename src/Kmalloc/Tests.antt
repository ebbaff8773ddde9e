-- ===== src/Kmalloc/Tests.antt =====
-- A page directory at frame 5 with an empty page table, at frame 6, for the address 0xC0000000.
use boot.Base.{Outcome, fault}
use mathlib.Core.List.{Perm}
use boot.Base.{
  ℕ, ◌+◌, ◌*◌, ◌^◌, ◌≡◌, refl, arith, List, [], ◌∷◌, length, ok, panic, ◌&&◌, ◌==◌, if◌then◌else◌,
}
use boot.Mmu.{Machine}
use boot.Vaddr.Access.{IsRecursive, table_of}
use boot.Kmalloc.{PtInfo, by_free, set_ptinfo, vinit_rounds, bubble}
use boot.Kmalloc.Counting.{counted, absent_from, set_ptinfo-counted}
use boot.Base.{Ensures}
use boot.Kmalloc.{Kmalloc, valloc}
use boot.Kmalloc.Taking.{IsTaken, valloc-IsTaken}
use boot.Kmalloc.Bubble.{IsAscendingBut, none_info, bubble-IsAscending}
use boot.Sort.Order.{IsAscending}

abbrev words : ℕ → ℕ → ℕ
words f i =
    if f == 5 && i == 1023 then 5 * 2 ^ 12 + 3 else if f == 5 && i == 768 then 6 * 2 ^ 12 + 3 else 0

abbrev kernel : Machine
kernel = record { frames = words; cr3 = 5; flushed = [] }

kernel-IsRecursive : IsRecursive kernel
kernel-IsRecursive = record { is_present = refl; is_small = refl; is_self = refl }

abbrev info_of : ℕ → ℕ → PtInfo
info_of free pdi = record { free = free; pdi = pdi; first_free = 0 }

set_ptinfo-counted_example :
    set_ptinfo 0 (info_of 0 0) kernel
    ≡ ok (counted (kernel.frames (table_of kernel (768 + 0))) (info_of 0 0), kernel)
set_ptinfo-counted_example =
    set_ptinfo-counted kernel 0 (info_of 0 0) kernel-IsRecursive (omega arith) refl

table_empty : absent_from (kernel.frames (table_of kernel (768 + 0))) 1024 0 ≡ 1024
unfolding absent_from
table_empty = refl

-- The first record has just got one more free page.
abbrev records : List PtInfo
records = info_of 4 2 ∷ info_of 3 0 ∷ info_of 7 1 ∷ []

records-IsAscendingBut : IsAscendingBut 0 3 records
unfolding by_free
records-IsAscendingBut p q pq qn ne =
    let e : p ≡ 1 = omega arith in let f : q ≡ 2 = omega arith in rw (e, f) refl

bubble-IsAscending_example :
    (b : List PtInfo) × (bubble 2 0 records ≡ ok b)
    × Perm b records
    × IsAscending none_info (length records) b
bubble-IsAscending_example = bubble-IsAscending 2 0 records refl records-IsAscendingBut

-- One table with three free pages, and no physical page.
abbrev three_free : Kmalloc
three_free = record {
  ptmeta = info_of 3 0 ∷ [];
  ptmeta_first_free = 0;
  pmm = record { pcount = 0; pfree = 0; pidx = 0 };
}

valloc-IsTaken_example :
    Ensures (λ (r, m'). IsTaken three_free r.0 r.1) (valloc 0x1000 three_free kernel)
valloc-IsTaken_example =
    valloc-IsTaken 0x1000 three_free kernel (omega arith) (omega arith) (omega arith)

-- The page that a run takes: the first one of the first table.
abbrev taken : Outcome ((ℕ × Kmalloc) × Machine) → ℕ
taken (ok ((vaddr, k), m)) = vaddr
taken panic = 0
taken fault = 0

takes_first : taken (valloc 0x1000 three_free kernel) ≡ 0xC000_0000
unfolding valloc boot.Kmalloc.take_page boot.Kmalloc.update_first_free boot.Mmu.vload boot.Mmu.walk
    boot.Kmalloc.next_free boot.Pmm.pmm_alloc_ppage boot.Vaddr.pt_map boot.Mmu.vstore
takes_first = refl
