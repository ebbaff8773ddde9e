-- ===== src/Mmu.antt =====
-- The paging unit of the processor, as stage3/mem/vaddr.cpp finds it: physical memory as page
-- frames of 1024 words, the frame of the page directory in CR3, and the addresses given to
-- `invlpg`, the latest first. Every access of the kernel goes through a virtual address.
use boot.Base.{ℕ, ◌+◌, ◌*◌, ◌/◌, ◌%◌, ◌^◌, Bool, ◌&&◌, Option, none, some, List, ◌∷◌}
use boot.Base.{◌==◌, if◌then◌else◌}
use boot.Base
use boot.Base.{Outcome, ok, panic, fault}

-- `frames f i` is the word `i` of the page frame at the physical address `f * 4096`.
pub record Machine : Type 0 where
  pub frames : ℕ → ℕ → ℕ
  pub cr3 : ℕ
  pub flushed : List ℕ

-- A command of the kernel: it returns, stops at an assertion, or meets a page fault.
abbrev pub Cmd : Type 0 → Type 0
Cmd A = Machine → Outcome (A × Machine)

abbrev pub ret : {A : Type 0} → A → Cmd A
ret a m = ok (a, m)

infixl 5 ◌>>=◌ ◌>>◌
abbrev pub ◌>>=◌ : {A B : Type 0} → Cmd A → (A → Cmd B) → Cmd B
◌>>=◌ c k m = Base.◌>>=◌ (c m) λ (a, m'). k a m'

abbrev pub ◌>>◌ : {B : Type 0} → Cmd (Unit {0}) → Cmd B → Cmd B
c >> k = c >>= λ _. k

-- Where a virtual address leads: through the page directory and a page table, or through a 4 MiB
-- entry of the directory (bit 7).
unfoldable pub walk : Machine → ℕ → Option (ℕ × ℕ)
walk m va =
    let pde = m.frames m.cr3 (va / 2 ^ 22 % 2 ^ 10) in
    let pte = m.frames (pde / 2 ^ 12) (va / 2 ^ 12 % 2 ^ 10) in
    let small = (if pte % 2 == 0 then none else some (pte / 2 ^ 12, va % 2 ^ 12)) in
    if pde % 2 == 0
    then none
    else if pde / 2 ^ 7 % 2 == 0
    then small
    else some (pde / 2 ^ 22 * 2 ^ 10 + va / 2 ^ 12 % 2 ^ 10, va % 2 ^ 12)

-- The physical address of a virtual one.
unfoldable pub translate : Machine → ℕ → Option ℕ
unfolding walk
translate m va = elim (walk m va) [ none ↦ none | some (f, o) ↦ some (f * 2 ^ 12 + o) ]

-- A word of memory, at a virtual address that is a multiple of 4.
unfoldable pub vload : ℕ → Cmd ℕ
vload va m = elim (walk m va) [ none ↦ fault | some (f, o) ↦ ok (m.frames f (o / 4), m) ]

abbrev pub put_word : Machine → ℕ → ℕ → ℕ → Machine
put_word m f i v = record m { frames = λ g j. if g == f && j == i then v else m.frames g j }

unfoldable pub vstore : ℕ → ℕ → Cmd (Unit {0})
vstore va v m = elim (walk m va) [ none ↦ fault | some (f, o) ↦ ok (tt, put_word m f (o / 4) v) ]

abbrev pub invlpg : ℕ → Cmd (Unit {0})
invlpg va m = ok (tt, record m { flushed = va ∷ m.flushed })
