-- ===== src/Pmm/Init.antt =====
-- What `pmm_init` makes of a memory map.
use boot.Base.{
  ℕ, zero, suc, ◌+◌, ◌-◌, ◌/◌, ◌%◌, ◌^◌, ◌≤◌, ◌≡◌, List, [], ◌∷◌, ◌++◌, ok, Outcome, ◌==◌, length,
  count, if◌then◌else◌,
}
use boot.Mmu.{Machine}
use boot.MemoryMap.{Smap32}
use boot.Pmm.{Pmm, pmm_init}
use boot.Pmm.Pool.{IsPool}
use boot.Pmm.Filling.{IsFilling, counting}

-- `n` page frames from `a` on.
abbrev pub frames_from : ℕ → ℕ → List ℕ
frames_from zero a = []
frames_from (suc n) a = a ∷ frames_from n (a + 1)

-- The page frames that begin inside a region.
abbrev pub pages_of : Smap32 → List ℕ
pages_of r = frames_from ((r.length + 0xFFF) / 2 ^ 12) (r.base / 2 ^ 12)

-- Those of the usable regions at the front of the map.
abbrev pub usable : List Smap32 → List ℕ
usable [] = []
usable (r ∷ rs) = if r.type == 1 then pages_of r ++ usable rs else []

-- Usable regions begin at a page, and end a page before 4 GiB.
abbrev pub IsCoarse : List Smap32 → Type 0
IsCoarse [] = Unit
IsCoarse (r ∷ rs) =
    (r.type ≡ 1 → (r.base % 2 ^ 12 ≡ 0) × (r.base + r.length ≤ 2 ^ 32 - 2 ^ 12)) × IsCoarse rs

module _ (at d t f : ℕ) where
  -- A run that stored the pages `new`.
  record Filled (run : Outcome (Pmm × Machine)) (p : Pmm) (g : ℕ) (qs new pending : List ℕ)
      : Type 0 where
    after : Machine
    frame : ℕ
    pages : List ℕ
    runs : run ≡ ok (counting p pages, after)
    filling : IsFilling at d t f after frame pages pending
    split : (x : ℕ) → count x (frame ∷ pages) ≡ count x (g ∷ qs) + count x new

  -- The state behind `pmm_init`.
  pub record Started (e820 : List Smap32) (p : Pmm) (m : Machine) : Type 0 where
    pub after : Machine
    pub pages : List ℕ
    pub last : ℕ
    pub runs :
        pmm_init at e820 p m
        ≡ ok (record { pcount = length pages + 1; pfree = length pages + 1; pidx = 0 }, after)
    pub pool :
        IsPool at d t after f
          (record { pcount = length pages + 1; pfree = length pages; pidx = 0 })
          pages
          last
    pub same_pages : (x : ℕ) → count x (last ∷ pages) ≡ count x (f ∷ usable e820)
