-- ===== src/BootPages/Start.antt =====
-- The address space that `pt_init` starts with.
use boot.Base.{[], ◌∷◌}
use boot.Base.{ℕ, ◌^◌, ◌<◌, ◌≡◌, List, some}
use boot.Mmu.{Machine, translate}
use boot.Vaddr.Access.{IsRecursive}
use boot.BootPages.{Region}

pub record IsBootSpace (m : Machine) : Type 0 where
  pub is_recursive : IsRecursive m
  pub is_identity : (va : ℕ) → va < 2 ^ 22 → translate m va ≡ some va

-- Regions that are usable.
abbrev pub IsUsable : List Region → Type 0
IsUsable [] = Unit
IsUsable (r ∷ rs) = (r.type ≡ 1) × IsUsable rs
