-- ===== src/BootPages/Mapping.antt =====
-- What the loader's `pt_map` does to the translation of addresses.
use boot.Base.{ℕ, ◌+◌, ◌*◌, ◌/◌, ◌%◌, ◌^◌, ◌<◌, ◌≡◌, ok, some, if◌then◌else◌}
use boot.Mmu.{Machine, translate}
use boot.Vaddr.Access.{IsRecursive}
use boot.Vaddr.Calls.{dir_entry, replaced}
use boot.Vaddr.Translate.{IsOwnTable, same_page}
use boot.BootPages.{Pages, boot_pt_map}
use boot.BootPages.Tables.{IsFresh, table_entry}
use boot.Base.{◌⊎◌}

-- The machine when the page of `va` leads to the frame `q`.
abbrev pub leading : Machine → ℕ → ℕ → Machine
leading m va q = replaced m va (table_entry q) (va / 2 ^ 12 * 2 ^ 12)

-- The frame that `va` gets, with the state then.
pub record Maps (va : ℕ) (p : Pages) (m : Machine) (q : ℕ) : Type 0 where
  pub pages : Pages
  pub after : Machine
  pub runs : boot_pt_map va p m ≡ ok (pages, after)
  pub recursive : IsRecursive after
  pub translated :
      (at : ℕ)
      → at < 0xFFC0_0000
      → translate after at
        ≡ (if same_page at va then some (q * 2 ^ 12 + at % 2 ^ 12) else translate m at)

-- The directory entry for `va` leads to a page table of its own, or it is absent and the frame `t`
-- can become one.
abbrev pub IsReady : Machine → ℕ → ℕ → Type 0
IsReady m va t = IsOwnTable m va ⊎ ((dir_entry m va % 2 ≡ 0) × IsFresh m t)
