-- ===== src/BootPages/Emptying.antt =====
-- A new page table is empty.
use boot.Base.{ℕ, zero, suc, ◌+◌, ◌*◌, ◌%◌, ◌<◌, ◌≤◌, ◌≡◌, ◌≢◌, refl, ◌∙◌, arith, ok, inl, inr, ◌⊎◌}
use boot.Mmu.{Machine, put_word}
use boot.Vaddr.Access.{IsRecursive, pde_of, table_of, vstore_pt}
use boot.Vaddr.Translate.{put_word-elsewhere, put_word-here, IsRecursive-put_word}
use boot.BootPages.{empty_table}
use native.Mathlib.Decide.{ℕ_discrete}

-- The machine after the stores from the entry `i` on.
pub emptied : ℕ → ℕ → ℕ → Machine → Machine
emptied t zero i m = m
emptied t (suc left) i m = emptied t left (i + 1) (put_word m t i 2)

emptied-same :
    (t left i : ℕ) (m : Machine) (g j : ℕ)
    → (g ≢ t) ⊎ (j < i)
    → (emptied t left i m).frames g j ≡ m.frames g j
unfolding emptied
emptied-same t zero i m g j h = refl
emptied-same t (suc left) i m g j (inl ne) =
    emptied-same t left (i + 1) (put_word m t i 2) g j (inl ne)
    ∙ put_word-elsewhere m t i 2 g g j refl (inl ne)
emptied-same t (suc left) i m g j (inr lt) =
    emptied-same t left (i + 1) (put_word m t i 2) g j (inr (omega arith))
    ∙ put_word-elsewhere m t i 2 g g j refl (inr (omega arith))

pub emptied-elsewhere :
    (t left i : ℕ) (m : Machine) (g j : ℕ) → g ≢ t → (emptied t left i m).frames g j ≡ m.frames g j
emptied-elsewhere t left i m g j ne = emptied-same t left i m g j (inl ne)

pub emptied-here :
    (t left i : ℕ) (m : Machine) (j : ℕ)
    → i ≤ j
    → j < i + left
    → (emptied t left i m).frames t j ≡ 2
unfolding emptied
emptied-here t zero i m j le lt = absurd (omega arith)
emptied-here t (suc left) i m j le lt = elim (ℕ_discrete j i) [
  | yes e ↦
      emptied-same t left (i + 1) (put_word m t i 2) t j (inr (omega arith))
      ∙ put_word-here m t i 2 t j refl e
  | no ne ↦ emptied-here t left (i + 1) (put_word m t i 2) j (omega arith) (omega arith)
]

pub emptied-cr3 : (t left i : ℕ) (m : Machine) → (emptied t left i m).cr3 ≡ m.cr3
unfolding emptied
emptied-cr3 t zero i m = refl
emptied-cr3 t (suc left) i m = emptied-cr3 t left (i + 1) (put_word m t i 2)

-- The loop over the page table of the directory entry `k`.
pub empty_table-emptied :
    (k t left i : ℕ) (m : Machine)
    → IsRecursive m
    → k < 1024
    → i + left ≤ 1024
    → pde_of m k % 2 ≡ 1
    → table_of m k ≡ t
    → m.cr3 ≢ t
    → empty_table left i (0xFFC0_0000 + 4 * (0x400 * k)) m ≡ ok (tt, emptied t left i m)
unfolding empty_table emptied
empty_table-emptied k t zero i m r hk hi p e ne = refl
empty_table-emptied k t (suc left) i m r hk hi p e ne =
    let m1 = put_word m t i 2 in
    let dir = put_word-elsewhere m t i 2 m.cr3 m.cr3 k refl (inl ne) in
    let r1 = IsRecursive-put_word t i 2 (inl ne) r in
    rw (vstore_pt r k i 2 hk (omega arith) p, e)
      (empty_table-emptied k t left (i + 1) m1 r1 hk (omega arith) (rw dir p) (rw dir e) ne)

-- The directory leads to itself as before.
pub emptied-IsRecursive :
    (t left i : ℕ) (m : Machine) → m.cr3 ≢ t → IsRecursive m → IsRecursive (emptied t left i m)
unfolding emptied
emptied-IsRecursive t zero i m ne r = r
emptied-IsRecursive t (suc left) i m ne r =
    emptied-IsRecursive t left (i + 1) (put_word m t i 2) ne (IsRecursive-put_word t i 2 (inl ne) r)
