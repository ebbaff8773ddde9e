-- ===== src/Vaddr/Access.antt =====
-- What the accesses through the recursive entry reach.
use boot.Base.{ℕ, ◌*◌, ◌/◌, ◌%◌, ◌^◌, ◌<◌, ◌≡◌, refl, arith, some, ok, ◌==◌}
use boot.Mmu.{Machine, walk, vload, vstore, put_word}
use boot.Vaddr.{pd_at, pt_at, pti, absent}
use boot.Base.{bit_and_low, bit_and_one}

-- The last entry of the page directory leads back to the directory.
pub record IsRecursive (m : Machine) : Type 0 where
  pub is_present : m.frames m.cr3 1023 % 2 ≡ 1
  pub is_small : m.frames m.cr3 1023 / 2 ^ 7 % 2 ≡ 0
  pub is_self : m.frames m.cr3 1023 / 2 ^ 12 ≡ m.cr3

-- The entry of the page directory for an address, and the frame of its page table.
abbrev pub pde_of : Machine → ℕ → ℕ
pde_of m i = m.frames m.cr3 i

abbrev pub table_of : Machine → ℕ → ℕ
table_of m i = pde_of m i / 2 ^ 12

pub pti_lem : (va : ℕ) → pti va ≡ va / 2 ^ 12 % 2 ^ 10
pti_lem va = bit_and_low 10 (va / 2 ^ 12)

pub absent_lem : (e : ℕ) → absent e ≡ (e % 2 == 0)
absent_lem e = rw (bit_and_one e) refl

module _ {m : Machine} (r : IsRecursive m) where
  walk_pd : (i : ℕ) → i < 1024 → walk m (pd_at i) ≡ some (m.cr3, 4 * i)
  unfolding walk
  walk_pd i h =
      let e1 : pd_at i / 2 ^ 22 % 2 ^ 10 ≡ 1023 = omega arith in
      let e2 : pd_at i / 2 ^ 12 % 2 ^ 10 ≡ 1023 = omega arith in
      let e3 : pd_at i % 2 ^ 12 ≡ 4 * i = omega arith in
      rw (e1, e2, e3) (rw (r.is_self, r.is_small) (rw (r.is_present, r.is_self) refl))

  walk_pt :
      (i j : ℕ)
      → i < 1024
      → j < 1024
      → pde_of m i % 2 ≡ 1
      → walk m (pt_at i j) ≡ some (table_of m i, 4 * j)
  unfolding walk
  walk_pt i j hi hj p =
      let e1 : pt_at i j / 2 ^ 22 % 2 ^ 10 ≡ 1023 = omega arith in
      let e2 : pt_at i j / 2 ^ 12 % 2 ^ 10 ≡ i = omega arith in
      let e3 : pt_at i j % 2 ^ 12 ≡ 4 * j = omega arith in
      rw (e1, e2, e3) (rw (r.is_self, r.is_small) (rw (r.is_present, p) refl))

  pub vload_pd : (i : ℕ) → i < 1024 → vload (pd_at i) m ≡ ok (pde_of m i, m)
  unfolding vload
  vload_pd i h = let e : 4 * i / 4 ≡ i = omega arith in rw (walk_pd i h, vload) (rw e refl)

  pub vload_pt :
      (i j : ℕ)
      → i < 1024
      → j < 1024
      → pde_of m i % 2 ≡ 1
      → vload (pt_at i j) m ≡ ok (m.frames (table_of m i) j, m)
  unfolding vload
  vload_pt i j hi hj p =
      let e : 4 * j / 4 ≡ j = omega arith in rw (walk_pt i j hi hj p, vload) (rw e refl)

  pub vstore_pd : (i v : ℕ) → i < 1024 → vstore (pd_at i) v m ≡ ok (tt, put_word m m.cr3 i v)
  unfolding vstore
  vstore_pd i v h = let e : 4 * i / 4 ≡ i = omega arith in rw (walk_pd i h, vstore) (rw e refl)

  pub vstore_pt :
      (i j v : ℕ)
      → i < 1024
      → j < 1024
      → pde_of m i % 2 ≡ 1
      → vstore (pt_at i j) v m ≡ ok (tt, put_word m (table_of m i) j v)
  unfolding vstore
  vstore_pt i j v hi hj p =
      let e : 4 * j / 4 ≡ j = omega arith in rw (walk_pt i j hi hj p, vstore) (rw e refl)
