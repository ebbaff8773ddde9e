-- ===== src/BootPages/Tables.antt =====
-- The machine behind `new_table`: a page table of its own, with no page in it.
use boot.Base.{
  ℕ, suc, ◌+◌, ◌*◌, ◌/◌, ◌%◌, ◌^◌, ◌<◌, ◌≡◌, ◌≢◌, refl, sym, ◌∙◌, ap, arith, ok, inl, inr, ◌∷◌,
  or_below,
}
use boot.Mmu.{Machine, put_word, translate}
use boot.Vaddr.{pdi}
use boot.Vaddr.Access.{IsRecursive, pde_of, table_of, vstore_pd}
use boot.Vaddr.Calls.{dir_entry, entry, slot}
use boot.Vaddr.Translate.{
  IsOwnTable, put_word-elsewhere, put_word-here, IsRecursive-put_word, translate_small,
  translate_absent, translate_large, mod_two,
}
use boot.BootPages.{Pages, new_table}
use boot.BootPages.Allocation.{HasPages, without, palloc-HasPages}
use native.Mathlib.Decide.{ℕ_discrete}
use boot.BootPages.Emptying.{
  emptied, emptied-elsewhere, emptied-here, emptied-cr3, empty_table-emptied, emptied-IsRecursive,
}

-- No present entry of the directory but the last leads to the directory, and none leads to `t`.
pub record IsFresh (m : Machine) (t : ℕ) : Type 0 where
  pub not_dir : m.cr3 ≢ t
  pub unused : (i : ℕ) → i < 1024 → pde_of m i % 2 ≡ 1 → table_of m i ≢ t
  pub not_self : (i : ℕ) → i < 1023 → pde_of m i % 2 ≡ 1 → table_of m i ≢ m.cr3

-- The directory entry for the frame `t`.
abbrev pub table_entry : ℕ → ℕ
table_entry t = t * 2 ^ 12 + 3

abbrev pub tabled : ℕ → ℕ → Machine → Machine
tabled k t m = emptied t 1024 0 (record (put_word m m.cr3 k (table_entry t)) {
  flushed = (0xFFC0_0000 + 4 * (0x400 * k)) ∷ m.flushed;
})

module _ (m : Machine) (va t : ℕ) (r : IsRecursive m) (low : va < 0xFFC0_0000) (fresh : IsFresh m t)
    (absent : dir_entry m va % 2 ≡ 0) where
  abbrev k : ℕ
  k = pdi va

  abbrev m1 : Machine
  m1 = record (put_word m m.cr3 k (table_entry t)) {
    flushed = (0xFFC0_0000 + 4 * (0x400 * k)) ∷ m.flushed;
  }

  abbrev pub m2 : Machine
  m2 = tabled k t m

  few : k < 1023
  few = omega arith

  m1-IsRecursive : IsRecursive m1
  m1-IsRecursive =
      let w = IsRecursive-put_word m.cr3 k (table_entry t) (inr (omega arith)) r in
      record { is_present = w.is_present; is_small = w.is_small; is_self = w.is_self }

  m1-here : pde_of m1 k ≡ table_entry t
  m1-here = put_word-here m m.cr3 k (table_entry t) m.cr3 k refl refl

  pub m2-IsRecursive : IsRecursive m2
  m2-IsRecursive = emptied-IsRecursive t 1024 0 m1 fresh.not_dir m1-IsRecursive

  m2-cr3 : m2.cr3 ≡ m.cr3
  m2-cr3 = emptied-cr3 t 1024 0 m1

  m2-dir : (i : ℕ) → pde_of m2 i ≡ pde_of m1 i
  m2-dir i = ap (λ c. m2.frames c i) m2-cr3 ∙ emptied-elsewhere t 1024 0 m1 m.cr3 i fresh.not_dir

  m2-other : (i : ℕ) → i ≢ k → pde_of m2 i ≡ pde_of m i
  m2-other i ne =
      m2-dir i ∙ put_word-elsewhere m m.cr3 k (table_entry t) m.cr3 m.cr3 i refl (inr ne)

  m2-here : pde_of m2 k ≡ table_entry t
  m2-here = m2-dir k ∙ m1-here

  pub m2-IsOwnTable : IsOwnTable m2 va
  m2-IsOwnTable = record {
    is_present = rw m2-here (omega arith);
    is_small = rw m2-here (omega arith);
    is_not_self = omega arith;
    is_alone = λ i lt ne p e. fresh.unused i lt (rw (sym (m2-other i ne)) p) (
        let a : table_of m2 k ≡ t = rw m2-here (omega arith) in
        ap (λ w. w / 2 ^ 12) (sym (m2-other i ne)) ∙ (e ∙ a));
  }

  m2-empty : (j : ℕ) → j < 1024 → m2.frames t j ≡ 2
  m2-empty j lt = emptied-here t 1024 0 m1 j (omega arith) (omega arith)

  module _ (at : ℕ) (low' : at < 0xFFC0_0000) where
    same_table : pdi at ≡ k → translate m2 at ≡ translate m at
    same_table e =
        let d : dir_entry m2 at ≡ table_entry t = ap (pde_of m2) e ∙ m2-here in
        let f : entry m2 at ≡ 2 =
          let a : table_of m2 (pdi at) ≡ t = rw d (omega arith) in
          ap (λ g. m2.frames g (slot at)) a ∙ m2-empty (slot at) (omega arith) in
        translate_small m2 at (omega arith) (rw d (omega arith)) (rw d (omega arith))
        ∙ (rw f refl ∙ sym (translate_absent m at (omega arith) (rw e absent)))

    other_entry : pdi at ≢ k → dir_entry m at % 2 ≡ 1 → entry m2 at ≡ entry m at
    other_entry ne p =
        ap (λ w. m2.frames (w / 2 ^ 12) (slot at)) (m2-other (pdi at) ne)
        ∙ (emptied-elsewhere t 1024 0 m1 (table_of m (pdi at)) (slot at)
              (fresh.unused (pdi at) (omega arith) p)
            ∙ put_word-elsewhere m m.cr3 k (table_entry t) (table_of m (pdi at))
                (table_of m (pdi at)) (slot at) refl
                (inl (fresh.not_self (pdi at) (omega arith) p)))

    other_table : pdi at ≢ k → translate m2 at ≡ translate m at
    other_table ne =
        let d = m2-other (pdi at) ne in
        elim (mod_two (dir_entry m at)) [
          | inl e ↦
              translate_absent m2 at (omega arith) (rw d e)
              ∙ sym (translate_absent m at (omega arith) e)
          | inr p ↦ elim (mod_two (dir_entry m at / 2 ^ 7)) [
            | inl s ↦
                translate_small m2 at (omega arith) (rw d p) (rw d s)
                ∙ rw (other_entry ne p) (sym (translate_small m at (omega arith) p s))
            | inr s ↦
                translate_large m2 at (omega arith) (rw d p) (rw d s)
                ∙ rw d (sym (translate_large m at (omega arith) p s))
          ]
        ]

    -- The empty table changes no translation.
    pub m2-translate : translate m2 at ≡ translate m at
    m2-translate = elim (ℕ_discrete (pdi at) k) [ yes e ↦ same_table e | no ne ↦ other_table ne ]

  pub new_table-tabled :
      (p : Pages) (n : ℕ)
      → HasPages p (suc n) (suc t)
      → new_table k (0xFFC0_0000 + 4 * (0x400 * k)) p m ≡ ok (without p t, m2)
  unfolding new_table
  new_table-tabled p n h =
      rw
        (
          palloc-HasPages p n t h,
          or_below 12 t 3 (omega arith),
          vstore_pd r k (table_entry t) (omega arith),
          empty_table-emptied k t 1024 0 m1 m1-IsRecursive (omega arith) (omega arith)
              (rw m1-here (omega arith)) (rw m1-here (omega arith)) fresh.not_dir,
        )
        refl
