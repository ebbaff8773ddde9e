-- ===== src/Vaddr/Calls.antt =====
-- Each function of vaddr.cpp in terms of the page tables themselves.
use boot.Base.{
  ℕ, ◌+◌, ◌*◌, ◌/◌, ◌%◌, ◌^◌, ◌<◌, ◌≡◌, refl, arith, ok, bit_and, bit_or, ◌==◌, if◌then◌else◌, ◌∷◌,
}
use boot.Mmu.{Machine, put_word}
use boot.Vaddr.{pt_invalid_page, pdi, get_paddr, pt_map, pt_unmap, get_flags, vmark}
use boot.Vaddr.Access.{
  IsRecursive, pde_of, table_of, vload_pd, vload_pt, vstore_pt, pti_lem, absent_lem,
}
use boot.Base.{clear_low_bit, page_mask, offset_mask, Bool-cases, inl, inr}

-- Every word is a 32-bit one.
abbrev pub IsWords : Machine → Type 0
IsWords m = (f i : ℕ) → m.frames f i < 2 ^ 32

-- The entries for a virtual address.
abbrev pub dir_entry : Machine → ℕ → ℕ
dir_entry m va = pde_of m (pdi va)

abbrev pub slot : ℕ → ℕ
slot va = va / 2 ^ 12 % 2 ^ 10

abbrev pub entry : Machine → ℕ → ℕ
entry m va = m.frames (table_of m (pdi va)) (slot va)

-- The machine after the entry for `va` was replaced and an address was flushed.
abbrev pub replaced : Machine → ℕ → ℕ → ℕ → Machine
replaced m va v flush = record (put_word m (table_of m (pdi va)) (slot va) v) {
  flushed = flush ∷ m.flushed;
}

-- The entry that `pt_map` writes.
abbrev pub mapping : ℕ → ℕ → ℕ
mapping paddr flags = bit_or (bit_or paddr (bit_and flags 0xFFF)) 1

module _ {m : Machine} (r : IsRecursive m) (va : ℕ) (low : va < 2 ^ 32) where
  pub get_paddr-absent : dir_entry m va % 2 ≡ 0 → get_paddr va m ≡ ok (pt_invalid_page, m)
  unfolding get_paddr
  get_paddr-absent e = rw (vload_pd r (pdi va) (omega arith), absent_lem (dir_entry m va), e) refl

  pub get_paddr-present :
      IsWords m
      → dir_entry m va % 2 ≡ 1
      → get_paddr va m
        ≡ ok (
          if entry m va % 2 == 0
              then pt_invalid_page
              else entry m va / 2 ^ 12 * 2 ^ 12 + va % 2 ^ 12,
          m,
        )
  unfolding get_paddr
  get_paddr-present words e =
      rw
        (
          vload_pd r (pdi va) (omega arith),
          absent_lem (dir_entry m va),
          e,
          pti_lem va,
          vload_pt r (pdi va) (slot va) (omega arith) (omega arith) e,
          absent_lem (entry m va),
          page_mask (entry m va) (words (table_of m (pdi va)) (slot va)),
          offset_mask va,
        )
        (elim (Bool-cases (entry m va % 2 == 0)) [ inl t ↦ rw t refl | inr f ↦ rw f refl ])

  pub pt_map-absent :
      (paddr flags : ℕ) → dir_entry m va % 2 ≡ 0 → pt_map paddr va flags m ≡ ok (pt_invalid_page, m)
  unfolding pt_map
  pt_map-absent paddr flags e =
      rw (vload_pd r (pdi va) (omega arith), absent_lem (dir_entry m va), e) refl

  pub pt_map-present :
      (paddr flags : ℕ)
      → dir_entry m va % 2 ≡ 1
      → pt_map paddr va flags m
        ≡ ok (entry m va, replaced m va (mapping paddr flags) (va / 2 ^ 12 * 2 ^ 12))
  unfolding pt_map
  pt_map-present paddr flags e =
      rw
        (
          vload_pd r (pdi va) (omega arith),
          absent_lem (dir_entry m va),
          e,
          pti_lem va,
          vload_pt r (pdi va) (slot va) (omega arith) (omega arith) e,
          vstore_pt r (pdi va) (slot va) (mapping paddr flags) (omega arith) (omega arith) e,
          page_mask va low,
        )
        refl

  pub pt_unmap-absent : dir_entry m va % 2 ≡ 0 → pt_unmap va m ≡ ok (0, m)
  unfolding pt_unmap
  pt_unmap-absent e = rw (vload_pd r (pdi va) (omega arith), absent_lem (dir_entry m va), e) refl

  pub pt_unmap-present :
      IsWords m
      → dir_entry m va % 2 ≡ 1
      → pt_unmap va m ≡ ok (entry m va / 2 ^ 12 * 2 ^ 12, replaced m va (entry m va / 2 * 2) va)
  unfolding pt_unmap
  pt_unmap-present words e =
      rw
        (
          vload_pd r (pdi va) (omega arith),
          absent_lem (dir_entry m va),
          e,
          pti_lem va,
          vload_pt r (pdi va) (slot va) (omega arith) (omega arith) e,
          clear_low_bit (entry m va) (words (table_of m (pdi va)) (slot va)),
          vstore_pt r (pdi va) (slot va) (entry m va / 2 * 2) (omega arith) (omega arith) e,
          page_mask (entry m va) (words (table_of m (pdi va)) (slot va)),
        )
        refl

  pub get_flags-present :
      dir_entry m va % 2 ≡ 1 → get_flags va m ≡ ok (bit_and (entry m va) 0xE00, m)
  unfolding get_flags
  get_flags-present e =
      rw
        (
          vload_pd r (pdi va) (omega arith),
          absent_lem (dir_entry m va),
          e,
          pti_lem va,
          vload_pt r (pdi va) (slot va) (omega arith) (omega arith) e,
        )
        refl

  pub vmark-present :
      (flags : ℕ)
      → IsWords m
      → dir_entry m va % 2 ≡ 1
      → vmark va flags m
        ≡ ok (entry m va, replaced m va (bit_or (entry m va / 2 ^ 12 * 2 ^ 12) flags) va)
  unfolding vmark
  vmark-present flags words e =
      rw
        (
          vload_pd r (pdi va) (omega arith),
          absent_lem (dir_entry m va),
          e,
          pti_lem va,
          vload_pt r (pdi va) (slot va) (omega arith) (omega arith) e,
          page_mask (entry m va) (words (table_of m (pdi va)) (slot va)),
          vstore_pt r (pdi va) (slot va) (bit_or (entry m va / 2 ^ 12 * 2 ^ 12) flags) (omega arith)
              (omega arith) e,
        )
        refl
