-- ===== src/Vaddr/Translate.antt =====
-- The functions of vaddr.cpp against the translation that the processor makes.
use boot.Base.{
  ℕ, ◌+◌, ◌*◌, ◌/◌, ◌%◌, ◌^◌, ◌<◌, ◌≡◌, ◌≢◌, refl, ◌∙◌, sym, arith, ok, some, none, Option, ◌==◌,
  if◌then◌else◌,
}
use mathlib.Core.Option
use boot.Mmu.{Machine, walk, translate, put_word}
use boot.Vaddr.{pt_invalid_page, pdi, get_paddr}
use boot.Vaddr.Access.{IsRecursive, pde_of, table_of}
use boot.Vaddr.Calls.{
  IsWords, dir_entry, slot, entry, replaced, get_paddr-absent, get_paddr-present,
}
use boot.Base.{Bool, Bool-cases, inl, inr, false, ne→==_false, true, ◌⊎◌}
use native.Mathlib.Decide.{dec_lt}

-- The directory entry for `va` leads to a page table, and no other entry leads to that one.
pub record IsOwnTable (m : Machine) (va : ℕ) : Type 0 where
  pub is_present : dir_entry m va % 2 ≡ 1
  pub is_small : dir_entry m va / 2 ^ 7 % 2 ≡ 0
  pub is_not_self : pdi va ≢ 1023
  pub is_alone :
      (i : ℕ) → i < 1024 → i ≢ pdi va → pde_of m i % 2 ≡ 1 → table_of m i ≢ table_of m (pdi va)

-- An address of the same page.
abbrev pub same_page : ℕ → ℕ → Bool
same_page a b = a / 2 ^ 12 == b / 2 ^ 12

dir_index : (va : ℕ) → va < 2 ^ 32 → va / 2 ^ 22 % 2 ^ 10 ≡ pdi va
dir_index va h = omega arith

pub mod_two : (n : ℕ) → (n % 2 ≡ 0) ⊎ (n % 2 ≡ 1)
mod_two n = elim (dec_lt (n % 2) 1) [ yes h ↦ inl (omega arith) | no h ↦ inr (omega arith) ]

-- Where the entry of a page table leads.
abbrev pub through : ℕ → ℕ → Option ℕ
through pte va = if pte % 2 == 0 then none else some (pte / 2 ^ 12 * 2 ^ 12 + va % 2 ^ 12)

module _ (m : Machine) (va : ℕ) (low : va < 2 ^ 32) where
  pub walk_small :
      dir_entry m va % 2 ≡ 1
      → dir_entry m va / 2 ^ 7 % 2 ≡ 0
      → walk m va ≡ (if entry m va % 2 == 0 then none else some (entry m va / 2 ^ 12, va % 2 ^ 12))
  unfolding walk
  walk_small p s = rw (dir_index va low, p, s) refl

  pub translate_small :
      dir_entry m va % 2 ≡ 1
      → dir_entry m va / 2 ^ 7 % 2 ≡ 0
      → translate m va ≡ through (entry m va) va
  unfolding translate
  translate_small p s = elim (Bool-cases (entry m va % 2 == 0)) [
    | inl t ↦ rw (translate, walk_small p s, t) refl
    | inr f ↦ rw (translate, walk_small p s, f) refl
  ]

  walk_absent : dir_entry m va % 2 ≡ 0 → walk m va ≡ none
  unfolding walk
  walk_absent e = rw (dir_index va low, e) refl

  pub translate_absent : dir_entry m va % 2 ≡ 0 → translate m va ≡ none
  unfolding translate
  translate_absent e = rw (translate, walk_absent e) refl

  walk_large :
      dir_entry m va % 2 ≡ 1
      → dir_entry m va / 2 ^ 7 % 2 ≡ 1
      → walk m va ≡ some (dir_entry m va / 2 ^ 22 * 2 ^ 10 + va / 2 ^ 12 % 2 ^ 10, va % 2 ^ 12)
  unfolding walk
  walk_large p s = rw (dir_index va low, p, s) refl

  pub translate_large :
      dir_entry m va % 2 ≡ 1
      → dir_entry m va / 2 ^ 7 % 2 ≡ 1
      → translate m va
        ≡ some ((dir_entry m va / 2 ^ 22 * 2 ^ 10 + va / 2 ^ 12 % 2 ^ 10) * 2 ^ 12 + va % 2 ^ 12)
  unfolding translate
  translate_large p s = rw (translate, walk_large p s) refl

-- With a recursive directory of 32-bit words, `get_paddr` is the translation that the processor
-- makes, with 0xFFFFFFFF for a page that is not there, at every 32-bit address that no 4 MiB entry
-- of the directory maps.
pub get_paddr-translate :
    {m : Machine} (va : ℕ)
    → IsRecursive m
    → IsWords m
    → va < 2 ^ 32
    → dir_entry m va / 2 ^ 7 % 2 ≡ 0
    → get_paddr va m ≡ ok (Option.get_or (translate m va) pt_invalid_page, m)
get_paddr-translate {m} va r words low small = elim (mod_two (dir_entry m va)) [
  | inl e ↦ rw (translate_absent m va low e) (get_paddr-absent r va low e)
  | inr e ↦
      rw (translate_small m va low e small, get_paddr-present r va low words e)
        (elim (Bool-cases (entry m va % 2 == 0)) [ inl t ↦ rw t refl | inr f ↦ rw f refl ])
]

pub put_word-here :
    (m : Machine) (f i v g j : ℕ) → g ≡ f → j ≡ i → (put_word m f i v).frames g j ≡ v
put_word-here m f i v g j e1 e2 = grind arith

pub put_word-elsewhere :
    (m : Machine) (f i v g g' j : ℕ)
    → g' ≡ g
    → (g ≢ f) ⊎ (j ≢ i)
    → (put_word m f i v).frames g' j ≡ m.frames g j
put_word-elsewhere m f i v g g' j e h = rw e (ground arith)

-- A store outside the directory, or to another entry than the last, leaves it recursive.
pub IsRecursive-put_word :
    {m : Machine} (f i v : ℕ)
    → (m.cr3 ≢ f) ⊎ (1023 ≢ i)
    → IsRecursive m
    → IsRecursive (put_word m f i v)
IsRecursive-put_word {m} f i v ne r =
    let e = put_word-elsewhere m f i v m.cr3 m.cr3 1023 refl ne in
    record { is_present = rw e r.is_present; is_small = rw e r.is_small; is_self = rw e r.is_self }

module _ {m : Machine} (va v flush : ℕ) (r : IsRecursive m) (own : IsOwnTable m va)
    (low : va < 2 ^ 32) where
  abbrev m' : Machine
  m' = replaced m va v flush

  not_dir : m.cr3 ≢ table_of m (pdi va)
  not_dir e =
      own.is_alone 1023 (omega arith) (λ q. own.is_not_self (sym q)) r.is_present (r.is_self ∙ e)

  -- The directory stays as it is.
  dir_same : (i : ℕ) → pde_of m' i ≡ pde_of m i
  dir_same i = rw (ne→==_false m.cr3 (table_of m (pdi va)) not_dir) refl

  pub IsRecursive-replaced : IsRecursive m'
  IsRecursive-replaced = record {
    is_present = rw (dir_same 1023) r.is_present;
    is_small = rw (dir_same 1023) r.is_small;
    is_self = rw (dir_same 1023) r.is_self;
  }

  module _ (at : ℕ) (low' : at < 2 ^ 32) where
    same_index : same_page at va ≡ true → (pdi at ≡ pdi va) × (slot at ≡ slot va)
    same_index same = let e : at / 2 ^ 12 ≡ va / 2 ^ 12 = grind arith in (omega arith, omega arith)

    entry_same : same_page at va ≡ true → entry m' at ≡ v
    entry_same same =
        let (e1, e2) = same_index same in
        put_word-here m (table_of m (pdi va)) (slot va) v (table_of m' (pdi at)) (slot at)
          (rw (dir_same (pdi at), e1) refl) e2

    elsewhere :
        same_page at va ≡ false
        → dir_entry m at % 2 ≡ 1
        → (table_of m (pdi at) ≢ table_of m (pdi va)) ⊎ (slot at ≢ slot va)
    elsewhere other p = elim (Bool-cases (pdi at == pdi va)) [
      | inl t ↦ inr (λ q. let e1 : pdi at ≡ pdi va = grind arith in grind arith)
      | inr f ↦
          let ne : pdi at ≢ pdi va = grind arith in inl (own.is_alone (pdi at) (omega arith) ne p)
    ]

    entry_other : same_page at va ≡ false → dir_entry m at % 2 ≡ 1 → entry m' at ≡ entry m at
    entry_other other p =
        put_word-elsewhere m (table_of m (pdi va)) (slot va) v (table_of m (pdi at))
          (table_of m' (pdi at)) (slot at) (rw (dir_same (pdi at)) refl) (elsewhere other p)

    dir_at : same_page at va ≡ true → dir_entry m at ≡ dir_entry m va
    dir_at same = let (e1, e2) = same_index same in rw e1 refl

    translate-same : same_page at va ≡ true → translate m' at ≡ through v at
    translate-same same =
        let p : dir_entry m' at % 2 ≡ 1 = rw (dir_same (pdi at), dir_at same) own.is_present in
        let s : dir_entry m' at / 2 ^ 7 % 2 ≡ 0 =
          rw (dir_same (pdi at), dir_at same) own.is_small in
        translate_small m' at low' p s ∙ rw (entry_same same) refl

    translate-other : same_page at va ≡ false → translate m' at ≡ translate m at
    translate-other other = elim (mod_two (dir_entry m at)) [
      | inl e ↦
          translate_absent m' at low' (rw (dir_same (pdi at)) e)
          ∙ sym (translate_absent m at low' e)
      | inr p ↦ elim (mod_two (dir_entry m at / 2 ^ 7)) [
        | inl s ↦
            translate_small m' at low' (rw (dir_same (pdi at)) p) (rw (dir_same (pdi at)) s)
            ∙ rw (entry_other other p) (sym (translate_small m at low' p s))
        | inr s ↦
            translate_large m' at low' (rw (dir_same (pdi at)) p) (rw (dir_same (pdi at)) s)
            ∙ rw (dir_same (pdi at)) (sym (translate_large m at low' p s))
      ]
    ]

  pub translate-replaced :
      (at : ℕ)
      → at < 2 ^ 32
      → translate m' at ≡ (if same_page at va then through v at else translate m at)
  translate-replaced at low' = elim (Bool-cases (same_page at va)) [
    | inl t ↦ rw t (translate-same at low' t)
    | inr f ↦ rw f (translate-other at low' f)
  ]
