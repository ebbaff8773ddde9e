-- ===== src/Sort/Passes.antt =====
-- One pass of `gap_sort`: it ends and keeps the elements, and with the gap 1 it sorts.
use boot.Base.{
  ℕ, zero, suc, ◌+◌, ◌-◌, ◌<◌, ◌≤◌, ◌≡◌, refl, arith, List, length, get_or, ok, set_same,
  load_in_range, ◌∙◌,
}
use mathlib.Core.Path.{subst}
use mathlib.Core.List.{Perm}
use mathlib.Core.List.Perm
use boot.Sort.{insert_each, each_offset, gap_sort}
use boot.Sort.Order.{LessThan, IsAscending}
use boot.Sort.Shift.{Slot, Shifted, shift_lem}

pub record Kept {A : Type 0} (a b : List A) : Type 0 where
  pub elements : Perm b a
  pub same_length : length b ≡ length a

pub Kept-refl : {A : Type 0} (a : List A) → Kept a a
Kept-refl a = record { elements = Perm.refl a; same_length = refl }

pub Kept-trans : {A : Type 0} (a b c : List A) → Kept a b → Kept b c → Kept a c
Kept-trans a b c v w = record {
  elements = Perm.trans w.elements v.elements;
  same_length = w.same_length ∙ v.same_length;
}

module _ {A : Type 0} ⦃lt : LessThan A⦄ (d : A) where
  Slot-start : (i : ℕ) (a : List A) → IsAscending d i a → Slot d (get_or a i d) i i a
  Slot-start i a s = record {
    within = omega arith;
    rest = λ p q pq qi np nq. s p q pq (omega arith);
    above = λ q h1 h2. absurd (omega arith);
  }

  Kept-Shifted : (gap i : ℕ) (a b : List A) → Shifted d (get_or a i d) gap i i a b → Kept a b
  Kept-Shifted gap i a b w = record {
    elements = subst (λ c. Perm b c) (set_same a i d) w.elements;
    same_length = w.same_length;
  }

  insert_each_lem :
      (left gap i : ℕ) (a : List A)
      → 0 < gap
      → i + left ≤ length a
      → (b : List A) × (insert_each left gap i a ≡ ok b)
        × Kept a b
        × (gap ≡ 1 → IsAscending d i a → IsAscending d (i + left) b)
  unfolding insert_each
  insert_each_lem zero gap i a pos h =
      (a, refl, Kept-refl a, λ g s. let e : i + 0 ≡ i = omega arith in rw e s)
  insert_each_lem (suc left) gap i a pos h =
      let (b, e, w) =
        shift_lem d (get_or a i d) i (suc i) gap i a pos (omega arith) (omega arith) in
      let kb = Kept-Shifted gap i a b w in
      let (c, e', kc, sorted) =
        insert_each_lem left gap (i + 1) b pos (omega (arith, w.same_length)) in
      (
        c,
        rw (load_in_range a i d (omega arith)) (rw e e'),
        Kept-trans a b c kb kc,
        λ g s.
            let z : i + suc left ≡ i + 1 + left = omega arith in
            let z' : suc i ≡ i + 1 = omega arith in
            rw z (sorted g (subst (λ n. IsAscending d n b) z' (w.placed g (Slot-start i a s)))),
      )

  each_offset_lem :
      (left gap offset n : ℕ) (a : List A)
      → 0 < gap
      → offset + left ≤ n
      → n ≡ length a
      → (b : List A) × (each_offset left gap offset n a ≡ ok b) × Kept a b
  unfolding each_offset
  each_offset_lem zero gap offset n a pos h e = (a, refl, Kept-refl a)
  each_offset_lem (suc left) gap offset n a pos h e =
      let (b, r, kb, sorted) = insert_each_lem (n - offset) gap offset a pos (omega arith) in
      let (c, r', kc) =
        each_offset_lem left gap (offset + 1) n b pos (omega arith)
          (omega (arith, kb.same_length)) in
      (c, rw r r', Kept-trans a b c kb kc)

  pub gap_sort-Kept :
      (gap : ℕ) (a : List A)
      → 0 < gap
      → gap ≤ length a
      → (b : List A) × (gap_sort a (length a) gap ≡ ok b) × Kept a b
  unfolding gap_sort
  gap_sort-Kept gap a pos h = each_offset_lem gap gap 0 (length a) a pos (omega arith) refl

  pub gap_sort_one :
      (a : List A)
      → (b : List A) × (gap_sort a (length a) 1 ≡ ok b) × Kept a b × IsAscending d (length a) b
  unfolding gap_sort each_offset
  gap_sort_one a =
      let (b, r, k, sorted) = insert_each_lem (length a - 0) 1 0 a (omega arith) (omega arith) in
      let z : 0 + (length a - 0) ≡ length a = omega arith in
      (
        b,
        rw r refl,
        k,
        subst (λ n. IsAscending d n b) z (sorted refl (λ p q pq q0. absurd (omega arith))),
      )
