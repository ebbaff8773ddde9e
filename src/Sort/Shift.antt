-- ===== src/Sort/Shift.antt =====
-- The inner loop of `gap_sort`: it ends, keeps the elements, and with the gap 1 puts one element at
-- its place among those before it.
use boot.Base.{
  ℕ, zero, suc, ◌-◌, ◌<◌, ◌≤◌, ◌≡◌, ◌≢◌, refl, arith, true, false, List, length, get_or, set, ok,
  move-perm, length-set, get_or-set_self, get_or-set_ne, load_in_range, store_in_range, leb,
  Bool-cases, inl, inr, ◌∙◌, sym,
}
use mathlib.Core.Path.{subst}
use mathlib.Core.List.{Perm}
use mathlib.Core.List.Perm
use native.Mathlib.Decide.{ℕ_discrete}
use boot.Sort.{shift}
use boot.Sort.Order.{LessThan, less, IsAscending}

-- The elements up to `i` ascend apart from the place `j`, and those behind it are above `tmp`.
pub record Slot {A : Type 0} ⦃lt : LessThan A⦄ (d tmp : A) (i j : ℕ) (a : List A) : Type 0 where
  pub within : j ≤ i
  pub rest : (p q : ℕ) → p < q → q ≤ i → p ≢ j → q ≢ j → less (get_or a q d) (get_or a p d) ≡ false
  pub above : (q : ℕ) → j < q → q ≤ i → less tmp (get_or a q d) ≡ true

pub record Shifted {A : Type 0} ⦃lt : LessThan A⦄ (d tmp : A) (gap i j : ℕ) (a b : List A)
    : Type 0 where
  pub elements : Perm b (set a j tmp)
  pub same_length : length b ≡ length a
  pub placed : gap ≡ 1 → Slot d tmp i j a → IsAscending d (suc i) b

module _ {A : Type 0} ⦃lt : LessThan A⦄ (d tmp : A) (i : ℕ) where
  -- Moving the element before the place up.
  Slot-move :
      (k : ℕ) (a : List A)
      → suc k < length a
      → less tmp (get_or a k d) ≡ true
      → Slot d tmp i (suc k) a
      → Slot d tmp i k (set a (suc k) (get_or a k d))
  Slot-move k a h below s =
      let x = get_or a k d in
      let at_self = get_or-set_self a (suc k) x d h in
      let at_other : (q : ℕ) → suc k ≢ q → get_or (set a (suc k) x) q d ≡ get_or a q d =
        λ q ne. get_or-set_ne a (suc k) q x d ne in
      let within = s.within in
      record {
        within = omega arith;
        rest = λ p q pq qi np nq. elim (ℕ_discrete q (suc k)) [
          | yes e ↦
              rw (e, at_self, at_other p (omega arith))
                (s.rest p k (omega arith) (omega arith) (omega arith) (omega arith))
          | no ne ↦ elim (ℕ_discrete p (suc k)) [
            | yes e ↦
                rw (e, at_self, at_other q (omega arith))
                  (s.rest k q (omega arith) qi (omega arith) ne)
            | no ne' ↦
                rw (at_other q (λ t. ne (sym t)), at_other p (λ t. ne' (sym t)))
                  (s.rest p q pq qi ne' ne)
          ]
        ];
        above = λ q kq qi. elim (ℕ_discrete q (suc k)) [
          | yes e ↦ rw (e, at_self) below
          | no ne ↦ rw (at_other q (λ t. ne (sym t))) (s.above q (omega arith) qi)
        ];
      }

  -- The element is not below any before the place, when it is not below the last of them.
  below_place :
      (j : ℕ) (a : List A)
      → Slot d tmp i j a
      → ((k : ℕ) → j ≡ suc k → less tmp (get_or a k d) ≡ false)
      → (p : ℕ) → p < j
      → less tmp (get_or a p d) ≡ false
  below_place zero a s stop p h = elim h [ ]
  below_place (suc k) a s stop p h = elim (ℕ_discrete p k) [
    | yes e ↦ rw e (stop k refl)
    | no ne ↦
        let within = s.within in
        lt.trans (get_or a p d) (get_or a k d) tmp
          (s.rest p k (omega arith) (omega arith) (omega arith) (omega arith)) (stop k refl)
  ]

  -- Filling the place.
  IsAscending-fill :
      (j : ℕ) (a : List A)
      → j < length a
      → Slot d tmp i j a
      → ((k : ℕ) → j ≡ suc k → less tmp (get_or a k d) ≡ false)
      → IsAscending d (suc i) (set a j tmp)
  IsAscending-fill j a h s stop p q pq qi =
      let at_self = get_or-set_self a j tmp d h in
      let at_other : (q : ℕ) → j ≢ q → get_or (set a j tmp) q d ≡ get_or a q d =
        λ q ne. get_or-set_ne a j q tmp d ne in
      elim (ℕ_discrete q j) [
        | yes e ↦ rw (e, at_self, at_other p (omega arith)) (below_place j a s stop p (omega arith))
        | no ne ↦ elim (ℕ_discrete p j) [
          | yes e ↦
              rw (e, at_self, at_other q (λ t. ne (sym t)))
                (lt.asym tmp (get_or a q d) (s.above q (omega arith) (omega arith)))
          | no ne' ↦
              rw (at_other q (λ t. ne (sym t)), at_other p (λ t. ne' (sym t)))
                (s.rest p q pq (omega arith) ne' ne)
        ]
      ]

  Shifted-stop :
      (gap j : ℕ) (a : List A)
      → j < length a
      → (gap ≡ 1 → (k : ℕ) → j ≡ suc k → less tmp (get_or a k d) ≡ false)
      → Shifted d tmp gap i j a (set a j tmp)
  Shifted-stop gap j a h stop = record {
    elements = Perm.refl (set a j tmp);
    same_length = length-set a j tmp;
    placed = λ g s. IsAscending-fill j a h s (stop g);
  }

  Shifted-move :
      (gap j : ℕ) (a b : List A)
      → 0 < gap
      → gap ≤ j
      → j < length a
      → less tmp (get_or a (j - gap) d) ≡ true
      → Shifted d tmp gap i (j - gap) (set a j (get_or a (j - gap) d)) b
      → Shifted d tmp gap i j a b
  Shifted-move gap j a b pos le h below w =
      let k = j - gap in
      let x = get_or a k d in
      record {
        elements = Perm.trans w.elements (move-perm a j k tmp d h (omega arith) (omega arith));
        same_length = w.same_length ∙ length-set a j x;
        placed = λ g s.
            let js : j ≡ suc k = omega arith in
            let s' = subst (λ t. Slot d tmp i t a) js s in
            w.placed g (
              subst (λ t. Slot d tmp i k (set a t x)) (sym js)
                (Slot-move k a (omega arith) below s'));
      }

  pub shift_lem :
      (fuel gap j : ℕ) (a : List A)
      → 0 < gap
      → j < length a
      → j < fuel
      → (b : List A) × (shift fuel gap tmp j a ≡ ok b) × Shifted d tmp gap i j a b
  unfolding shift
  shift_lem zero gap j a pos h enough = absurd (omega arith)
  shift_lem (suc fuel) gap j a pos h enough = elim (Bool-cases (leb gap j)) [
    | inr f ↦
        let small : j < gap = ground arith in
        (
          set a j tmp,
          rw f (store_in_range a j tmp h),
          Shifted-stop gap j a h (λ g k e. absurd (omega arith)),
        )
    | inl t ↦
        let le : gap ≤ j = ground arith in
        let k = j - gap in
        let x = get_or a k d in
        let ld = load_in_range a k d (omega arith) in
        elim (Bool-cases (less tmp x)) [
          | inr f ↦ (
            set a j tmp,
            rw (t, ld) (rw f (store_in_range a j tmp h)),
            Shifted-stop gap j a h (λ g n e. let z : n ≡ k = omega arith in rw z f),
          )
          | inl below ↦
              let (b, e, w) =
                shift_lem fuel gap k (set a j x) pos (omega (arith, length-set a j x))
                  (omega arith) in
              (
                b,
                rw (t, ld) (rw (below, store_in_range a j x h) e),
                Shifted-move gap j a b pos le h below w,
              )
        ]
  ]
