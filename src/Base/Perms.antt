-- ===== src/Base/Perms.antt =====
-- Writes to an array that only move its elements.
use Prim.Native.Nat.{ℕ, zero, suc, ◌<◌}
use mathlib.Core.Path.{◌≡◌, refl, ap, sym, ◌∙◌}
use mathlib.Core.Logic.{◌≢◌}
use mathlib.Core.List.{List, [], ◌∷◌}
use mathlib.Core.List.{Perm}
use mathlib.Core.List.Perm
use native.Mathlib.Omega.{arith}
use boot.Base.Lists.{length, get_or, set, get_or-set_ne, length-set}

module _ {ℓ} {A : Type ℓ} where
  pub set_same : (xs : List A) (i : ℕ) (d : A) → set xs i (get_or xs i d) ≡ xs
  set_same [] i d = refl
  set_same (x ∷ xs) zero d = refl
  set_same (x ∷ xs) (suc i) d = ap (λ t. x ∷ t) (set_same xs i d)

  -- Two values trade places with an element.
  set-perm :
      (xs : List A) (i : ℕ) (u v : A) → i < length xs → Perm (u ∷ set xs i v) (v ∷ set xs i u)
  set-perm [] i u v h = absurd (omega arith)
  set-perm (x ∷ xs) zero u v h = Perm.swap v u xs
  set-perm (x ∷ xs) (suc i) u v h =
      Perm.trans (Perm.swap x u (set xs i v))
        (Perm.trans (Perm.cons x (set-perm xs i u v (omega arith))) (Perm.swap v x (set xs i u)))

  -- The element at `k` moves to `j`, and what `j` was to get goes to `k`.
  pub move-perm :
      (xs : List A) (j k : ℕ) (v d : A)
      → j < length xs
      → k < length xs
      → j ≢ k
      → Perm (set (set xs j (get_or xs k d)) k v) (set xs j v)
  move-perm xs j k v d hj hk ne =
      let x = get_or xs k d in
      let c = set xs j x in
      let kept : set c k x ≡ c =
        ap (set c k) (sym (get_or-set_ne xs j k x d ne)) ∙ set_same c k d in
      let first : Perm (x ∷ set c k v) (v ∷ c) =
        rw kept at (set-perm c k x v (omega (arith, length-set xs j x))) in
      Perm.cons_inv (Perm.trans first (set-perm xs j v x hj))
