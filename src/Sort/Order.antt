-- ===== src/Sort/Order.antt =====
-- The operator `<` that the sort compares with, and what it must satisfy.
use boot.Base.{ℕ, ◌≡◌, ◌<◌, Bool, true, false, List, get_or}

-- `x <= y` is said as: not `y < x`.
pub record LessThan (A : Type 0) : Type 0 where
  pub less : A → A → Bool
  pub asym : (x y : A) → less x y ≡ true → less y x ≡ false
  pub trans : (x y z : A) → less y x ≡ false → less z y ≡ false → less z x ≡ false

abbrev pub less : {A : Type 0} ⦃lt : LessThan A⦄ → A → A → Bool
less ⦃lt⦄ x y = lt.less x y

-- The first `n` elements ascend. `d` stands for the elements out of range.
abbrev pub IsAscending : {A : Type 0} ⦃lt : LessThan A⦄ → A → ℕ → List A → Type 0
IsAscending d n a = (p q : ℕ) → p < q → q < n → less (get_or a q d) (get_or a p d) ≡ false
