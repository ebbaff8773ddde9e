-- ===== src/Base/Faults.antt =====
-- What a call of the C code can do: return, stop at a failed `assert`, or access memory outside
-- the array that it indexes, which C leaves undefined.
use Prim.Native.Nat.{ℕ, ◌<◌, ◌≤◌}
use mathlib.Core.Path.{◌≡◌, refl}
use mathlib.Core.Bool.{Bool, true, false}
use mathlib.Core.Option.{none, some}
use mathlib.Core.List.{List}
use boot.Base.Tests.{ltb, if◌then◌else◌, lt→ltb}
use boot.Base.Lists.{length, get_elem?, set, get_or, get_elem?-eq-get_or, get_elem?-none}

pub data Outcome {ℓ} (A : Type ℓ) : Type ℓ where
  ok : A → Outcome A
  panic : Outcome A
  fault : Outcome A

infixl 5 ◌>>=◌ ◌>>◌
abbrev pub ◌>>=◌ {ℓ κ} : {A : Type ℓ} {B : Type κ} → Outcome A → (A → Outcome B) → Outcome B
ok a >>= f = f a
panic >>= f = panic
fault >>= f = fault

abbrev pub ◌>>◌ {ℓ} : {B : Type ℓ} → Outcome (Unit {0}) → Outcome B → Outcome B
m >> k = m >>= λ _. k

-- `assert(b)`
abbrev pub assert : Bool → Outcome (Unit {0})
assert true = ok tt
assert false = panic

module _ {ℓ} {A : Type ℓ} where
  -- `a[i]`
  abbrev pub load : List A → ℕ → Outcome A
  load xs i = elim (get_elem? xs i) [ none ↦ fault | some x ↦ ok x ]

  -- `a[i] = v`
  abbrev pub store : List A → ℕ → A → Outcome (List A)
  store xs i v = if ltb i (length xs) then ok (set xs i v) else fault

  pub load_past : (xs : List A) (i : ℕ) → length xs ≤ i → load xs i ≡ fault
  load_past xs i h = rw (get_elem?-none xs i h, load)

  pub load_in_range : (xs : List A) (i : ℕ) (d : A) → i < length xs → load xs i ≡ ok (get_or xs i d)
  load_in_range xs i d h = rw (get_elem?-eq-get_or xs i d h, load)

  pub store_in_range :
      (xs : List A) (i : ℕ) (v : A) → i < length xs → store xs i v ≡ ok (set xs i v)
  store_in_range xs i v h = rw (lt→ltb i (length xs) h)

-- What holds of the value when a call returns.
abbrev pub Ensures {ℓ} : {A : Type ℓ} → (A → Type 0) → Outcome A → Type 0
Ensures P (ok a) = P a
Ensures P panic = Unit
Ensures P fault = Unit

pub Ensures-bind {ℓ κ} :
    {A : Type ℓ} {B : Type κ} (P : A → Type 0) (Q : B → Type 0) (m : Outcome A) (f : A → Outcome B)
    → Ensures P m
    → ((a : A) → P a → Ensures Q (f a))
    → Ensures Q (m >>= f)
Ensures-bind P Q (ok a) f h k = k a h
Ensures-bind P Q panic f h k = tt
Ensures-bind P Q fault f h k = tt

-- Where nothing is known of the first call.
pub Ensures-then {ℓ κ} :
    {A : Type ℓ} {B : Type κ} (Q : B → Type 0) (m : Outcome A) (f : A → Outcome B)
    → ((a : A) → Ensures Q (f a))
    → Ensures Q (m >>= f)
Ensures-then Q (ok a) f k = k a
Ensures-then Q panic f k = tt
Ensures-then Q fault f k = tt

pub Ensures-if {ℓ} :
    {A : Type ℓ} (P : A → Type 0) (b : Bool) (m n : Outcome A)
    → Ensures P m
    → Ensures P n
    → Ensures P (if b then m else n)
Ensures-if P true m n h k = h
Ensures-if P false m n h k = k

-- With the value of the test.
pub Ensures-cases {ℓ} :
    {A : Type ℓ} (P : A → Type 0) (b : Bool) (m n : Outcome A)
    → (b ≡ true → Ensures P m)
    → (b ≡ false → Ensures P n)
    → Ensures P (if b then m else n)
Ensures-cases P true m n h k = h refl
Ensures-cases P false m n h k = k refl

pub Ensures-weaker {ℓ} :
    {A : Type ℓ} (P Q : A → Type 0) (m : Outcome A)
    → ((a : A) → P a → Q a)
    → Ensures P m
    → Ensures Q m
Ensures-weaker P Q (ok a) k h = k a h
Ensures-weaker P Q panic k h = tt
Ensures-weaker P Q fault k h = tt

pub Ensures-assert {ℓ} :
    {A : Type ℓ} (P : A → Type 0) (b : Bool) (next : Outcome A)
    → (b ≡ true → Ensures P next)
    → Ensures P (assert b >> next)
Ensures-assert P true next h = h refl
Ensures-assert P false next h = tt
