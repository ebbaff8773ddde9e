-- ===== src/Base/Counting.antt =====
-- How often a number stands in a list, and lists without repetition.
use Prim.Native.Nat.{ℕ, ◌+◌, ◌≤◌}
use mathlib.Core.Path.{◌≡◌, refl}
use mathlib.Core.Logic.{◌≢◌}
use mathlib.Core.List.{List, [], ◌∷◌, ◌++◌}
use native.Mathlib.Omega.{arith}
use boot.Base.Tests.{◌==◌, if◌then◌else◌}
use boot.Base.Lists.{length}

-- How often a number stands in a list.
abbrev pub count : ℕ → List ℕ → ℕ
count a [] = 0
count a (x ∷ xs) = (if x == a then 1 else 0) + count a xs

-- The list without one copy of a number.
abbrev pub erase : ℕ → List ℕ → List ℕ
erase a [] = []
erase a (x ∷ xs) = if x == a then xs else x ∷ erase a xs

pub count-erase :
    (a x : ℕ) (xs : List ℕ)
    → count a xs ≢ 0
    → count x (erase a xs) + (if a == x then 1 else 0) ≡ count x xs
count-erase a x [] h = absurd (h refl)
count-erase a x (y ∷ ys) h = ground (arith, count-erase a x ys)

pub length-erase : (a : ℕ) (xs : List ℕ) → count a xs ≢ 0 → length (erase a xs) + 1 ≡ length xs
length-erase a [] h = absurd (h refl)
length-erase a (x ∷ xs) h = ground (arith, length-erase a xs)

-- The number `q` does not stand in a list.
abbrev pub Absent : ℕ → List ℕ → Type 0
Absent q [] = Unit
Absent q (x ∷ xs) = (q ≢ x) × Absent q xs

-- No number stands twice in a list.
abbrev pub Distinct : List ℕ → Type 0
Distinct [] = Unit
Distinct (x ∷ xs) = Absent x xs × Distinct xs

pub Absent-of_count : (q : ℕ) (xs : List ℕ) → count q xs ≡ 0 → Absent q xs
Absent-of_count q [] h = tt
Absent-of_count q (x ∷ xs) h = (ground arith, Absent-of_count q xs (ground arith))

pub Absent-count : (q : ℕ) (xs : List ℕ) → Absent q xs → count q xs ≡ 0
Absent-count q [] h = refl
Absent-count q (x ∷ xs) h = ground (arith, Absent-count q xs)

pub Distinct-count : (q : ℕ) (xs : List ℕ) → Distinct xs → count q xs ≤ 1
Distinct-count q [] h = omega arith
Distinct-count q (x ∷ xs) h = ground (arith, Absent-count x xs, Distinct-count q xs)

pub Distinct-of_count : (xs : List ℕ) → ((q : ℕ) → count q xs ≤ 1) → Distinct xs
Distinct-of_count [] h = tt
Distinct-of_count (x ∷ xs) h =
    (Absent-of_count x xs (ground (arith, h x)), Distinct-of_count xs (λ q. omega (arith, h q)))

pub count-append : (q : ℕ) (xs ys : List ℕ) → count q (xs ++ ys) ≡ count q xs + count q ys
count-append q [] ys = omega arith
count-append q (x ∷ xs) ys = omega (arith, count-append q xs ys)
