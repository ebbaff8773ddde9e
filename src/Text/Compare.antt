-- ===== src/Text/Compare.antt =====
-- `memcmp`: zero exactly for equal bytes.
use boot.Base.{ℕ, zero, suc, ◌+◌, ◌<◌, ◌≡◌, refl, arith, ◌==◌, sub32, Bool-cases, inl, inr}
use boot.Text.{memcmp}
use boot.Base.{true, sym, ap, ◌∙◌, ◌↔◌}

abbrev pub IsBytes : (ℕ → ℕ) → Type 0
IsBytes memory = (a : ℕ) → memory a < 256

from_first :
    (memory : ℕ → ℕ) (s1 s2 n : ℕ)
    → memory s1 ≡ memory s2
    → ((i : ℕ) → i < n → memory (s1 + 1 + i) ≡ memory (s2 + 1 + i))
    → (i : ℕ) → i < suc n
    → memory (s1 + i) ≡ memory (s2 + i)
from_first memory s1 s2 n first rest zero h =
    let e1 : s1 + 0 ≡ s1 = omega arith in let e2 : s2 + 0 ≡ s2 = omega arith in rw (e1, e2) first
from_first memory s1 s2 n first rest (suc i) h =
    let e1 : s1 + suc i ≡ s1 + 1 + i = omega arith in
    let e2 : s2 + suc i ≡ s2 + 1 + i = omega arith in rw (e1, e2) (rest i (omega arith))

after_first :
    (memory : ℕ → ℕ) (s1 s2 n : ℕ)
    → ((i : ℕ) → i < suc n → memory (s1 + i) ≡ memory (s2 + i))
    → (i : ℕ) → i < n
    → memory (s1 + 1 + i) ≡ memory (s2 + 1 + i)
after_first memory s1 s2 n same i h =
    let e1 : s1 + 1 + i ≡ s1 + suc i = omega arith in
    let e2 : s2 + 1 + i ≡ s2 + suc i = omega arith in rw (e1, e2) (same (suc i) (omega arith))

memcmp-equal :
    (memory : ℕ → ℕ) (s1 s2 n : ℕ)
    → IsBytes memory
    → memcmp memory s1 s2 n ≡ 0
    → (i : ℕ) → i < n
    → memory (s1 + i) ≡ memory (s2 + i)
unfolding memcmp
memcmp-equal memory s1 s2 zero bytes e i h = absurd (omega arith)
memcmp-equal memory s1 s2 (suc n) bytes e i h = elim (Bool-cases (memory s1 == memory s2)) [
  | inl t ↦
      let first : memory s1 ≡ memory s2 = grind arith in
      from_first memory s1 s2 n first (memcmp-equal memory (s1 + 1) (s2 + 1) n bytes (rw t at e)) i
        h
  | inr f ↦
      let z : sub32 (memory s1) (memory s2) ≡ 0 = (rw f at e) in
      absurd (grind (arith, bytes s1, bytes s2))
]

equal-memcmp :
    (memory : ℕ → ℕ) (s1 s2 n : ℕ)
    → ((i : ℕ) → i < n → memory (s1 + i) ≡ memory (s2 + i))
    → memcmp memory s1 s2 n ≡ 0
unfolding memcmp
equal-memcmp memory s1 s2 zero same = refl
equal-memcmp memory s1 s2 (suc n) same =
    let e1 : s1 + 0 ≡ s1 = omega arith in
    let e2 : s2 + 0 ≡ s2 = omega arith in
    let here : memory s1 ≡ memory s2 = sym (ap memory e1) ∙ same 0 (omega arith) ∙ ap memory e2 in
    let t : (memory s1 == memory s2) ≡ true = ground arith in
    rw t (equal-memcmp memory (s1 + 1) (s2 + 1) n (after_first memory s1 s2 n same))

-- In a memory of bytes, `memcmp` of `n` bytes is 0 exactly when the `n` bytes at the two addresses
-- are the same.
pub memcmp_iff :
    (memory : ℕ → ℕ) (s1 s2 n : ℕ)
    → IsBytes memory
    → (memcmp memory s1 s2 n ≡ 0) ↔ ((i : ℕ) → i < n → memory (s1 + i) ≡ memory (s2 + i))
memcmp_iff memory s1 s2 n bytes = (memcmp-equal memory s1 s2 n bytes, equal-memcmp memory s1 s2 n)
