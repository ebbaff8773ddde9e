-- ===== src/Text/Strlen.antt =====
-- `strlen` reads four bytes at a time, and finds the first byte that is zero.
use boot.Base.{
  ℕ, zero, suc, ◌+◌, ◌-◌, ◌*◌, ◌/◌, ◌%◌, ◌^◌, ◌<◌, ◌≤◌, ◌≡◌, ◌≢◌, ◌⊎◌, refl, arith, inl, inr, false,
  some, ◌==◌, bit_and, bit_and_bit, Bool-cases, ap, sym, ◌∙◌,
}
use native.Mathlib.Decide.{dec_lt, ℕ_discrete}
use boot.Text.{align, skip_words, scan, strlen, has_less, word_of}
use boot.Text.Compare.{IsBytes}

three_bits :
    (k x y m : ℕ)
    → bit_and (bit_and x y) m ≡ 0
    → x / 2 ^ k % 2 ≡ 1
    → y / 2 ^ k % 2 ≡ 1
    → m / 2 ^ k % 2 ≡ 1
    → 0 / 2 ^ k % 2 ≡ 1
three_bits k x y m z hx hy hm =
    ap (λ t. t / 2 ^ k % 2) (sym z)
    ∙ (bit_and_bit k (bit_and x y) m ∙ rw (bit_and_bit k x y) (rw (hx, hy, hm) refl))

-- A word that `HASLESS` finds nothing in has no byte that is zero.
module _ (a b c d : ℕ) (sa : a < 256) (sb : b < 256) (sc : c < 256) (sd : d < 256) where
  abbrev w : ℕ
  w = a + b * 2 ^ 8 + c * 2 ^ 16 + d * 2 ^ 24

  abbrev under : ℕ
  under = (w + 2 ^ 32 - 0x0101_0101) % 2 ^ 32

  under0 : a ≡ 0 → under / 2 ^ 7 % 2 ≡ 1
  under0 z = omega arith

  under1 : b ≡ 0 → under / 2 ^ 15 % 2 ≡ 1
  under1 z = omega arith

  under2 : c ≡ 0 → under / 2 ^ 23 % 2 ≡ 1
  under2 z = omega arith

  under3 : d ≡ 0 → under / 2 ^ 31 % 2 ≡ 1
  under3 z = omega arith

  upper0 : a ≡ 0 → (0xFFFF_FFFF - w) / 2 ^ 7 % 2 ≡ 1
  upper0 z = omega arith

  upper1 : b ≡ 0 → (0xFFFF_FFFF - w) / 2 ^ 15 % 2 ≡ 1
  upper1 z = omega arith

  upper2 : c ≡ 0 → (0xFFFF_FFFF - w) / 2 ^ 23 % 2 ≡ 1
  upper2 z = omega arith

  upper3 : d ≡ 0 → (0xFFFF_FFFF - w) / 2 ^ 31 % 2 ≡ 1
  upper3 z = omega arith

  no_zero : has_less w 1 ≡ 0 → (a ≢ 0) × (b ≢ 0) × (c ≢ 0) × (d ≢ 0)
  no_zero h = (
    λ z.
        omega
          (arith, three_bits 7 under (0xFFFF_FFFF - w) 0x8080_8080 h (under0 z) (upper0 z) refl),
    λ z.
        omega
          (arith, three_bits 15 under (0xFFFF_FFFF - w) 0x8080_8080 h (under1 z) (upper1 z) refl),
    λ z.
        omega
          (arith, three_bits 23 under (0xFFFF_FFFF - w) 0x8080_8080 h (under2 z) (upper2 z) refl),
    λ z.
        omega
          (arith, three_bits 31 under (0xFFFF_FFFF - w) 0x8080_8080 h (under3 z) (upper3 z) refl),
  )

-- A string of length `n` at `str`.
pub record IsString (memory : ℕ → ℕ) (str n : ℕ) : Type 0 where
  pub bytes : IsBytes memory
  pub no_end : (k : ℕ) → k < n → memory (str + k) ≢ 0
  pub ends : memory (str + n) ≡ 0

module _ (memory : ℕ → ℕ) (str n : ℕ) (is : IsString memory str n) where
  -- Where the first byte that is zero may still come: the index at most `n`.
  stop_at : (k : ℕ) → memory (str + k) ≡ 0 → k ≤ n → k ≡ n
  stop_at k z le = elim (dec_lt k n) [ yes lt ↦ absurd (is.no_end k lt z) | no ge ↦ omega arith ]

  ends_here : (k : ℕ) → k ≤ n → memory (str + k) ≢ 0 → k < n
  ends_here k le nz = elim (dec_lt k n) [
    | yes lt ↦ lt
    | no ge ↦ let e : n ≡ k = omega arith in absurd (nz (rw e at is.ends))
  ]

  scan_lem : (fuel k : ℕ) → k ≤ n → n - k < fuel → scan memory fuel (str + k) ≡ some (str + n)
  unfolding scan
  scan_lem zero k le enough = absurd (omega arith)
  scan_lem (suc fuel) k le enough = elim (ℕ_discrete (memory (str + k)) 0) [
    | yes z ↦ let e : k ≡ n = stop_at k z le in rw z (ap (λ k. some (str + k)) e)
    | no nz ↦
        let lt = ends_here k le nz in
        let f : (memory (str + k) == 0) ≡ false = ground arith in
        let step : str + k + 1 ≡ str + (k + 1) = omega arith in
        rw (f, step) (scan_lem fuel (k + 1) (omega (arith, lt)) (omega (arith, lt)))
  ]

  skip_words_lem :
      (fuel k : ℕ)
      → k ≤ n
      → n - k < fuel
      → (j : ℕ) × (skip_words memory fuel (str + k) ≡ some (str + j)) × (j ≤ n)
  unfolding skip_words
  skip_words_lem zero k le enough = absurd (omega arith)
  skip_words_lem (suc fuel) k le enough =
      elim (ℕ_discrete (has_less (word_of memory (str + k)) 1) 0) [
        | yes z ↦
            let (n0, n1, n2, n3) =
              no_zero (memory (str + k)) (memory (str + k + 1)) (memory (str + k + 2))
                (memory (str + k + 3)) (is.bytes (str + k)) (is.bytes (str + k + 1))
                (is.bytes (str + k + 2)) (is.bytes (str + k + 3)) z in
            let e1 : str + k + 1 ≡ str + (k + 1) = omega arith in
            let e2 : str + k + 2 ≡ str + (k + 2) = omega arith in
            let e3 : str + k + 3 ≡ str + (k + 3) = omega arith in
            let l0 = ends_here k le n0 in
            let l1 = ends_here (k + 1) (omega (arith, l0)) (rw e1 at n1) in
            let l2 = ends_here (k + 2) (omega (arith, l1)) (rw e2 at n2) in
            let lt = ends_here (k + 3) (omega (arith, l2)) (rw e3 at n3) in
            let step : str + k + 4 ≡ str + (k + 4) = omega arith in
            let (j, run, le') =
              skip_words_lem fuel (k + 4) (omega (arith, lt)) (omega (arith, lt)) in
            (j, rw (z, step) run, le')
        | no nz ↦
            let f : (has_less (word_of memory (str + k)) 1 == 0) ≡ false = ground arith in
            (k, rw f refl, le)
      ]

  align_lem :
      (left k : ℕ)
      → k ≤ n
      → (align memory str left (str + k) ≡ inl n)
        ⊎ ((j : ℕ) × (align memory str left (str + k) ≡ inr (str + j)) × (j ≤ n))
  unfolding align
  align_lem zero k le = inr (k, refl, le)
  align_lem (suc left) k le = elim (Bool-cases (bit_and (str + k) 15 == 0)) [
    | inl t ↦ inr (k, rw t refl, le)
    | inr f ↦ elim (ℕ_discrete (memory (str + k)) 0) [
      | yes z ↦
          let e : str + k - str ≡ n = omega (arith, stop_at k z le) in inl (rw (f, z) (rw e refl))
      | no nz ↦
          let g : (memory (str + k) == 0) ≡ false = ground arith in
          let step : str + k + 1 ≡ str + (k + 1) = omega arith in
          rw (f, g, step) (align_lem left (k + 1) (omega (arith, ends_here k le nz)))
    ]
  ]

  -- With fuel for more rounds than the string has characters, `strlen` returns its length.
  pub strlen_lem : (fuel : ℕ) → n < fuel → strlen fuel memory str ≡ some n
  unfolding strlen
  strlen_lem fuel enough =
      let e : str + 0 ≡ str = omega arith in
      elim (rw e at (align_lem 15 0 (omega arith))) [
        | inl run ↦ rw (strlen, run) refl
        | inr (j, run, le) ↦
            let (i, skipped, le') = skip_words_lem fuel j le (omega arith) in
            let d : str + n - str ≡ n = omega arith in
            rw (strlen, run) (rw (skipped) (rw (scan_lem fuel i le' (omega arith)) (rw d refl)))
      ]
