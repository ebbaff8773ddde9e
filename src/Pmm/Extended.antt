-- ===== src/Pmm/Extended.antt =====
-- A page that is stored behind the others extends the list of pages.
use boot.Base.{
  ℕ, zero, suc, ◌+◌, ◌*◌, ◌-◌, ◌%◌, ◌^◌, ◌≤◌, ◌<◌, ◌≡◌, ◌≢◌, refl, sym, ◌∙◌, arith, List, [], ◌∷◌,
  ◌++◌, inl, inr, length, Absent, ◌⊎◌,
}
use boot.Mmu.{Machine, put_word}
use boot.Vaddr.Translate.{put_word-elsewhere, put_word-here}
use boot.Pmm.Listed.{Lists}
use native.Mathlib.Decide.{ℕ_discrete}

-- While the last frame is in use, no link follows.
no_link :
    (m : Machine) (f left : ℕ) (qs : List ℕ) (last : ℕ)
    → f ≡ last
    → Absent last qs
    → Lists m f left qs last
    → length qs ≤ left
no_link m f left [] last e a h = omega arith
no_link m f zero (q ∷ qs) last e a (g, same, link, rest) = absurd (a.0 (sym e ∙ same))
no_link m f (suc left) (q ∷ qs) last e a (word, rest) =
    omega (arith, no_link m f left qs last e a.1 rest)

-- Inside the last frame, at the place behind the last page.
pub Lists-inside :
    (m : Machine) (f left : ℕ) (qs : List ℕ) (last k a : ℕ)
    → left ≤ 1023
    → (1023 - left + length qs) % 1024 ≡ k
    → k < 1023
    → Absent last qs
    → Lists m f left qs last
    → Lists (put_word m last k (a * 2 ^ 12)) f left (qs ++ a ∷ []) last
Lists-inside m f zero [] last k a le e lt ab h = absurd (omega arith)
Lists-inside m f (suc left) [] last k a le e lt ab h =
    (put_word-here m last k (a * 2 ^ 12) f (1022 - left) h (omega arith), h)
Lists-inside m f zero (q ∷ qs) last k a le e lt ab (g, same, link, rest) = (
  g,
  same,
  put_word-elsewhere m last k (a * 2 ^ 12) f f 1023 refl (inr (omega arith)) ∙ link,
  Lists-inside m g 1023 qs last k a (omega arith) (omega arith) lt ab.1 rest,
)
Lists-inside m f (suc left) (q ∷ qs) last k a le e lt ab (word, rest) =
    let away : (f ≢ last) ⊎ (1022 - left ≢ k) = elim (ℕ_discrete f last) [
      | yes same ↦ inr (omega (arith, no_link m f left qs last same ab.1 rest))
      | no ne ↦ inl ne
    ] in
    (
      put_word-elsewhere m last k (a * 2 ^ 12) f f (1022 - left) refl away ∙ word,
      Lists-inside m f left qs last k a (omega arith) (omega arith) lt ab.1 rest,
    )

-- At the last place: the link leads to the new page, which is the last frame from then on.
pub Lists-link :
    (m : Machine) (f left : ℕ) (qs : List ℕ) (last a : ℕ)
    → left ≤ 1023
    → (1023 - left + length qs) % 1024 ≡ 1023
    → Absent last qs
    → Lists m f left qs last
    → Lists (put_word m last 1023 (a * 2 ^ 12)) f left (qs ++ last ∷ []) a
Lists-link m f zero [] last a le e ab h =
    (a, h, put_word-here m last 1023 (a * 2 ^ 12) f 1023 h refl, refl)
Lists-link m f (suc left) [] last a le e ab h = absurd (omega arith)
Lists-link m f zero (q ∷ qs) last a le e ab (g, same, link, rest) = (
  g,
  same,
  put_word-elsewhere m last 1023 (a * 2 ^ 12) f f 1023 refl (inl (λ h. ab.0 (sym h ∙ same))) ∙ link,
  Lists-link m g 1023 qs last a (omega arith) (omega arith) ab.1 rest,
)
Lists-link m f (suc left) (q ∷ qs) last a le e ab (word, rest) = (
  put_word-elsewhere m last 1023 (a * 2 ^ 12) f f (1022 - left) refl (inr (omega arith)) ∙ word,
  Lists-link m f left qs last a (omega arith) (omega arith) ab.1 rest,
)
