-- ===== src/Pmm/Listed.antt =====
-- The pages that an allocator's frames list, in the order in which they will be handed out, and the
-- stores that leave that list.
use boot.Base.{
  ℕ, zero, suc, ◌+◌, ◌*◌, ◌-◌, ◌^◌, ◌≤◌, ◌<◌, ◌≡◌, ◌≢◌, refl, sym, ◌∙◌, arith, List, [], ◌∷◌, inl,
  inr,
}
use boot.Base.{Absent, Distinct}
use boot.Mmu.{Machine, put_word}
use boot.Vaddr.Translate.{put_word-elsewhere}

-- With `left` places of the frame `f` before its link, the pages that come next are `qs`, and
-- `last` is the frame that is then in use. A full frame is handed out itself when its link is
-- followed.
abbrev pub Lists : Machine → ℕ → ℕ → List ℕ → ℕ → Type 0
Lists m f left [] last = f ≡ last
Lists m f zero (q ∷ qs) last =
    (g : ℕ) × (f ≡ q) × (m.frames f 1023 ≡ g * 2 ^ 12) × Lists m g 1023 qs last
Lists m f (suc left) (q ∷ qs) last =
    (m.frames f (1022 - left) ≡ q * 2 ^ 12) × Lists m f left qs last

-- The frame in use is one of the pages, or the last frame.
pub frame_listed :
    (m : Machine) (f t left : ℕ) (qs : List ℕ) (last : ℕ)
    → t ≢ last
    → Absent t qs
    → Lists m f left qs last
    → t ≢ f
frame_listed m f t left [] last n a e = λ h. n (h ∙ e)
frame_listed m f t zero (q ∷ qs) last n a (g, e, link, rest) = λ h. a.0 (h ∙ e)
frame_listed m f t (suc left) (q ∷ qs) last n a (word, rest) =
    frame_listed m f t left qs last n a.1 rest

-- A store to a frame that is none of these leaves the list.
pub Lists-elsewhere :
    (m : Machine) (f t i v left : ℕ) (qs : List ℕ) (last : ℕ)
    → t ≢ last
    → Absent t qs
    → Lists m f left qs last
    → Lists (put_word m t i v) f left qs last
Lists-elsewhere m f t i v left [] last n a e = e
Lists-elsewhere m f t i v zero (q ∷ qs) last n a (g, e, link, rest) = (
  g,
  e,
  put_word-elsewhere m t i v f f 1023 refl (inl λ h. a.0 (sym h ∙ e)) ∙ link,
  Lists-elsewhere m g t i v 1023 qs last n a.1 rest,
)
Lists-elsewhere m f t i v (suc left) (q ∷ qs) last n a (word, rest) = (
  put_word-elsewhere m t i v f f (1022 - left) refl
        (inl λ h. frame_listed m f t left qs last n a.1 rest (sym h))
      ∙ word,
  Lists-elsewhere m f t i v left qs last n a.1 rest,
)

-- A store to the frame in use, in front of the places still to come, leaves it too.
pub Lists-before :
    (m : Machine) (f i v left : ℕ) (qs : List ℕ) (last : ℕ)
    → i + left < 1023
    → left ≤ 1022
    → Distinct (last ∷ qs)
    → Lists m f left qs last
    → Lists (put_word m f i v) f left qs last
Lists-before m f i v left [] last lt le d e = e
Lists-before m f i v zero (q ∷ qs) last lt le d (g, e, link, rest) = (
  g,
  e,
  put_word-elsewhere m f i v f f 1023 refl (inr (omega arith)) ∙ link,
  Lists-elsewhere m g f i v 1023 qs last (λ h. d.0.0 (sym h ∙ e)) (rw e d.1.0) rest,
)
Lists-before m f i v (suc left) (q ∷ qs) last lt le d (word, rest) = (
  put_word-elsewhere m f i v f f (1022 - left) refl (inr (omega arith)) ∙ word,
  Lists-before m f i v left qs last (omega arith) (omega arith) (d.0.1, d.1.1) rest,
)
