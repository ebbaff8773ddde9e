-- ===== src/Slab/Bounds.antt =====
-- Whether the blocks that `slabp_init` makes end inside the page.
use boot.Base.{ℕ, zero, suc, ◌+◌, ◌*◌, ◌%◌, ◌≤◌, ◌<◌, ◌≡◌, ◌↔◌, List, [], ◌∷◌, arith}
use boot.Base.{length}
use boot.Base.{ok}
use native.Mathlib.Nat.{mul-mod_left, div-add-mod'}
use boot.Slab.{SlabPage, slabp_size, slabp_init}
use boot.Slab.Chain.{IsFree}
use boot.Slab.Init.{IsCut, stride, slabp_init-IsCut}

-- Each of the blocks of `size` words ends inside the page.
abbrev pub AllInside : ℕ → List ℕ → Type 0
AllInside size [] = Unit
AllInside size (o ∷ offsets) = (o + size ≤ slabp_size) × AllInside size offsets

last-AllInside :
    (size k o : ℕ) → AllInside size (stride size k o) → o + k * size + size ≤ slabp_size
last-AllInside size zero o h = omega (arith, h.0)
last-AllInside size (suc k) o h = omega (arith, last-AllInside size k (o + size) h.1)

AllInside-last :
    (size k o : ℕ) → o + k * size + size ≤ slabp_size → AllInside size (stride size k o)
AllInside-last size zero o h = (omega arith, tt)
AllInside-last size (suc k) o h = (omega arith, AllInside-last size k (o + size) (omega arith))

last_block_fits_iff :
    {size : ℕ} {slb : SlabPage}
    → 0 < size
    → (c : IsCut size slb) → (c.last * size + size ≤ slabp_size) ↔ (slabp_size % size ≡ 0)
last_block_fits_iff {size} pos c = (
  λ h.
      let e : suc c.last * size ≡ slabp_size = omega arith in
      rw e at (mul-mod_left (suc c.last) size),
  λ h. grind (arith, div-add-mod' slabp_size size),
)

-- For every block size from 1 to `slabp_size` words and every page of `slabp_size` words,
-- `slabp_init` returns a page whose free list is made of the blocks at some offsets, and all these
-- blocks end inside the page exactly when the block size divides the number of words.
pub slabp_init-AllInside :
    (slb : SlabPage) (size : ℕ)
    → length slb.data_words ≡ slabp_size
    → 1 ≤ size
    → size ≤ slabp_size
    → (out : SlabPage) × (offsets : List ℕ) × (slabp_init slb size ≡ ok out)
      × IsFree out offsets
      × (AllInside size offsets ↔ (slabp_size % size ≡ 0))
slabp_init-AllInside slb size sized pos small =
    let (out, runs, c) = slabp_init-IsCut slb size sized pos small in
    let (divides, fits) = last_block_fits_iff pos c in
    (
      out,
      stride size c.last 0,
      runs,
      c.free_list,
      (
        λ h. divides (omega (arith, last-AllInside size c.last 0 h)),
        λ h. AllInside-last size c.last 0 (omega (arith, fits h)),
      ),
    )
