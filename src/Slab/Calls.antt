-- ===== src/Slab/Calls.antt =====
-- `slabp_alloc`, `slabp_free` and `slabp_full` against the list of free blocks.
use boot.Base.{set_same, ℕ, ◌+◌, ◌^◌, ◌≤◌, ◌<◌, ◌≡◌, refl, sym, ◌↔◌, ◌⊎◌, inl, inr, ◌∙◌}
use boot.Base.{List, [], ◌∷◌, arith, true, length, get_or, set, length-set, get_or-set_self}
use boot.Base.{load_in_range, store_in_range, get_elem?-none, lt→ltb}
use boot.Base.{ok, panic, fault, load, ◌>>=◌}
use boot.Slab.{SlabPage, slabp_size, data_addr, block_offset}
use boot.Slab.{slabp_full, slabp_alloc, slabp_free}
use boot.Base.{count}
use boot.Slab.Chain.{Chain-set, IsFree}

-- The offset of a block is read back from its address, wherever the page lies.
pub block_offset-data_addr :
    (page i : ℕ) → page < 2 ^ 32 → i < slabp_size → block_offset page (data_addr page i) ≡ i
unfolding block_offset
block_offset-data_addr page i hp hi = ground arith

-- The page after its first free block is taken.
abbrev pub taken : SlabPage → ℕ → SlabPage
taken slb x = record slb { first_free = get_or slb.data_words x 0 }

-- The page after the block at `x` is put back.
abbrev pub put_back : SlabPage → ℕ → SlabPage
put_back slb x = record slb { data_words = set slb.data_words x slb.first_free; first_free = x }

-- `slabp_alloc` hands out the first free block and leaves the others free.
pub slabp_alloc-cons :
    (page : ℕ) {slb : SlabPage} {x : ℕ} {xs : List ℕ}
    → IsFree slb (x ∷ xs)
    → (slabp_alloc page slb ≡ ok (data_addr page x, taken slb x)) × IsFree (taken slb x) xs
unfolding slabp_alloc
slabp_alloc-cons page {slb} {x} f = (
  rw (f.chained.0)
      (rw (load_in_range slb.data_words x 0 (omega (arith, f.chained.1, f.sized))) refl),
  record { sized = f.sized; chained = f.chained.2 },
)

-- Without a free block `slabp_alloc` reads behind the page.
pub slabp_alloc-nil : (page : ℕ) {slb : SlabPage} → IsFree slb [] → slabp_alloc page slb ≡ fault
unfolding slabp_alloc
slabp_alloc-nil page {slb} f =
    rw (get_elem?-none slb.data_words slb.first_free (omega (arith, f.chained, f.sized)), load)

-- On a page whose free blocks are chained, `slabp_full` is true exactly when no block is free.
pub slabp_full_iff :
    {slb : SlabPage} {xs : List ℕ} → IsFree slb xs → (slabp_full slb ≡ true) ↔ (xs ≡ [])
unfolding slabp_full
slabp_full_iff {xs = []} f = ground (arith, f.chained)
slabp_full_iff {xs = x ∷ xs} f = ground (arith, f.chained.0, f.chained.1)

slabp_free-put_back :
    (page : ℕ) (slb : SlabPage) (x : ℕ)
    → page < 2 ^ 32
    → x < slabp_size
    → length slb.data_words ≡ slabp_size
    → slabp_free page slb (data_addr page x) ≡ ok (put_back slb x)
unfolding slabp_free
slabp_free-put_back page slb x hp hx sized =
    rw (block_offset-data_addr page x hp hx, lt→ltb x slabp_size hx)
      (rw (store_in_range slb.data_words x slb.first_free (omega arith)) refl)

-- On a page below 2 ^ 32, `slabp_free` of a block inside it that is not free puts that block in
-- front of the free blocks.
pub slabp_free-cons :
    {page : ℕ} {slb : SlabPage} {xs : List ℕ} (x : ℕ)
    → page < 2 ^ 32
    → x < slabp_size
    → count x xs ≡ 0
    → IsFree slb xs
    → (slabp_free page slb (data_addr page x) ≡ ok (put_back slb x))
      × IsFree (put_back slb x) (x ∷ xs)
slabp_free-cons {page} {slb} {xs} x hp hx c f = (
  slabp_free-put_back page slb x hp hx f.sized,
  record {
    sized = length-set slb.data_words x slb.first_free ∙ f.sized;
    chained = (
      refl,
      hx,
      rw (get_or-set_self slb.data_words x slb.first_free 0 (omega (arith, f.sized)))
          (Chain-set slb.data_words x slb.first_free slb.first_free xs c f.chained),
    );
  },
)

-- A 32-bit pointer in front of the blocks of the page or behind it stops `slabp_free` at its
-- assertion; the page ends below 2 ^ 32.
pub slabp_free-panic :
    (page : ℕ) (slb : SlabPage) (block : ℕ)
    → page + 4096 ≤ 2 ^ 32
    → block < 2 ^ 32
    → (block < page + 8) ⊎ (page + 4096 ≤ block)
    → slabp_free page slb block ≡ panic
unfolding slabp_free block_offset
slabp_free-panic page slb block hp hb (inl below) = ground arith
slabp_free-panic page slb block hp hb (inr above) = ground arith

-- On a page below 2 ^ 32 with a free block, freeing the block that was just allocated restores the
-- page word for word.
pub slabp_alloc-slabp_free :
    {page : ℕ} {slb : SlabPage} {x : ℕ} {xs : List ℕ}
    → page < 2 ^ 32
    → IsFree slb (x ∷ xs)
    → (slabp_alloc page slb >>= λ (block, slb'). slabp_free page slb' block) ≡ ok slb
slabp_alloc-slabp_free {page} {slb} {x} hp f = rw (slabp_alloc-cons page f).0 (
    rw (slabp_free-put_back page (taken slb x) x hp f.chained.1 f.sized) (λ i.
      ok (record slb {
        data_words = set_same slb.data_words x 0 i;
        first_free = sym f.chained.0 i;
      })))

-- On a page below 2 ^ 32 and for a block inside it that is not free, an allocation after a free
-- gives the freed block, and the free blocks are then what they were.
pub slabp_free-slabp_alloc :
    {page : ℕ} {slb : SlabPage} {xs : List ℕ} (x : ℕ)
    → page < 2 ^ 32
    → x < slabp_size
    → count x xs ≡ 0
    → IsFree slb xs
    → (out : SlabPage) × ((slabp_free page slb (data_addr page x) >>= slabp_alloc page)
        ≡ ok (data_addr page x, out))
      × IsFree out xs
slabp_free-slabp_alloc {page} {slb} x hp hx c f =
    let (runs, free) = slabp_free-cons x hp hx c f in
    let (again, rest) = slabp_alloc-cons page free in
    (taken (put_back slb x) x, rw runs again, rest)
