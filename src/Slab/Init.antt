-- ===== src/Slab/Init.antt =====
-- `slabp_init` cuts the page into blocks and chains all of them.
use boot.Base.{ℕ, zero, suc, ◌+◌, ◌*◌, ◌%◌, ◌≤◌, ◌<◌, ◌≡◌, ◌∙◌, refl, List, [], ◌∷◌, arith}
use boot.Base.{length, get_or, set, length-set, get_or-set_self, get_or-set_ne, store_in_range}
use boot.Base.{ok, le→leb, ltb, Bool-cases, inl, inr}
use boot.Slab.{SlabPage, slab_sentinel, slabp_size, link_block, link_blocks, slabp_init}
use boot.Slab.Chain.{Chain, IsFree}

-- `k + 1` offsets from `o` on, `size` words apart.
abbrev pub stride : ℕ → ℕ → ℕ → List ℕ
stride size zero o = o ∷ []
stride size (suc k) o = o ∷ stride size k (o + size)

-- `k` blocks from `o` on lead each to the next.
abbrev Links : List ℕ → ℕ → ℕ → ℕ → Type 0
Links words size zero o = Unit
Links words size (suc k) o = (get_or words o 0 ≡ o + size) × Links words size k (o + size)

-- Ending the last block with the sentinel makes the links a free list.
Chain-stride :
    (words : List ℕ) (size k o last : ℕ)
    → 0 < size
    → length words ≡ slabp_size
    → last < slabp_size
    → last ≡ o + k * size
    → Links words size k o
    → Chain (set words last slab_sentinel) o (stride size k o)
Chain-stride words size zero o last pos sized fits e links =
    (refl, omega arith, ground (arith, get_or-set_self words last slab_sentinel 0))
Chain-stride words size (suc k) o last pos sized fits e links = (
  refl,
  omega arith,
  let e' : get_or (set words last slab_sentinel) o 0 ≡ o + size =
        get_or-set_ne words last o slab_sentinel 0 (omega arith) ∙ links.0 in
      rw e' (Chain-stride words size k (o + size) last pos sized fits (omega arith) links.1),
)

-- What the `for` of `slabp_init` leaves when it stops.
record Linked (slb out : SlabPage) : Type 0 where
  rounds : ℕ
  sized : length out.data_words ≡ slabp_size
  at_end : out.first_free ≡ slb.first_free + rounds * slb.size
  in_page : out.first_free < slabp_size
  stopped : slabp_size ≤ out.first_free + slb.size
  counted : out.free ≡ slb.free + rounds
  same_size : out.size ≡ slb.size
  below : (j : ℕ) → j < slb.first_free → get_or out.data_words j 0 ≡ get_or slb.data_words j 0
  links : Links out.data_words slb.size rounds slb.first_free

abbrev linked : SlabPage → SlabPage
linked slb = record slb {
  free = slb.free + 1;
  first_free = slb.first_free + slb.size;
  data_words = set slb.data_words slb.first_free (slb.first_free + slb.size);
}

link_block_lem :
    (slb : SlabPage)
    → length slb.data_words ≡ slabp_size
    → slb.free ≤ slb.first_free
    → slb.first_free + slb.size < slabp_size
    → link_block slb ≡ ok (linked slb)
unfolding link_block
link_block_lem slb sized few fits =
    ground (arith, store_in_range slb.data_words slb.first_free (slb.first_free + slb.size))

Linked-step :
    (slb out : SlabPage)
    → slb.first_free < length slb.data_words
    → 0 < slb.size
    → Linked (linked slb) out
    → Linked slb out
Linked-step slb out fits pos l = record {
  rounds = suc l.rounds;
  sized = l.sized;
  at_end = omega (arith, l.at_end);
  in_page = l.in_page;
  stopped = l.stopped;
  counted = omega (arith, l.counted);
  same_size = l.same_size;
  below = λ j h.
      l.below j (omega arith) ∙ get_or-set_ne slb.data_words slb.first_free j _ 0 (omega arith);
  links = (
    l.below slb.first_free (omega arith) ∙ get_or-set_self slb.data_words slb.first_free _ 0 fits,
    l.links,
  );
}

-- With fuel for the words that are left the loop ends by its test.
link_blocks_lem :
    (fuel : ℕ) (slb : SlabPage)
    → length slb.data_words ≡ slabp_size
    → 0 < slb.size
    → slb.size ≤ slabp_size
    → slb.free ≤ slb.first_free
    → slb.first_free < slabp_size
    → slabp_size ≤ slb.first_free + fuel
    → (out : SlabPage) × (link_blocks fuel slb ≡ ok out) × Linked slb out
unfolding link_blocks
link_blocks_lem zero slb sized pos small few fits fuel_fits = absurd (omega arith)
link_blocks_lem (suc fuel) slb sized pos small few fits fuel_fits =
    elim (Bool-cases (ltb ((slb.first_free + slb.size) % 0x1_0000_0000) slabp_size)) [
      | inl more ↦
          let (out, runs, l) =
            link_blocks_lem fuel (linked slb)
              (length-set slb.data_words slb.first_free (slb.first_free + slb.size) ∙ sized) pos
              small (omega arith) (ground arith) (omega arith) in
          (
            out,
            rw (more, link_block_lem slb sized few (ground arith)) runs,
            Linked-step slb out (omega arith) pos l,
          )
      | inr done ↦ (
        slb,
        rw done,
        record {
          rounds = 0;
          sized = sized;
          at_end = omega arith;
          in_page = fits;
          stopped = ground arith;
          counted = omega arith;
          same_size = refl;
          below = λ j h. refl;
          links = tt;
        },
      )
    ]

-- The page is cut into blocks of `size` words from offset 0 on, all free, lowest first; the block
-- with number `last` is the last one that starts in the page.
pub record IsCut (size : ℕ) (slb : SlabPage) : Type 0 where
  pub last : ℕ
  pub free_list : IsFree slb (stride size last 0)
  pub starts_inside : last * size < slabp_size
  pub next_outside : slabp_size ≤ suc last * size
  pub same_size : slb.size ≡ size
  pub counted : slb.free ≡ last

abbrev started : SlabPage → ℕ → SlabPage
started slb size = record slb { size = size; first_free = 0; free = 0 }

abbrev ended : SlabPage → SlabPage
ended mid = record mid {
  data_words = set mid.data_words mid.first_free slab_sentinel;
  first_free = 0;
}

IsCut-ended :
    (slb mid : SlabPage) (size : ℕ)
    → 0 < size
    → Linked (started slb size) mid
    → IsCut size (ended mid)
IsCut-ended slb mid size pos l = record {
  last = l.rounds;
  free_list = record {
    sized = length-set mid.data_words mid.first_free slab_sentinel ∙ l.sized;
    chained =
        Chain-stride mid.data_words size l.rounds 0 mid.first_free pos l.sized l.in_page l.at_end
          l.links;
  };
  starts_inside = omega (arith, l.at_end, l.in_page);
  next_outside = omega (arith, l.at_end, l.stopped);
  same_size = l.same_size;
  counted = omega (arith, l.counted);
}

slabp_init-ended :
    (slb mid : SlabPage) (size : ℕ)
    → 1 ≤ size
    → size ≤ slabp_size
    → link_blocks slabp_size (started slb size) ≡ ok mid
    → length mid.data_words ≡ slabp_size
    → mid.first_free < slabp_size
    → slabp_init slb size ≡ ok (ended mid)
unfolding slabp_init
slabp_init-ended slb mid size pos small runs sized fits =
    rw (le→leb 1 size pos, le→leb size slabp_size small, runs)
      (rw (store_in_range mid.data_words mid.first_free slab_sentinel (omega arith)) refl)

-- For every block size from 1 to `slabp_size` words and every previous content of a page of
-- `slabp_size` words, `slabp_init` returns, accesses nothing outside the page, and leaves the page
-- cut into blocks that are all free, with the block number of the last block in its `free` field.
pub slabp_init-IsCut :
    (slb : SlabPage) (size : ℕ)
    → length slb.data_words ≡ slabp_size
    → 1 ≤ size
    → size ≤ slabp_size
    → (out : SlabPage) × (slabp_init slb size ≡ ok out) × IsCut size out
slabp_init-IsCut slb size sized pos small =
    let (mid, runs, l) =
      link_blocks_lem slabp_size (started slb size) sized pos small (omega arith) (omega arith)
        (omega arith) in
    (
      ended mid,
      slabp_init-ended slb mid size pos small runs l.sized l.in_page,
      IsCut-ended slb mid size pos l,
    )
