-- ===== src/Slab/Pool.antt =====
-- A client of a slab page: it allocates, writes to the words of its blocks, and gives blocks back,
-- in any order. `live` are the offsets of the blocks that it holds.
use boot.Base.{ℕ, zero, suc, ◌+◌, ◌*◌, ◌/◌, ◌^◌, ◌≤◌, ◌<◌, ◌≡◌, ◌≢◌, refl, sym, ap, ◌∙◌, ◌%◌, ◌⊎◌}
use boot.Base.{List, [], ◌∷◌, arith, false, set, length-set, inr, inl, multiple_lt}
use boot.Base.{count, erase, count-erase, ok}
use native.Mathlib.Nat.{add-mod_right, add-zero, zero-mod, div-add-mod', mod-eq_of_lt, mod-add-mod}
use native.Mathlib.Decide.{ℕ_discrete, dec_lt}
use mathlib.Core.Bool.{false≢true}
use boot.Slab.{SlabPage, slabp_size, data_addr, block_offset, slabp_full, slabp_alloc, slabp_free}
use boot.Slab.Chain.{Chain-set, IsFree}
use boot.Slab.Init.{stride, IsCut}
use boot.Slab.Calls.{block_offset-data_addr, taken, put_back, slabp_alloc-cons, slabp_full_iff}
use boot.Slab.Calls.{slabp_free-cons}

pub record Pool : Type 0 where
  pub slb : SlabPage
  pub live : List ℕ

module _ (page size : ℕ) where
  pub data Step : Pool → Pool → Type 0 where
    alloc :
        {s s' : SlabPage} {live : List ℕ} (block : ℕ)
        → slabp_full s ≡ false
        → slabp_alloc page s ≡ ok (block, s')
        → Step
            (record { slb = s; live = live })
            (record { slb = s'; live = block_offset page block ∷ live })
    free :
        {s s' : SlabPage} {live : List ℕ} (x : ℕ)
        → count x live ≢ 0
        → slabp_free page s (data_addr page x) ≡ ok s'
        → Step (record { slb = s; live = live }) (record { slb = s'; live = erase x live })
    write :
        {s : SlabPage} {live : List ℕ} (x k v : ℕ)
        → count x live ≢ 0
        → k < size
        → Step
            (record { slb = s; live = live })
            (record { slb = record s { data_words = set s.data_words (x + k) v }; live = live })

  pub data Reach (p : Pool) : Pool → Type 0 where
    here : Reach p p
    next : {q r : Pool} → Reach p q → Step q r → Reach p r

-- Every one of the blocks 0 to `last` is either live or free, and only once.
pub record IsOwned (size last : ℕ) (p : Pool) : Type 0 where
  pub free_blocks : List ℕ
  pub is_free : IsFree p.slb free_blocks
  pub split : (x : ℕ) → count x p.live + count x free_blocks ≡ count x (stride size last 0)

count-stride_ge : (size k o x : ℕ) → count x (stride size k o) ≢ 0 → o ≤ x
count-stride_ge size zero o x h = ground arith
count-stride_ge size (suc k) o x h = ground (arith, count-stride_ge size k (o + size) x)

count-stride_le : (size k o x : ℕ) → 0 < size → count x (stride size k o) ≤ 1
count-stride_le size zero o x pos = ground arith
count-stride_le size (suc k) o x pos =
    ground (arith, count-stride_ge size k (o + size) x, count-stride_le size k (o + size) x pos)

count-stride_last : (size k o x : ℕ) → count x (stride size k o) ≢ 0 → x ≤ o + k * size
count-stride_last size zero o x h = ground arith
count-stride_last size (suc k) o x h = ground (arith, count-stride_last size k (o + size) x)

-- Blocks start at multiples of their size.
count-stride_mod : (size k o x : ℕ) → o % size ≡ 0 → count x (stride size k o) ≢ 0 → x % size ≡ 0
count-stride_mod size zero o x e h = ground arith
count-stride_mod size (suc k) o x e h =
    ground (arith, add-mod_right o size, count-stride_mod size k (o + size) x)

module _ (page size last : ℕ) (low : page < 2 ^ 32) (pos : 0 < size)
    (inside : last * size < slabp_size) where
  abbrev blocks : List ℕ
  blocks = stride size last 0

  -- A block of the page, with room for all its words.
  block_inside : (x : ℕ) → count x blocks ≢ 0 → x < slabp_size
  block_inside x h = omega (arith, count-stride_last size last 0 x h)

  IsOwned-alloc :
      {s : SlabPage} {live : List ℕ} (xs : List ℕ) (block : ℕ) (s' : SlabPage)
      → slabp_full s ≡ false
      → slabp_alloc page s ≡ ok (block, s')
      → IsFree s xs
      → ((y : ℕ) → count y live + count y xs ≡ count y blocks)
      → IsOwned size last (record { slb = s'; live = block_offset page block ∷ live })
  IsOwned-alloc [] block s' room runs f split =
      absurd (false≢true (sym room ∙ (slabp_full_iff f).1 refl))
  IsOwned-alloc {s} {live} (x ∷ xs) block s' room runs f split =
      let (e, rest) = slabp_alloc-cons page f in
      let e0 : block ≡ data_addr page x = cc in
      let e1 : s' ≡ taken s x = cc in
      let e2 : block_offset page block ≡ x =
        ap (block_offset page) e0 ∙ block_offset-data_addr page x low f.chained.1 in
      record { free_blocks = xs; is_free = rw e1 rest; split = λ y. rw e2 (omega (arith, split y)) }

  IsOwned-free :
      (s : SlabPage) (live : List ℕ) (xs : List ℕ) (x : ℕ) (s' : SlabPage)
      → count x live ≢ 0
      → slabp_free page s (data_addr page x) ≡ ok s'
      → IsFree s xs
      → ((y : ℕ) → count y live + count y xs ≡ count y blocks)
      → IsOwned size last (record { slb = s'; live = erase x live })
  IsOwned-free s live xs x s' held runs f split =
      let only : count x blocks ≤ 1 = count-stride_le size last 0 x pos in
      let (e, more) =
        slabp_free-cons x low (block_inside x (omega (arith, split x))) (omega (arith, split x))
          f in
      let e1 : s' ≡ put_back s x = cc in
      record {
        free_blocks = x ∷ xs;
        is_free = rw e1 more;
        split = λ y. omega (arith, split y, count-erase x y live held);
      }

  -- The words of a live block head no free block.
  not_head :
      (live xs : List ℕ) (x k : ℕ)
      → count x live ≢ 0
      → k < size
      → ((y : ℕ) → count y live + count y xs ≡ count y blocks)
      → count (x + k) xs ≡ 0
  not_head live xs x zero held fits split =
      rw (add-zero x) (omega (arith, split x, count-stride_le size last 0 x pos))
  not_head live xs x (suc k) held fits split = elim (ℕ_discrete (count (x + suc k) xs) 0) [
    | yes e ↦ e
    | no ne ↦
        let here : x % size ≡ 0 =
          count-stride_mod size last 0 x (zero-mod size) (omega (arith, split x)) in
        let there : (x + suc k) % size ≡ 0 =
          count-stride_mod size last 0 (x + suc k) (zero-mod size)
            (omega (arith, split (x + suc k))) in
        ground (arith, mod-add-mod x size (suc k), here, there, mod-eq_of_lt fits)
  ]

  Step-IsOwned : {p q : Pool} → Step page size p q → IsOwned size last p → IsOwned size last q
  Step-IsOwned (alloc block room runs) o =
      IsOwned-alloc o.free_blocks block _ room runs o.is_free o.split
  Step-IsOwned (free x held runs) o = IsOwned-free _ _ o.free_blocks x _ held runs o.is_free o.split
  Step-IsOwned (write {s} x k v held fits) o = record {
    free_blocks = o.free_blocks;
    is_free = record {
      sized = length-set s.data_words (x + k) v ∙ o.is_free.sized;
      chained =
          Chain-set s.data_words (x + k) v s.first_free o.free_blocks
            (not_head _ o.free_blocks x k held fits o.split) o.is_free.chained;
    };
    split = o.split;
  }

-- From a page below 2 ^ 32 that is cut into blocks of at least one word, with no live block, on:
-- every run of allocations, writes to live blocks and frees of live blocks keeps each block of the
-- page in exactly one of two places, held by the client or in the free list.
pub Reach-IsOwned :
    (page size : ℕ) {s : SlabPage} {p : Pool}
    → page < 2 ^ 32
    → 0 < size
    → (c : IsCut size s) → Reach page size (record { slb = s; live = [] }) p
    → IsOwned size c.last p
Reach-IsOwned page size low pos c here = record {
  free_blocks = stride size c.last 0;
  is_free = c.free_list;
  split = λ x. omega arith;
}
Reach-IsOwned page size low pos c (next r st) =
    Step-IsOwned page size c.last low pos c.starts_inside st (Reach-IsOwned page size low pos c r)

multiples_apart :
    (size x y : ℕ) → x % size ≡ 0 → y % size ≡ 0 → (x ≡ y) ⊎ ((x + size ≤ y) ⊎ (y + size ≤ x))
multiples_apart size x y hx hy =
    let ex : x / size * size + x % size ≡ x = div-add-mod' x size in
    let ey : y / size * size + y % size ≡ y = div-add-mod' y size in
    elim (dec_lt (x / size) (y / size)) [
      | yes lt ↦ inr (inl (omega (arith, multiple_lt size (x / size) (y / size) lt)))
      | no nlt ↦ elim (dec_lt (y / size) (x / size)) [
        | yes gt ↦ inr (inr (omega (arith, multiple_lt size (y / size) (x / size) gt)))
        | no ngt ↦
            inl (
              let e : x / size ≡ y / size = omega arith in
              omega (arith, ap (λ (t : ℕ). t * size) e))
      ]
    ]

-- From a page below 2 ^ 32 that is cut into blocks of at least one word, with no live block, on:
-- in every run of allocations, writes to live blocks and frees of live blocks, a live block is
-- live once, starts at a multiple of the block size inside the page, and shares no word with
-- another live block.
pub Reach-disjoint :
    (page size : ℕ) {s : SlabPage} {p : Pool} (x y : ℕ)
    → page < 2 ^ 32
    → 0 < size
    → (c : IsCut size s) → Reach page size (record { slb = s; live = [] }) p
    → count x p.live ≢ 0
    → count y p.live ≢ 0
    → (count x p.live ≡ 1)
      × (x % size ≡ 0)
      × (x < slabp_size)
      × ((x ≡ y) ⊎ ((x + size ≤ y) ⊎ (y + size ≤ x)))
Reach-disjoint page size {s} {p} x y low pos c r hx hy =
    let o = Reach-IsOwned page size low pos c r in
    let bx : count x (stride size c.last 0) ≢ 0 = omega (arith, o.split x) in
    let by : count y (stride size c.last 0) ≢ 0 = omega (arith, o.split y) in
    let mx = count-stride_mod size c.last 0 x (zero-mod size) bx in
    let my = count-stride_mod size c.last 0 y (zero-mod size) by in
    (
      omega (arith, o.split x, count-stride_le size c.last 0 x pos),
      mx,
      omega (arith, count-stride_last size c.last 0 x bx, c.starts_inside),
      multiples_apart size x y mx my,
    )
