-- ===== src/Slab.antt =====
-- stage3/mem/slab.cpp: a page of equal blocks, the free ones chained through their first words.
-- A pointer into the page is its 32-bit address; `page` is the address of the `slab_page`.
pub mod Chain
pub mod Init
pub mod Bounds
pub mod Calls
pub mod Pool
mod Tests
use boot.Base.{ℕ, suc, zero, ◌+◌, ◌-◌, ◌*◌, ◌/◌, ◌^◌, Bool, ◌&&◌, List}
use boot.Base.{ltb, leb, ◌==◌, if◌then◌else◌, u16, add32, sub32}
use boot.Base.{Outcome, ok, ◌>>=◌, ◌>>◌, assert, load, store}

abbrev pub slab_sentinel : ℕ
slab_sentinel = 0xFFFF_FFFF

-- PAGE_SIZE / sizeof(uint32_t) - 2
abbrev pub slabp_size : ℕ
slabp_size = 4096 / 4 - 2

pub record SlabPage : Type 0 where
  pub free : ℕ
  pub size : ℕ
  pub first_free : ℕ
  pub data_words : List ℕ

-- `&(slb->data[i])`: the two uint16_t and `first_free` come first.
abbrev pub data_addr : ℕ → ℕ → ℕ
data_addr page i = add32 page (8 + 4 * i)

-- `block - &(slb->data[0])` on `uint32_t*`: the signed distance in bytes, by four, as a uint32_t.
pub block_offset : ℕ → ℕ → ℕ
block_offset page block =
    let d = sub32 block (data_addr page 0) in
    if ltb d (2 ^ 31) then d / 4 else 2 ^ 32 - (2 ^ 32 - d) / 4

pub slabp_full : SlabPage → Bool
slabp_full slb = slb.first_free == slab_sentinel

-- The body of the `for` of `slabp_init`, its step `free++` included.
pub link_block : SlabPage → Outcome SlabPage
link_block slb = do
  words ← store slb.data_words slb.first_free (add32 slb.first_free slb.size)
  ok (record slb {
    free = u16 (slb.free + 1);
    first_free = add32 slb.first_free slb.size;
    data_words = words;
  })

-- The `for` of `slabp_init`, on fuel: each round moves on by `size` words.
pub link_blocks : ℕ → SlabPage → Outcome SlabPage
link_blocks zero slb = ok slb
link_blocks (suc fuel) slb =
    let rest = link_block slb >>= link_blocks fuel in
    if ltb (add32 slb.first_free slb.size) slabp_size then rest else ok slb

pub slabp_init : SlabPage → ℕ → Outcome SlabPage
slabp_init slb size = do
  assert (leb 1 size && leb size slabp_size)
  slb ← link_blocks slabp_size (record slb { size = size; first_free = 0; free = 0 })
  words ← store slb.data_words slb.first_free slab_sentinel
  ok (record slb { data_words = words; first_free = 0 })

pub slabp_alloc : ℕ → SlabPage → Outcome (ℕ × SlabPage)
slabp_alloc page slb = do
  next ← load slb.data_words slb.first_free
  ok (data_addr page slb.first_free, record slb { first_free = next })

pub slabp_free : ℕ → SlabPage → ℕ → Outcome SlabPage
unfolding block_offset
slabp_free page slb block = do
  let offset = block_offset page block
  assert (ltb offset slabp_size)
  words ← store slb.data_words offset slb.first_free
  ok (record slb { data_words = words; first_free = offset })
