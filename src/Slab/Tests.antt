-- ===== src/Slab/Tests.antt =====
-- The slab page on small inputs, and the theorems at concrete pages.
use boot.Base.{◌≡◌, refl, [], ◌∷◌, arith, ℕ, length-replicate, ◌%◌, ◌<◌, List}
use boot.Base.{ok, panic, replicate, ◌++◌, ◌↔◌, ◌⊎◌, ◌+◌, ◌>>=◌, ◌≤◌}
use boot.Slab.{SlabPage, slab_sentinel, slabp_size, link_block, link_blocks, slabp_init, slabp_free}
use boot.Base.{count}
use boot.Slab.Chain.{IsFree}
use boot.Slab.Bounds.{AllInside, slabp_init-AllInside}
use boot.Slab.Init.{IsCut, slabp_init-IsCut}
use boot.Slab.{slabp_alloc, slabp_full, block_offset}
use boot.Slab.Calls.{taken}
use boot.Slab.Pool.{IsOwned, Pool, Reach, Reach-IsOwned, Step, Reach-disjoint}
use boot.Slab.Calls.{slabp_free-slabp_alloc}

abbrev zeros : SlabPage
zeros = record { free = 0; size = 0; first_free = 0; data_words = replicate slabp_size 0 }

-- A page of two blocks of 511 words, as `slabp_init` leaves it.
abbrev halves : SlabPage
halves = record {
  free = 1;
  size = 511;
  first_free = 0;
  data_words = 511 ∷ (replicate 510 0 ++ (slab_sentinel ∷ replicate 510 0));
}

halves_made : slabp_init zeros 511 ≡ ok halves
unfolding slabp_init link_blocks link_block
halves_made = refl

init_rejects : (slabp_init zeros 0 ≡ panic) × (slabp_init zeros 1023 ≡ panic)
unfolding slabp_init
init_rejects = (refl, refl)

halves-IsFree : IsFree halves (0 ∷ 511 ∷ [])
halves-IsFree = record { sized = refl; chained = (refl, omega arith, (refl, omega arith, refl)) }

halves-IsCut : IsCut 511 halves
halves-IsCut = record {
  last = 1;
  free_list = halves-IsFree;
  starts_inside = omega arith;
  next_outside = omega arith;
  same_size = refl;
  counted = refl;
}

slabp_init-IsCut_example : (out : SlabPage) × (slabp_init zeros 511 ≡ ok out) × IsCut 511 out
slabp_init-IsCut_example =
    slabp_init-IsCut zeros 511 (length-replicate {A = ℕ} slabp_size 0) (omega arith) (omega arith)

slabp_init-AllInside_example :
    (out : SlabPage) × (offsets : List ℕ) × (slabp_init zeros 511 ≡ ok out)
    × IsFree out offsets
    × (AllInside 511 offsets ↔ (slabp_size % 511 ≡ 0))
slabp_init-AllInside_example =
    slabp_init-AllInside zeros 511 (length-replicate {A = ℕ} slabp_size 0) (omega arith)
      (omega arith)

abbrev at : ℕ
at = 0x10_0000

abbrev emptied : SlabPage
emptied = taken (taken halves 0) 511

emptied-IsFree : IsFree emptied []
emptied-IsFree = record { sized = refl; chained = refl }

slabp_free-slabp_alloc_example :
    (out : SlabPage) × ((slabp_free at emptied 0x10_0804 >>= slabp_alloc at) ≡ ok (0x10_0804, out))
    × IsFree out []
slabp_free-slabp_alloc_example =
    slabp_free-slabp_alloc 511 (omega arith) (omega arith) refl emptied-IsFree

-- Both blocks are taken.
abbrev both : Pool
both = record { slb = emptied; live = 511 ∷ 0 ∷ [] }

both_reached : Reach at 511 (record { slb = halves; live = [] }) both
unfolding slabp_full slabp_alloc block_offset
both_reached =
    Reach.next
      (Reach.next Reach.here
        (Step.alloc {s = halves} {s' = taken halves 0} {live = []} 0x10_0008 refl refl))
      (Step.alloc {s = taken halves 0} {s' = emptied} {live = 0 ∷ []} 0x10_0804 refl refl)

Reach-IsOwned_example : IsOwned 511 1 both
unfolding halves-IsCut
Reach-IsOwned_example = Reach-IsOwned at 511 (omega arith) (omega arith) halves-IsCut both_reached

Reach-disjoint_example :
    (count 0 both.live ≡ 1)
    × (0 % 511 ≡ 0)
    × (0 < slabp_size)
    × ((◌≡◌ {A = ℕ} 0 511) ⊎ ((0 + 511 ≤ 511) ⊎ (511 + 511 ≤ 0)))
Reach-disjoint_example =
    Reach-disjoint at 511 0 511 (omega arith) (omega arith) halves-IsCut both_reached (omega arith)
      (omega arith)
