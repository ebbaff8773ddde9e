-- ===== src/Slab/Chain.antt =====
-- The free list of a slab page: the offsets chained from `first_free` to the sentinel.
use boot.Base.{ℕ, ◌<◌, ◌≡◌, List, [], ◌∷◌, arith}
use boot.Base.{count, length, get_or, set, get_or-set_ne}
use boot.Slab.{SlabPage, slab_sentinel, slabp_size}

-- From offset `o` the first words of the blocks lead through exactly `xs`.
abbrev pub Chain : List ℕ → ℕ → List ℕ → Type 0
Chain words o [] = o ≡ slab_sentinel
Chain words o (x ∷ xs) = (o ≡ x) × (x < slabp_size) × Chain words (get_or words x 0) xs

-- The page holds `slabp_size` words, and its free blocks are those at the offsets `xs`, in the
-- order in which they will be handed out.
pub record IsFree (slb : SlabPage) (xs : List ℕ) : Type 0 where
  pub sized : length slb.data_words ≡ slabp_size
  pub chained : Chain slb.data_words slb.first_free xs

-- A write to a word that heads no free block leaves the free list.
pub Chain-set :
    (words : List ℕ) (i v o : ℕ) (xs : List ℕ)
    → count i xs ≡ 0
    → Chain words o xs
    → Chain (set words i v) o xs
Chain-set words i v o [] c h = h
Chain-set words i v o (x ∷ xs) c (e, lt, rest) =
    (e, lt, ground (arith, get_or-set_ne words i x v 0, Chain-set words i v (get_or words x 0) xs))
