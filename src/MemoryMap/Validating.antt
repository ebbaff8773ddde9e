-- ===== src/MemoryMap/Validating.antt =====
-- The loader's memory map from the entries of the BIOS to the regions that `validate` counts.
use boot.Base.{
  ℕ, ◌+◌, ◌-◌, ◌*◌, ◌^◌, ◌<◌, ◌≤◌, ◌≡◌, refl, sym, ◌∙◌, arith, List, length, ok, replicate,
}
use mathlib.Core.Path.{subst}
use boot.MemoryMap.{validate}
use boot.MemoryMap.Regions.{regions, entries}
use boot.MemoryMap.Compress.{low_ones, compress_e820_low, AllAddressed}
use boot.MemoryMap.Insertion.{IsOrdered, sort_e820-ordered}
use boot.MemoryMap.Merging.{InOrder, InOrder-next, sum, count_types-sum, merge_types-same}
use boot.Base.{ap}

InOrder-IsOrdered : (words : List ℕ) (n : ℕ) → InOrder (regions n 0 words) → IsOrdered words n
InOrder-IsOrdered words n o i pos lt =
    let k : 0 + (i - 1) ≡ i - 1 = omega arith in
    let k' : i - 1 + 1 ≡ i = omega arith in
    let (apart, typed) = rw (k, k') at (InOrder-next words n 0 (i - 1) o (omega arith)) in
    ground arith

-- For fewer than 2 ^ 16 entries inside the memory, none of which goes on behind 2 ^ 64, whose
-- regions from below 2 ^ 32 - 1 do not overlap and stand in the order of their addresses and of their types, which are 1
-- to 5: `validate` returns their number, and these regions, unchanged, stand at the start of the
-- memory.
pub validate-keeps :
    (words : List ℕ) (n : ℕ)
    → n < 2 ^ 16
    → 6 * n ≤ length words
    → AllAddressed (entries n 0 words)
    → InOrder (low_ones (entries n 0 words))
    → let out = low_ones (entries n 0 words) in
      (new : List ℕ) × (validate words n ≡ ok (length out, new))
      × (regions (length out) 0 new ≡ out)
unfolding validate
validate-keeps words n small fits addressed o =
    let out = low_ones (entries n 0 words) in
    let (new, compressed, written, kept, few) = compress_e820_low words n small fits addressed in
    let o' : InOrder (regions (length out) 0 new) = subst InOrder (sym written) o in
    let sorted =
      sort_e820-ordered new (length out) (omega arith) (InOrder-IsOrdered new (length out) o') in
    let (counts, counted, five, total) =
      count_types-sum new (length out) (omega arith) o' (length out) 0 (replicate 5 0) (omega arith)
        refl (omega arith) in
    let merged =
      merge_types-same new (length out) (omega arith) o' 5 0 0 counts (omega arith) (omega arith)
        (omega arith) in
    let e : 0 + sum counts ≡ length out = omega arith in
    (new, rw (compressed, sorted, counted) (merged ∙ ap (λ t. ok (t, new)) e), written)
