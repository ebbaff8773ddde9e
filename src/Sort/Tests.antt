-- ===== src/Sort/Tests.antt =====
-- Numbers, sorted.
use boot.Base.{ℕ, ◌≡◌, refl, arith, List, [], ◌∷◌, ok, ltb, length, false, true}
use mathlib.Core.List.{Perm}
use boot.Sort.{sort, sort_passes, skip_gaps, gap_sort, each_offset, insert_each, shift}
use boot.Sort.Order.{LessThan, IsAscending}
use boot.Sort.Sorted.{sort-IsAscending}

ltb_asym : (x y : ℕ) → ltb x y ≡ true → ltb y x ≡ false
ltb_asym x y h = ground arith

ltb_trans : (x y z : ℕ) → ltb y x ≡ false → ltb z y ≡ false → ltb z x ≡ false
ltb_trans x y z h k = ground arith

instance numbers : LessThan ℕ
numbers = record { less = ltb; asym = ltb_asym; trans = ltb_trans }

abbrev mixed : List ℕ
mixed = 5 ∷ 1 ∷ 4 ∷ 1 ∷ 9 ∷ 2 ∷ []

sort-mixed : sort mixed ≡ ok (1 ∷ 1 ∷ 2 ∷ 4 ∷ 5 ∷ 9 ∷ [])
unfolding sort skip_gaps sort_passes gap_sort each_offset insert_each shift numbers
sort-mixed = refl

sort-IsAscending_example :
    (b : List ℕ) × (sort mixed ≡ ok b)
    × Perm b mixed
    × (length b ≡ length mixed)
    × IsAscending 0 (length mixed) b
sort-IsAscending_example = sort-IsAscending 0 mixed (omega arith)
