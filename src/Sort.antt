-- ===== src/Sort.antt =====
-- stage3/include/crt/sort.h: the shell sort, for any type with the operator `<`.
pub mod Order
pub mod Shift
pub mod Passes
pub mod Sorted
mod Tests
use boot.Base.{ℕ, zero, suc, ◌+◌, ◌-◌, List, [], ◌∷◌, Bool, ◌==◌, if◌then◌else◌, leb, ltb, length}
use boot.Base.{Outcome, ok, fault, ◌>>=◌, load, store}
use boot.Sort.Order.{LessThan, less}

module _ {A : Type 0} ⦃lt : LessThan A⦄ where
  -- The inner loop of `gap_sort` and the store behind it, on fuel: `j` falls by `gap`.
  unfoldable pub shift : ℕ → ℕ → A → ℕ → List A → Outcome (List A)
  shift zero gap tmp j a = fault
  shift (suc fuel) gap tmp j a =
      let move = (do
        x ← load a (j - gap)
        let deeper = (do a ← store a j x; shift fuel gap tmp (j - gap) a)
        if less tmp x then deeper else store a j tmp) in
      if leb gap j then move else store a j tmp

  -- The loop over `i`, with `left` elements to come.
  unfoldable pub insert_each : ℕ → ℕ → ℕ → List A → Outcome (List A)
  insert_each zero gap i a = ok a
  insert_each (suc left) gap i a = do
    tmp ← load a i
    a ← shift (suc i) gap tmp i a
    insert_each left gap (i + 1) a

  -- The loop over `offset`, with `left` rounds to come.
  unfoldable pub each_offset : ℕ → ℕ → ℕ → ℕ → List A → Outcome (List A)
  each_offset zero gap offset n a = ok a
  each_offset (suc left) gap offset n a = do
    a ← insert_each (n - offset) gap offset a
    each_offset left gap (offset + 1) n a

  unfoldable pub gap_sort : List A → ℕ → ℕ → Outcome (List A)
  gap_sort a n gap = each_offset gap gap 0 n a

  -- The gaps from the current one on. Reading behind the last one is a fault.
  unfoldable pub sort_passes : List ℕ → ℕ → List A → Outcome (List A)
  sort_passes [] size a = fault
  sort_passes (gap ∷ gaps) size a =
      let pass = gap_sort a size gap >>= sort_passes gaps size in
      if gap == 1 then gap_sort a size 1 else pass

-- `while (gaps[idx] > size) idx++;`: the gaps that are left.
unfoldable pub skip_gaps : ℕ → List ℕ → List ℕ
skip_gaps size [] = []
skip_gaps size (gap ∷ gaps) =
    let rest = skip_gaps size gaps in if ltb size gap then rest else gap ∷ gaps

abbrev pub ciura_gaps : List ℕ
ciura_gaps =
    3444003501 ∷ 1530668223 ∷ 680296988 ∷ 302354217 ∷ 134379652 ∷ 59724290 ∷ 26544129 ∷ 11797391
    ∷ 5243285 ∷ 2330349 ∷ 1035711 ∷ 460316 ∷ 204585 ∷ 90927 ∷ 40412 ∷ 17961 ∷ 7983 ∷ 3548 ∷ 1577
    ∷ 701 ∷ 301 ∷ 132 ∷ 57 ∷ 23 ∷ 10 ∷ 4 ∷ 1 ∷ []

unfoldable pub sort : {A : Type 0} ⦃lt : LessThan A⦄ → List A → Outcome (List A)
sort a = sort_passes (skip_gaps (length a) ciura_gaps) (length a) a
