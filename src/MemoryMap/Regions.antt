-- ===== src/MemoryMap/Regions.antt =====
-- Entries and regions as they lie in the words.
use boot.Base.{
  ℕ, zero, suc, ◌+◌, ◌*◌, ◌/◌, ◌%◌, ◌^◌, ◌<◌, ◌≤◌, ◌≡◌, ◌≢◌, ◌⊎◌, refl, ◌∙◌, arith, List, [], ◌∷◌,
  length, get_or, set, ok, length-set, get_or-set_self, get_or-set_ne, load_in_range,
  store_in_range,
}
use boot.MemoryMap.{SmapEntry, Smap32, read_entry, read_region, write_region}

abbrev pub entry_of : ℕ → ℕ → ℕ → ℕ → ℕ → ℕ → SmapEntry
entry_of base_low base_high length_low length_high type acpi = record {
  base = base_low + base_high * 2 ^ 32;
  length = length_low + length_high * 2 ^ 32;
  type = type;
  acpi = acpi;
}

abbrev pub word : List ℕ → ℕ → ℕ
word words p = get_or words p 0

abbrev pub entry_at : List ℕ → ℕ → SmapEntry
entry_at words i =
    entry_of (word words (6 * i)) (word words (6 * i + 1)) (word words (6 * i + 2))
      (word words (6 * i + 3)) (word words (6 * i + 4)) (word words (6 * i + 5))

abbrev region_of : ℕ → ℕ → ℕ → Smap32
region_of base length kind = record {
  base = base;
  length = length;
  type = kind % 2 ^ 16;
  acpi = kind / 2 ^ 16;
}

abbrev pub region_at : List ℕ → ℕ → Smap32
region_at words j = region_of (word words (3 * j)) (word words (3 * j + 1)) (word words (3 * j + 2))

abbrev pub put : List ℕ → ℕ → Smap32 → List ℕ
put words j r =
    set (set (set words (3 * j) r.base) (3 * j + 1) r.length) (3 * j + 2) (r.type + r.acpi * 2 ^ 16)

pub read_entry_lem :
    (words : List ℕ) (i : ℕ) → 6 * i + 6 ≤ length words → read_entry words i ≡ ok (entry_at words i)
unfolding read_entry
read_entry_lem words i h =
    rw
      (
        load_in_range words (6 * i) 0 (omega arith),
        load_in_range words (6 * i + 1) 0 (omega arith),
        load_in_range words (6 * i + 2) 0 (omega arith),
        load_in_range words (6 * i + 3) 0 (omega arith),
        load_in_range words (6 * i + 4) 0 (omega arith),
        load_in_range words (6 * i + 5) 0 (omega arith),
      )
      refl

pub read_region_lem :
    (words : List ℕ) (j : ℕ)
    → 3 * j + 3 ≤ length words
    → read_region words j ≡ ok (region_at words j)
unfolding read_region
read_region_lem words j h =
    rw
      (
        load_in_range words (3 * j) 0 (omega arith),
        load_in_range words (3 * j + 1) 0 (omega arith),
        load_in_range words (3 * j + 2) 0 (omega arith),
      )
      refl

pub length-put : (words : List ℕ) (j : ℕ) (r : Smap32) → length (put words j r) ≡ length words
length-put words j r =
    length-set (set (set words (3 * j) r.base) (3 * j + 1) r.length) (3 * j + 2)
      (r.type + r.acpi * 2 ^ 16)
    ∙ (length-set (set words (3 * j) r.base) (3 * j + 1) r.length ∙ length-set words (3 * j) r.base)

pub write_region_lem :
    (words : List ℕ) (j : ℕ) (r : Smap32)
    → 3 * j + 3 ≤ length words
    → write_region words j r ≡ ok (put words j r)
unfolding write_region
write_region_lem words j r h =
    let a = set words (3 * j) r.base in
    let b = set a (3 * j + 1) r.length in
    let la = length-set words (3 * j) r.base in
    let lb = length-set a (3 * j + 1) r.length in
    rw
      (
        store_in_range words (3 * j) r.base (omega arith),
        store_in_range a (3 * j + 1) r.length (omega (arith, la)),
        store_in_range b (3 * j + 2) (r.type + r.acpi * 2 ^ 16) (omega (arith, la, lb)),
      )
      refl

pub put_outside :
    (words : List ℕ) (j : ℕ) (r : Smap32) (p : ℕ)
    → (p < 3 * j) ⊎ (3 * j + 3 ≤ p)
    → word (put words j r) p ≡ word words p
put_outside words j r p h =
    let a = set words (3 * j) r.base in
    let b = set a (3 * j + 1) r.length in
    let n0 : 3 * j ≢ p = ground arith in
    let n1 : 3 * j + 1 ≢ p = ground arith in
    let n2 : 3 * j + 2 ≢ p = ground arith in
    get_or-set_ne b (3 * j + 2) p (r.type + r.acpi * 2 ^ 16) 0 n2
    ∙ (get_or-set_ne a (3 * j + 1) p r.length 0 n1 ∙ get_or-set_ne words (3 * j) p r.base 0 n0)

pub region_at-put :
    (words : List ℕ) (j : ℕ) (r : Smap32)
    → 3 * j + 3 ≤ length words
    → r.type < 2 ^ 16
    → region_at (put words j r) j ≡ r
region_at-put words j r h small =
    let kind = r.type + r.acpi * 2 ^ 16 in
    let a = set words (3 * j) r.base in
    let b = set a (3 * j + 1) r.length in
    let la = length-set words (3 * j) r.base in
    let lb = length-set a (3 * j + 1) r.length in
    let e0 : word (put words j r) (3 * j) ≡ r.base =
      get_or-set_ne b (3 * j + 2) (3 * j) kind 0 (omega arith)
      ∙ (get_or-set_ne a (3 * j + 1) (3 * j) r.length 0 (omega arith)
          ∙ get_or-set_self words (3 * j) r.base 0 (omega arith)) in
    let e1 : word (put words j r) (3 * j + 1) ≡ r.length =
      get_or-set_ne b (3 * j + 2) (3 * j + 1) kind 0 (omega arith)
      ∙ get_or-set_self a (3 * j + 1) r.length 0 (omega (arith, la)) in
    let e2 : word (put words j r) (3 * j + 2) ≡ kind =
      get_or-set_self b (3 * j + 2) kind 0 (omega (arith, la, lb)) in
    let t : kind % 2 ^ 16 ≡ r.type = omega arith in
    let u : kind / 2 ^ 16 ≡ r.acpi = omega arith in rw (e0, e1, e2) (rw (t, u) refl)

-- `count` regions from the one with the index `j` on.
abbrev pub regions : ℕ → ℕ → List ℕ → List Smap32
regions zero j words = []
regions (suc count) j words = region_at words j ∷ regions count (j + 1) words

-- `count` entries from the one with the index `i` on.
abbrev pub entries : ℕ → ℕ → List ℕ → List SmapEntry
entries zero i words = []
entries (suc count) i words = entry_at words i ∷ entries count (i + 1) words
