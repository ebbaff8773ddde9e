-- ===== src/MemoryMap/Compress.antt =====
-- `compressE820` writes over the entries that it reads, and yet leaves the low ones of them.
use boot.Base.{
  ℕ, zero, suc, ◌+◌, ◌*◌, ◌%◌, ◌^◌, ◌<◌, ◌≤◌, ◌≡◌, inl, inr, refl, ◌∙◌, arith, List, [], ◌∷◌,
  length, ok, if◌then◌else◌, Bool-cases, bit_and_low, true, false, sym, ap,
}
use mathlib.Core.Path.{subst}
use boot.Base.{min, leb, ◌-◌, bit_and}
use boot.MemoryMap.{read_entry, SmapEntry, Smap32, is_low, cut, compress_rounds, compress_e820}
use boot.MemoryMap.Regions.{
  entry_at, region_at, put, read_entry_lem, write_region_lem, length-put, put_outside,
  region_at-put, regions, entries, word,
}

-- The entries that `compressE820` keeps, as it writes them.
abbrev kept : List SmapEntry → List Smap32
kept [] = []
kept (e ∷ es) = if is_low e then cut e ∷ kept es else kept es

kept-keep :
    (e : SmapEntry) (es : List SmapEntry) → is_low e ≡ true → kept (e ∷ es) ≡ cut e ∷ kept es
kept-keep e es t = rw t refl

kept-drop : (e : SmapEntry) (es : List SmapEntry) → is_low e ≡ false → kept (e ∷ es) ≡ kept es
kept-drop e es f = rw f refl

cut_type : (e : SmapEntry) → (cut e).type < 2 ^ 16
cut_type e = omega (arith, bit_and_low 16 e.type)

entry_at-same :
    (old words : List ℕ) (i : ℕ)
    → ((p : ℕ) → 6 * i ≤ p → word words p ≡ word old p)
    → entry_at words i ≡ entry_at old i
entry_at-same old words i same =
    rw
      (
        same (6 * i) (omega arith),
        same (6 * i + 1) (omega arith),
        same (6 * i + 2) (omega arith),
        same (6 * i + 3) (omega arith),
        same (6 * i + 4) (omega arith),
        same (6 * i + 5) (omega arith),
      )
      refl

region_at-same :
    (old words : List ℕ) (j : ℕ)
    → ((p : ℕ) → p < 3 * j + 3 → word words p ≡ word old p)
    → region_at words j ≡ region_at old j
region_at-same old words j same =
    rw (same (3 * j) (omega arith), same (3 * j + 1) (omega arith), same (3 * j + 2) (omega arith))
      refl

-- What the rest of the loop leaves.
record Compressed (j : ℕ) (out : List Smap32) (words new : List ℕ) : Type 0 where
  same_length : length new ≡ length words
  below : (p : ℕ) → p < 3 * j → word new p ≡ word words p
  written : regions (length out) j new ≡ out

Compressed-keep :
    (j : ℕ) (e : SmapEntry) (out : List Smap32) (words new : List ℕ)
    → 3 * j + 3 ≤ length words
    → Compressed (j + 1) out (put words j (cut e)) new
    → Compressed j (cut e ∷ out) words new
Compressed-keep j e out words new h c =
    let w = put words j (cut e) in
    let here : region_at new j ≡ cut e =
      region_at-same w new j (λ p lt. c.below p (omega arith))
      ∙ region_at-put words j (cut e) h (cut_type e) in
    record {
      same_length = c.same_length ∙ length-put words j (cut e);
      below = λ p lt. c.below p (omega arith) ∙ put_outside words j (cut e) p (inl lt);
      written = rw (here, c.written) refl;
    }

compress_rounds_lem :
    (left i j : ℕ) (old words : List ℕ)
    → j ≤ i
    → i + left < 2 ^ 16
    → 6 * (i + left) ≤ length words
    → ((p : ℕ) → 6 * i ≤ p → word words p ≡ word old p)
    → (new : List ℕ) × (compress_rounds left i j words
        ≡ ok (j + length (kept (entries left i old)), new))
      × Compressed j (kept (entries left i old)) words new
unfolding compress_rounds
compress_rounds_lem zero i j old words le small fits same = (
  words,
  let z : j + 0 ≡ j = omega arith in rw z refl,
  record { same_length = refl; below = λ p lt. refl; written = refl },
)
compress_rounds_lem (suc left) i j old words le small fits same =
    let e = entry_at old i in
    let es = entries left (i + 1) old in
    let rd : read_entry words i ≡ ok e =
      read_entry_lem words i (omega arith) ∙ ap ok (entry_at-same old words i same) in
    elim (Bool-cases (is_low e)) [
      | inl t ↦
          let w = put words j (cut e) in
          let wr = write_region_lem words j (cut e) (omega arith) in
          let (new, run, c) =
            compress_rounds_lem left (i + 1) (j + 1) old w (omega arith) (omega arith)
              (omega (arith, length-put words j (cut e)))
              (λ p h. put_outside words j (cut e) p (inr (omega arith)) ∙ same p (omega arith)) in
          let z : (j + 1) % 2 ^ 16 ≡ j + 1 = omega arith in
          let k : j + 1 + length (kept es) ≡ j + suc (length (kept es)) = omega arith in
          subst
            (λ out.
              (n : List ℕ) × (compress_rounds (suc left) i j words ≡ ok (j + length out, n))
              × Compressed j out words n)
            (sym (kept-keep e es t))
            (
              new,
              rw rd (rw (t, wr, z) (run ∙ rw k refl)),
              Compressed-keep j e (kept es) words new (omega arith) c,
            )
      | inr f ↦
          let (new, run, c) =
            compress_rounds_lem left (i + 1) j old words (omega arith) (omega arith) (omega arith)
              (λ p h. same p (omega arith)) in
          subst
            (λ out.
              (n : List ℕ) × (compress_rounds (suc left) i j words ≡ ok (j + length out, n))
              × Compressed j out words n)
            (sym (kept-drop e es f)) (new, rw rd (rw f run), c)
    ]

-- The same with the length of the memory.
pub compress_e820_kept :
    (words : List ℕ) (n : ℕ)
    → n < 2 ^ 16
    → 6 * n ≤ length words
    → let out = kept (entries n 0 words) in
      (new : List ℕ) × (compress_e820 words n ≡ ok (length out, new))
      × (regions (length out) 0 new ≡ out)
      × (length new ≡ length words)
unfolding compress_e820
compress_e820_kept words n small fits =
    let (new, run, c) =
      compress_rounds_lem n 0 0 words words (omega arith) (omega arith) (omega arith)
        (λ p h. refl) in
    let z : 0 + length (kept (entries n 0 words)) ≡ length (kept (entries n 0 words)) =
      omega arith in
    (new, run ∙ rw z refl, c.written, c.same_length)

pub length-kept_le : (n i : ℕ) (words : List ℕ) → length (kept (entries n i words)) ≤ n
length-kept_le zero i words = omega arith
length-kept_le (suc n) i words = elim (Bool-cases (is_low (entry_at words i))) [
  | inl t ↦
      rw (kept-keep (entry_at words i) (entries n (i + 1) words) t)
        (omega (arith, length-kept_le n (i + 1) words))
  | inr f ↦
      rw (kept-drop (entry_at words i) (entries n (i + 1) words) f)
        (omega (arith, length-kept_le n (i + 1) words))
]

-- The entry as a region of the first 4 GiB: what is behind them is clipped.
-- The length has 32 bits, so that the whole of them has length 0.
abbrev pub clipped : SmapEntry → Smap32
clipped e = record {
  base = e.base;
  length = min e.length (2 ^ 32 - e.base) % 2 ^ 32;
  type = e.type % 2 ^ 16;
  acpi = e.acpi % 2 ^ 16;
}

-- The entries that start below 2 ^ 32 - 1, clipped.
abbrev pub low_ones : List SmapEntry → List Smap32
low_ones [] = []
low_ones (e ∷ es) = if leb (2 ^ 32 - 1) e.base then low_ones es else clipped e ∷ low_ones es

-- No entry goes on behind the 64-bit addresses.
abbrev pub AllAddressed : List SmapEntry → Type 0
AllAddressed [] = Unit
AllAddressed (e ∷ es) = (e.base + e.length < 2 ^ 64) × AllAddressed es

cut-clipped : (e : SmapEntry) → is_low e ≡ true → e.base + e.length < 2 ^ 64 → cut e ≡ clipped e
cut-clipped e low addressed =
    let b : e.base < 2 ^ 32 - 1 = ground arith in
    let base : e.base % 2 ^ 32 ≡ e.base = omega arith in
    let length : (cut e).length ≡ (clipped e).length = ground arith in
    let type : bit_and e.type 0xFFFF ≡ e.type % 2 ^ 16 = bit_and_low 16 e.type in
    let acpi : bit_and e.acpi 0xFFFF ≡ e.acpi % 2 ^ 16 = bit_and_low 16 e.acpi in
    λ i. record { base = base i; length = length i; type = type i; acpi = acpi i }

kept-low_ones : (es : List SmapEntry) → AllAddressed es → kept es ≡ low_ones es
kept-low_ones [] a = refl
kept-low_ones (e ∷ es) a = elim (Bool-cases (is_low e)) [
  | inl t ↦
      let f : leb (2 ^ 32 - 1) e.base ≡ false = ground arith in
      rw (t, f, cut-clipped e t a.0, kept-low_ones es a.1) refl
  | inr f ↦
      let t : leb (2 ^ 32 - 1) e.base ≡ true = ground arith in rw (f, t, kept-low_ones es a.1) refl
]

-- The same with the length of the memory and a bound of the number.
pub compress_e820_low :
    (words : List ℕ) (n : ℕ)
    → n < 2 ^ 16
    → 6 * n ≤ length words
    → AllAddressed (entries n 0 words)
    → let out = low_ones (entries n 0 words) in
      (new : List ℕ) × (compress_e820 words n ≡ ok (length out, new))
      × (regions (length out) 0 new ≡ out)
      × (length new ≡ length words)
      × (length out ≤ n)
compress_e820_low words n small fits addressed =
    rw (sym (kept-low_ones (entries n 0 words) addressed)) (
      let (new, run, written, same) = compress_e820_kept words n small fits in
      (new, run, written, same, length-kept_le n 0 words))

-- For fewer than 2 ^ 16 entries inside the memory, none of which goes on behind 2 ^ 64,
-- `compressE820` returns, and the regions that it counts are those of the entries that start below
-- 2 ^ 32 - 1, in order, although it writes them over the entries that it reads. Such a region has
-- the base of its entry, and its length or what is left up to 2 ^ 32, whichever is less, as 32 bits,
-- which are 0 for all of the first 4 GiB; of the type and of the ACPI word it has the low 16 bits.
pub compress_e820-low_ones :
    (words : List ℕ) (n : ℕ)
    → n < 2 ^ 16
    → 6 * n ≤ length words
    → AllAddressed (entries n 0 words)
    → let out = low_ones (entries n 0 words) in
      (new : List ℕ) × (compress_e820 words n ≡ ok (length out, new))
      × (regions (length out) 0 new ≡ out)
compress_e820-low_ones words n small fits addressed =
    let (new, run, written, same, few) = compress_e820_low words n small fits addressed in
    (new, run, written)
