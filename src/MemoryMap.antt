-- ===== src/MemoryMap.antt =====
-- stage2/e820.c: the memory map of the BIOS, cut down to 32 bits, sorted and merged in place. The
-- memory is a list of 32-bit words: an entry of the BIOS takes six of them, and a region of the
-- loader three, over the same words.
pub mod Regions
pub mod Compress
pub mod Insertion
pub mod Merging
pub mod Joining
pub mod OneType
pub mod LastRegion
pub mod Validating
mod Tests
use boot.Base.{
  ℕ, zero, suc, ◌+◌, ◌-◌, ◌*◌, ◌/◌, ◌%◌, ◌^◌, List, [], Bool, ◌||◌, ◌==◌, if◌then◌else◌, ltb, add32,
  sub32, u16, u32, bit_and,
}
use boot.Base.{Outcome, ok, ◌>>=◌, ◌>>◌, load, store, replicate}
use boot.Text.{max}

-- `SMAP_entry_t`
pub record SmapEntry : Type 0 where
  pub base : ℕ
  pub length : ℕ
  pub type : ℕ
  pub acpi : ℕ

-- `SMAP32_t`
pub record Smap32 : Type 0 where
  pub base : ℕ
  pub length : ℕ
  pub type : ℕ
  pub acpi : ℕ

unfoldable pub read_entry : List ℕ → ℕ → Outcome SmapEntry
read_entry words i = do
  base_low ← load words (6 * i)
  base_high ← load words (6 * i + 1)
  length_low ← load words (6 * i + 2)
  length_high ← load words (6 * i + 3)
  type ← load words (6 * i + 4)
  acpi ← load words (6 * i + 5)
  ok record {
    base = base_low + base_high * 2 ^ 32;
    length = length_low + length_high * 2 ^ 32;
    type = type;
    acpi = acpi;
  }

unfoldable pub read_region : List ℕ → ℕ → Outcome Smap32
read_region words j = do
  base ← load words (3 * j)
  length ← load words (3 * j + 1)
  kind ← load words (3 * j + 2)
  ok (record { base = base; length = length; type = kind % 2 ^ 16; acpi = kind / 2 ^ 16 })

unfoldable pub write_region : List ℕ → ℕ → Smap32 → Outcome (List ℕ)
write_region words j r = do
  words ← store words (3 * j) r.base
  words ← store words (3 * j + 1) r.length
  store words (3 * j + 2) (r.type + r.acpi * 2 ^ 16)

-- The test and the body of `compressE820`.
abbrev pub is_low : SmapEntry → Bool
is_low e = ltb e.base 0xFFFF_FFFF

abbrev pub cut : SmapEntry → Smap32
cut e = record {
  base = u32 e.base;
  length =
      if ltb 0xFFFF_FFFF ((e.base + e.length) % 2 ^ 64)
      then add32 (sub32 0xFFFF_FFFF (u32 e.base)) 1
      else u32 e.length;
  type = bit_and e.type 0xFFFF;
  acpi = bit_and e.acpi 0xFFFF;
}

-- The loop, with `left` entries to come.
unfoldable pub compress_rounds : ℕ → ℕ → ℕ → List ℕ → Outcome (ℕ × List ℕ)
compress_rounds zero i j words = ok (j, words)
compress_rounds (suc left) i j words = do
  e ← read_entry words i
  let keep = (do
    words ← write_region words j (cut e)
    compress_rounds left (i + 1) (u16 (j + 1)) words)
  let drop = compress_rounds left (i + 1) j words
  if is_low e then keep else drop

unfoldable pub compress_e820 : List ℕ → ℕ → Outcome (ℕ × List ℕ)
compress_e820 words n = compress_rounds n 0 0 words

abbrev pub comp_e820 : Smap32 → Smap32 → Bool
comp_e820 a b = ltb a.base b.base || ltb a.type b.type

-- The inner loop of `sortE820` and the store behind it, on fuel. `j >= 0` holds for every
-- `uint16_t`, so that only the comparison ends it. The fuel runs out only behind a read of the region
-- 65535, which is far outside the memory.
unfoldable pub sink : ℕ → Smap32 → ℕ → List ℕ → Outcome (List ℕ)
sink zero current j words = Outcome.fault
sink (suc fuel) current j words = do
  r ← read_region words j
  let deeper = (do words ← write_region words (j + 1) r; sink fuel current (u16 (j + 65535)) words)
  if comp_e820 current r then deeper else write_region words (j + 1) current

unfoldable pub sort_rounds : ℕ → ℕ → List ℕ → Outcome (List ℕ)
sort_rounds zero i words = ok words
sort_rounds (suc left) i words = do
  current ← read_region words i
  words ← sink (suc i) current (i - 1) words
  sort_rounds left (i + 1) words

unfoldable pub sort_e820 : List ℕ → ℕ → Outcome (List ℕ)
sort_e820 words len = sort_rounds (len - 1) 1 words

-- The loop that closes the gap, with `left` regions to come from `j` on. `at` is the index of the
-- region that `e820` points to.
unfoldable pub close_gap : ℕ → ℕ → ℕ → List ℕ → Outcome (List ℕ)
close_gap zero at j words = ok words
close_gap (suc left) at j words = do
  r ← read_region words (at + j)
  words ← write_region words (at + j - 1) r
  close_gap left at (j + 1) words

-- The loop of `mergeE820`, on fuel for its rounds.
unfoldable pub merge_rounds : ℕ → ℕ → ℕ → ℕ → List ℕ → Outcome (List ℕ)
merge_rounds zero at i len words = ok words
merge_rounds (suc fuel) at i len words =
    let round = (do
      p ← read_region words (at + i - 1)
      r ← read_region words (at + i)
      let joined = record p { length = max p.length (add32 r.base r.length) }
      let merged = (do
        words ← write_region words (at + i - 1) joined
        words ← close_gap (len - (i + 1)) at (i + 1) words
        merge_rounds fuel at (i + 1) (len - 1) words)
      let apart = merge_rounds fuel at (i + 1) len words
      if ltb r.base (add32 p.base p.length) then merged else apart) in
    if ltb i len then round else ok words

unfoldable pub merge_e820 : List ℕ → ℕ → ℕ → Outcome (List ℕ)
merge_e820 words at len = merge_rounds len at 1 len words

-- The loop that counts the regions of each type.
unfoldable pub count_types : ℕ → ℕ → List ℕ → List ℕ → Outcome (List ℕ)
count_types zero i words typelengths = ok typelengths
count_types (suc left) i words typelengths = do
  r ← read_region words i
  let index = sub32 r.type 1
  count ← load typelengths index
  typelengths ← store typelengths index (u16 (count + 1))
  count_types left (i + 1) words typelengths

-- The loop that merges the regions of each type.
unfoldable pub merge_types : ℕ → ℕ → ℕ → List ℕ → List ℕ → Outcome (ℕ × List ℕ)
merge_types zero i total typelengths words = ok (total, words)
merge_types (suc left) i total typelengths words = do
  count ← load typelengths i
  words ← merge_e820 words total count
  merge_types left (i + 1) (u16 (total + count)) typelengths words

unfoldable pub validate : List ℕ → ℕ → Outcome (ℕ × List ℕ)
validate words n = do
  (n, words) ← compress_e820 words n
  words ← sort_e820 words n
  typelengths ← count_types n 0 words (replicate 5 0)
  merge_types 5 0 0 typelengths words
