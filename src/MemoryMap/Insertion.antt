-- ===== src/MemoryMap/Insertion.antt =====
-- `sortE820` on a map that is in order, and where a region belongs in front of all others.
use mathlib.Core.Path.{subst}
use native.Mathlib.Decide.{dec_lt}
use boot.Base.{
  load_past, u16, ℕ, zero, suc, ◌+◌, ◌-◌, ◌*◌, ◌%◌, ◌/◌, ◌^◌, ◌<◌, ◌≤◌, ◌≡◌, inl, refl, ◌∙◌, arith,
  List, length, ok, fault, true, false, set_same, ap,
}
use boot.MemoryMap.{Smap32, comp_e820, sink, sort_rounds, sort_e820, read_region}
use boot.MemoryMap.Regions.{
  region_at, put, read_region_lem, write_region_lem, length-put, put_outside, word,
}

-- No region among the first `n` comes before the one in front of it.
abbrev pub IsOrdered : List ℕ → ℕ → Type 0
IsOrdered words n =
    (i : ℕ) → 0 < i → i < n → comp_e820 (region_at words i) (region_at words (i - 1)) ≡ false

-- A region that is written back where it was read changes nothing.
pub put_same : (words : List ℕ) (i : ℕ) → put words i (region_at words i) ≡ words
put_same words i =
    let k : word words (3 * i + 2) % 2 ^ 16 + word words (3 * i + 2) / 2 ^ 16 * 2 ^ 16
        ≡ word words (3 * i + 2) =
      omega arith in
    rw (k, set_same words (3 * i) 0)
      (rw (set_same words (3 * i + 1) 0) (set_same words (3 * i + 2) 0))

read_region_past : (words : List ℕ) (j : ℕ) → length words ≤ 3 * j → read_region words j ≡ fault
unfolding read_region
read_region_past words j h = rw (load_past words (3 * j) h) refl

region_at-put_above :
    (words : List ℕ) (j k : ℕ) (r : Smap32)
    → k < j
    → region_at (put words j r) k ≡ region_at words k
region_at-put_above words j k r h =
    rw
      (
        put_outside words j r (3 * k) (inl (omega arith)),
        put_outside words j r (3 * k + 1) (inl (omega arith)),
        put_outside words j r (3 * k + 2) (inl (omega arith)),
      )
      refl

sink_stays :
    (fuel i : ℕ) (words : List ℕ)
    → 0 < i
    → 3 * (i + 1) ≤ length words
    → comp_e820 (region_at words i) (region_at words (i - 1)) ≡ false
    → sink (suc fuel) (region_at words i) (i - 1) words ≡ ok words
unfolding sink
sink_stays fuel i words pos h stop =
    let e : i - 1 + 1 ≡ i = omega arith in
    rw (read_region_lem words (i - 1) (omega arith)) (
      rw (stop, e, write_region_lem words i (region_at words i) (omega arith), put_same words i)
        refl)

sink_front :
    (j : ℕ) (current : Smap32) (words : List ℕ)
    → 3 * (j + 2) ≤ length words
    → length words ≤ 3 * 65535
    → ((k : ℕ) → k ≤ j → comp_e820 current (region_at words k) ≡ true)
    → sink (suc (suc j)) current j words ≡ fault
unfolding sink
sink_front zero current words h small front =
    let r = region_at words 0 in
    let l = length-put words (0 + 1) r in
    rw (read_region_lem words 0 (omega arith)) (
      rw (front 0 (omega arith), write_region_lem words (0 + 1) r (omega arith))
        (rw (read_region_past (put words (0 + 1) r) (u16 (0 + 65535)) (omega (arith, l))) refl))
sink_front (suc j) current words h small front =
    let r = region_at words (suc j) in
    let w = put words (suc j + 1) r in
    let l = length-put words (suc j + 1) r in
    let z : (suc j + 65535) % 2 ^ 16 ≡ j = omega arith in
    rw (read_region_lem words (suc j) (omega arith)) (
      rw (front (suc j) (omega arith), write_region_lem words (suc j + 1) r (omega arith), z)
        (sink_front j current w (omega (arith, l)) (omega (arith, l)) (λ k le.
          ap (comp_e820 current) (region_at-put_above words (suc j + 1) k r (omega arith))
          ∙ front k (omega arith))))

-- On regions that are in order, and lie inside the memory, `sortE820` changes nothing.
sort_rounds-ordered :
    (left i : ℕ) (words : List ℕ)
    → 0 < i
    → 3 * (i + left) ≤ length words
    → IsOrdered words (i + left)
    → sort_rounds left i words ≡ ok words
unfolding sort_rounds
sort_rounds-ordered zero i words pos h o = refl
sort_rounds-ordered (suc left) i words pos h o = rw (read_region_lem words i (omega arith)) (
    rw (sink_stays i i words pos (omega arith) (o i pos (omega arith))) (
      sort_rounds-ordered left (i + 1) words (omega arith) (omega arith)
        (λ k pos lt. o k pos (omega arith))))

sort_rounds-zero : (words : List ℕ) → sort_rounds 0 1 words ≡ ok words
unfolding sort_rounds
sort_rounds-zero words = refl

-- Where the regions before the one with the index `i` are in order and it belongs in front of all
-- of them, `sortE820` runs past the front of the memory.
sort_rounds-front :
    (left i at : ℕ) (words : List ℕ)
    → 0 < i
    → i ≤ at
    → at < i + left
    → 3 * (i + left) ≤ length words
    → length words ≤ 3 * 65535
    → IsOrdered words at
    → ((k : ℕ) → k < at → comp_e820 (region_at words at) (region_at words k) ≡ true)
    → sort_rounds left i words ≡ fault
unfolding sort_rounds
sort_rounds-front zero i at words pos le lt h small o front = absurd (omega arith)
sort_rounds-front (suc left) zero at words pos le lt h small o front = absurd (omega arith)
sort_rounds-front (suc left) (suc j) at words pos le lt h small o front = elim (dec_lt (suc j) at) [
  | yes below ↦ rw (read_region_lem words (suc j) (omega arith)) (
      rw (sink_stays (suc j) (suc j) words pos (omega arith) (o (suc j) pos below)) (
        sort_rounds-front left (suc j + 1) at words (omega arith) (omega arith) (omega arith)
          (omega arith) small o front))
  | no above ↦
      let same : at ≡ suc j = omega arith in
      let last : suc j - 1 ≡ j = omega arith in
      let first : (k : ℕ) → k ≤ j → comp_e820 (region_at words (suc j)) (region_at words k) ≡ true =
        subst (λ a. (k : ℕ) → k ≤ j → comp_e820 (region_at words a) (region_at words k) ≡ true) same
          (λ k le. front k (omega arith)) in
      rw (read_region_lem words (suc j) (omega arith))
        (rw (last, sink_front j (region_at words (suc j)) words (omega arith) small first) refl)
]

-- On `len` regions that are in order and lie inside the memory, `sortE820` changes nothing.
pub sort_e820-ordered :
    (words : List ℕ) (len : ℕ)
    → 3 * len ≤ length words
    → IsOrdered words len
    → sort_e820 words len ≡ ok words
unfolding sort_e820
sort_e820-ordered words zero h o = sort_rounds-zero words
sort_e820-ordered words (suc n) h o =
    let e : suc n - 1 ≡ n = omega arith in
    rw e (sort_rounds-ordered n 1 words (omega arith) (omega arith) (λ k p lt. o k p (omega arith)))

-- Where one of `len` regions in the memory, which has less than 65536 of them, belongs in front of
-- all regions before it, and those are in order, `sortE820` does not stop at the first region: it
-- reads a region past the end of the memory, at the index 65535.
pub sort_e820-front :
    (words : List ℕ) (len at : ℕ)
    → 0 < at
    → at < len
    → 3 * len ≤ length words
    → length words ≤ 3 * 65535
    → IsOrdered words at
    → ((k : ℕ) → k < at → comp_e820 (region_at words at) (region_at words k) ≡ true)
    → sort_e820 words len ≡ fault
unfolding sort_e820
sort_e820-front words zero at pos lt h small o front = absurd (omega arith)
sort_e820-front words (suc n) at pos lt h small o front =
    let e : suc n - 1 ≡ n = omega arith in
    rw
      (
        e,
        sort_rounds-front n 1 at words (omega arith) (omega arith) (omega arith) (omega arith) small
            o front,
      )
      refl
