-- ===== src/MemoryMap/Joining.antt =====
-- `mergeE820` and the counts of `validate` on regions of one type, of which the last two may overlap.
use boot.Base.{
  ℕ, zero, suc, ◌+◌, ◌-◌, ◌*◌, ◌^◌, ◌<◌, ◌≤◌, ◌≡◌, ◌≢◌, refl, ◌∙◌, ap, sym, arith, List, [], ◌∷◌,
  ◌++◌, length, ok, false, Bool-cases, inl, inr, ltb, lt→ltb, le→ltb_false, add32, if◌then◌else◌,
}
use boot.Text.{max}
use native.Mathlib.Decide.{dec_lt}
use boot.MemoryMap.{Smap32, merge_rounds, close_gap}
use boot.MemoryMap.Regions.{
  region_at, put, read_region_lem, write_region_lem, put_outside, region_at-put, regions,
}
use boot.MemoryMap.Insertion.{put_same}
use boot.MemoryMap.Merging.{InOrder, InOrder-next}

-- The region in front of the last one, once the last one has been joined to it: its length becomes
-- the end of the last one, where that is more.
abbrev pub joined : Smap32 → Smap32 → Smap32
joined p r = record p {
  length = if ltb r.base (p.base + p.length) then max p.length (r.base + r.length) else p.length;
}

region_at-put_other :
    (words : List ℕ) (j k : ℕ) (r : Smap32)
    → k ≢ j
    → region_at (put words j r) k ≡ region_at words k
region_at-put_other words j k r h =
    rw
      (
        put_outside words j r (3 * k) (omega arith),
        put_outside words j r (3 * k + 1) (omega arith),
        put_outside words j r (3 * k + 2) (omega arith),
      )
      refl

-- Only the region that is written changes.
pub regions-put :
    (rs : List Smap32) (words : List ℕ) (j : ℕ) (p q z : Smap32)
    → 3 * (j + length rs + 1) ≤ length words
    → q.type < 2 ^ 16
    → regions (suc (suc (length rs))) j words ≡ rs ++ (p ∷ z ∷ [])
    → regions (suc (suc (length rs))) j (put words (j + length rs) q) ≡ rs ++ (q ∷ z ∷ [])
regions-put [] words j p q z fits small e =
    let e1 : region_at words (j + 1) ≡ z = cc e in
    let k : j + 0 ≡ j = omega arith in
    let at : region_at (put words j q) j ≡ q = region_at-put words j q (omega arith) small in
    let behind : region_at (put words j q) (j + 1) ≡ z =
      region_at-put_other words j (j + 1) q (omega arith) ∙ e1 in
    rw k (cc (at, behind))
regions-put (r ∷ rs) words j p q z fits small e =
    let e0 : region_at words j ≡ r = cc e in
    let e1 : regions (suc (suc (length rs))) (j + 1) words ≡ rs ++ (p ∷ z ∷ []) = cc e in
    let k : j + suc (length rs) ≡ j + 1 + length rs = omega arith in
    let at : region_at (put words (j + 1 + length rs) q) j ≡ r =
      region_at-put_other words (j + 1 + length rs) j q (omega arith) ∙ e0 in
    let rest = regions-put rs words (j + 1) p q z (omega arith) small e1 in rw k (cc (at, rest))

-- The regions of a list by their numbers.
pub regions-last :
    (rs : List Smap32) (words : List ℕ) (j : ℕ) (p z : Smap32)
    → regions (suc (suc (length rs))) j words ≡ rs ++ (p ∷ z ∷ [])
    → (region_at words (j + length rs) ≡ p)
      × (region_at words (j + length rs + 1) ≡ z)
      × (regions (suc (length rs)) j words ≡ rs ++ (p ∷ []))
regions-last [] words j p z e =
    let k : j + 0 ≡ j = omega arith in
    let e0 : region_at words j ≡ p = cc e in
    let e1 : region_at words (j + 1) ≡ z = cc e in rw k (e0, e1, cc e0)
regions-last (r ∷ rs) words j p z e =
    let k : j + suc (length rs) ≡ j + 1 + length rs = omega arith in
    let e0 : region_at words j ≡ r = cc e in
    let e1 : regions (suc (suc (length rs))) (j + 1) words ≡ rs ++ (p ∷ z ∷ []) = cc e in
    let (at, behind, front) = regions-last rs words (j + 1) p z e1 in
    rw k (at, behind, cc (e0, front))

merge_rounds_stop :
    (fuel at i len : ℕ) (words : List ℕ) → len ≤ i → merge_rounds fuel at i len words ≡ ok words
unfolding merge_rounds
merge_rounds_stop zero at i len words h = refl
merge_rounds_stop (suc fuel) at i len words h = rw (le→ltb_false i len h) refl

module _ (words : List ℕ) (m : ℕ) (fits : 3 * (m + 2) ≤ length words)
    (o : InOrder (regions (m + 1) 0 words)) where
  abbrev before : Smap32
  before = region_at words m

  abbrev last : Smap32
  last = region_at words (m + 1)

  pub merge_rounds-joined :
      (fuel i : ℕ)
      → 1 ≤ i
      → i ≤ m + 1
      → m + 1 < fuel + i
      → before.base + before.length < 2 ^ 32
      → last.base + last.length < 2 ^ 32
      → merge_rounds fuel 0 i (m + 2) words ≡ ok (put words m (joined before last))
  unfolding merge_rounds close_gap
  merge_rounds-joined zero i pos le enough low low' = absurd (omega arith)
  merge_rounds-joined (suc fuel) i pos le enough low low' = elim (dec_lt i (m + 1)) [
    | yes lt ↦
        let k : 0 + (0 + i - 1) ≡ 0 + i - 1 = omega arith in
        let k' : 0 + i - 1 + 1 ≡ 0 + i = omega arith in
        let (apart, typed) =
          rw (k, k') at (InOrder-next words (m + 1) 0 (0 + i - 1) o (omega arith)) in
        let p = region_at words (0 + i - 1) in
        let r = region_at words (0 + i) in
        let stop : ltb r.base (add32 p.base p.length) ≡ false =
          le→ltb_false r.base (add32 p.base p.length) (omega arith) in
        rw
          (
            lt→ltb i (m + 2) (omega arith),
            read_region_lem words (0 + i - 1) (omega arith),
            read_region_lem words (0 + i) (omega arith),
          )
          (rw stop
            (merge_rounds-joined fuel (i + 1) (omega arith) (omega arith) (omega arith) low low'))
    | no ge ↦
        let here : i ≡ m + 1 = omega arith in
        let k : 0 + (m + 1) - 1 ≡ m = omega arith in
        let k' : 0 + (m + 1) ≡ m + 1 = omega arith in
        let k'' : m + 2 - (m + 1 + 1) ≡ 0 = omega arith in
        let e : add32 before.base before.length ≡ before.base + before.length = omega arith in
        let e' : add32 last.base last.length ≡ last.base + last.length = omega arith in
        rw (here, lt→ltb (m + 1) (m + 2) (omega arith), k, k')
          (rw
            (read_region_lem words m (omega arith), read_region_lem words (m + 1) (omega arith), e)
            (elim (Bool-cases (ltb last.base (before.base + before.length))) [
              | inl t ↦
                  rw (t, e', k'')
                    (rw
                      (write_region_lem words m
                        (record before { length = max before.length (last.base + last.length) })
                        (omega arith))
                      (merge_rounds_stop fuel 0 (m + 1 + 1) (m + 2 - 1) _ (omega arith)))
              | inr f ↦ rw f (
                  merge_rounds_stop fuel 0 (m + 1 + 1) (m + 2) words (omega arith)
                  ∙ ap ok (sym (put_same words m)))
            ]))
  ]
