-- ===== src/Pmm/Taking.antt =====
-- An allocation takes the first page of the stack.
use boot.Base.{
  ℕ, zero, suc, ◌*◌, ◌-◌, ◌/◌, ◌^◌, ◌≡◌, ◌≢◌, refl, sym, ◌∙◌, ap, arith, List, [], ◌∷◌, inl, ok,
  false, bit_and, bit_and_low, ◌==◌, page_mask,
}
use boot.Base.{Absent}
use boot.Vaddr.Translate.{IsRecursive-put_word}
use boot.Mmu.{Machine}
use boot.Vaddr.{pdi, pt_page_mask}
use boot.Vaddr.Access.{table_of}
use boot.Vaddr.Calls.{slot, mapping, replaced, entry, pt_map-present}
use boot.Vaddr.Translate.{put_word-elsewhere}
use boot.Pmm.{Pmm, pmm_alloc_ppage}
use boot.Pmm.Stack.{vload_stack, IsStack-replaced, mapping_odd, mapping_page, mapping_low}
use boot.Pmm.Listed.{Lists, Lists-elsewhere}
use boot.Pmm.Pool.{popped, left_of, AllClear, IsPool, words_put, frame-Clear}

module _ (at d t : ℕ) where
  -- What an allocation does: the page, and the state after it.
  pub record Taken (m : Machine) (p : Pmm) (q : ℕ) (qs : List ℕ) (last : ℕ) : Type 0 where
    pub after : Machine
    pub frame : ℕ
    pub runs : pmm_alloc_ppage at p m ≡ ok ((q * 2 ^ 12, popped p), after)
    pub pool : IsPool at d t after frame (popped p) qs last

  -- The page table is no clear page.
  pub Absent-table : (qs : List ℕ) → AllClear at d t qs → (g : ℕ) → g ≡ t → Absent g qs
  Absent-table [] c g e = tt
  Absent-table (q ∷ qs) c g e = (λ h. c.0.2 (sym h ∙ e), Absent-table qs c.1 g e)

  pub alloc_empty :
      {m : Machine} {f : ℕ} {p : Pmm} {last : ℕ}
      → IsPool at d t m f p [] last
      → pmm_alloc_ppage at p m ≡ ok ((0xFFFF_FFFF, p), m)
  unfolding pmm_alloc_ppage
  alloc_empty s = rw s.counted refl

  module _ (m : Machine) (f : ℕ) (p : Pmm) (q : ℕ) (qs : List ℕ) (last : ℕ)
      (s : IsPool at d t m f p (q ∷ qs) last) where
    not_empty : (p.pfree == 0) ≡ false
    not_empty = ground (arith, s.counted)

    taken_inside :
        (l : ℕ) → left_of p ≡ suc l → Lists m f (suc l) (q ∷ qs) last → Taken m p q qs last
    unfolding pmm_alloc_ppage
    taken_inside l e (word, rest) =
        let i = bit_and_low 10 p.pidx in
        let k : bit_and p.pidx 1023 ≡ 1022 - l = omega (arith, i) in
        let n : (1022 - l == 1023) ≡ false = ground arith in
        let e' : left_of (popped p) ≡ l = omega arith in
        record {
          after = m;
          frame = f;
          runs = rw (not_empty, k, n, vload_stack s.stack (1022 - l) (omega arith), word) refl;
          pool = record {
            words = s.words;
            recursive = s.recursive;
            stack = s.stack;
            is_dir = s.is_dir;
            is_table = s.is_table;
            counted = omega (arith, s.counted);
            low = omega arith;
            distinct = (s.distinct.0.1, s.distinct.1.1);
            clear = (s.clear.0, s.clear.1.1);
            lists = rw e' rest;
          };
        }

    taken_link : left_of p ≡ 0 → Lists m f zero (q ∷ qs) last → Taken m p q qs last
    unfolding pmm_alloc_ppage
    taken_link e (g, same, link, rest) =
        let i = bit_and_low 10 p.pidx in
        let k : bit_and p.pidx 1023 ≡ 1023 = omega (arith, i) in
        let c = frame-Clear at d t m g 1023 qs last (s.clear.0, s.clear.1.1) rest in
        let n1 : g ≢ m.cr3 = λ h. c.1 (h ∙ s.is_dir) in
        let n2 : g ≢ table_of m (pdi at) = λ h. c.2 (h ∙ s.is_table) in
        let v = mapping (g * 2 ^ 12) 3 in
        let m' = replaced m at v (at / 2 ^ 12 * 2 ^ 12) in
        let old : bit_and (entry m at) pt_page_mask ≡ q * 2 ^ 12 =
          page_mask (entry m at) (s.words (table_of m (pdi at)) (slot at))
          ∙ ap (λ h. h * 2 ^ 12) (s.stack.leads ∙ same) in
        let e' : left_of (popped p) ≡ 1023 = omega arith in
        let tn = table_of m (pdi at) in
        let w = IsRecursive-put_word tn (slot at) v (inl s.stack.dir_not_table) s.recursive in
        record {
          after = m';
          frame = g;
          runs =
              rw (not_empty, k, vload_stack s.stack 1023 (omega arith), link)
                (rw
                  (pt_map-present s.recursive at s.stack.low (g * 2 ^ 12) 3 s.stack.is_present, old)
                  refl);
          pool = record {
            words = words_put m tn (slot at) v s.words (mapping_low g c.0);
            recursive = record {
              is_present = w.is_present;
              is_small = w.is_small;
              is_self = w.is_self;
            };
            stack =
                IsStack-replaced v g (at / 2 ^ 12 * 2 ^ 12) s.stack (mapping_odd g) (mapping_page g)
                  n1 n2;
            is_dir = s.is_dir;
            is_table =
                ap (λ (h : ℕ). h / 2 ^ 12)
                  (put_word-elsewhere m tn (slot at) v m.cr3 m.cr3 (pdi at) refl
                    (inl s.stack.dir_not_table))
                ∙ s.is_table;
            counted = omega (arith, s.counted);
            low = omega arith;
            distinct = (s.distinct.0.1, s.distinct.1.1);
            clear = (s.clear.0, s.clear.1.1);
            lists = rw e' (
                Lists-elsewhere m g tn (slot at) v 1023 qs last
                  (λ h. s.clear.0.2 (sym h ∙ s.is_table))
                  (Absent-table qs s.clear.1.1 tn s.is_table) rest);
          };
        }

    by_left : (left : ℕ) → left_of p ≡ left → Lists m f left (q ∷ qs) last → Taken m p q qs last
    by_left zero e h = taken_link e h
    by_left (suc l) e h = taken_inside l e h

    -- An allocation takes the first page.
    pub take_first : Taken m p q qs last
    take_first = by_left (left_of p) refl s.lists
