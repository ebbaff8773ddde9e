-- ===== src/Pmm/Giving.antt =====
-- A free puts a page in front of the stack.
use boot.Base.{
  ℕ, suc, ◌*◌, ◌-◌, ◌/◌, ◌^◌, ◌≡◌, ◌≢◌, refl, sym, ◌∙◌, ap, arith, List, ◌∷◌, inl, ok, false,
  bit_and_low, ◌==◌,
}
use boot.Base.{Absent}
use boot.Vaddr.Translate.{IsRecursive-put_word}
use boot.Mmu.{Machine, put_word}
use boot.Vaddr.{pdi}
use boot.Vaddr.Access.{table_of}
use boot.Vaddr.Calls.{slot, mapping}
use boot.Vaddr.Translate.{put_word-elsewhere, put_word-here}
use boot.Pmm.{Pmm, pmm_free_ppage}
use boot.Pmm.Stack.{mapping_low}
use boot.Pmm.Listed.{Lists-elsewhere}
use boot.Pmm.Reuse.{
  given, place, free_inside, free_linked, linked, moved, IsStack-linked, IsRecursive-linked,
  same_dir,
}
use boot.Pmm.Pool.{left_of, IsPool, words_put, frame-Clear, Clear}
use boot.Base.{length, ◌+◌, ◌<◌, Bool-cases, sub32, true, inr}
use boot.Pmm.Stack.{IsStack-elsewhere}
use boot.Pmm.Taking.{Absent-table}
use boot.Pmm.Listed.{Lists-before}

module _ (at d t : ℕ) where
  -- What a free does.
  pub record Freed (m : Machine) (p : Pmm) (q : ℕ) (qs : List ℕ) (last : ℕ) : Type 0 where
    pub after : Machine
    pub frame : ℕ
    pub runs : pmm_free_ppage at (q * 2 ^ 12) p m ≡ ok (given p, after)
    pub pool : IsPool at d t after frame (given p) (q ∷ qs) last

  module _ (m : Machine) (f : ℕ) (p : Pmm) (q : ℕ) (qs : List ℕ) (last : ℕ)
      (s : IsPool at d t m f p qs last) (c : Clear at d t q) (a : Absent q (last ∷ qs))
      (few : length qs + 1 < 2 ^ 32) where
    few_free : p.pfree + 1 < 2 ^ 32
    few_free = omega (arith, s.counted)

    Freed-inside : (place p == 1023) ≡ false → Freed m p q qs last
    Freed-inside e =
        let i = bit_and_low 10 (sub32 p.pidx 1) in
        let ne : place p ≢ 1023 = ground arith in
        let low = s.low in
        let fc = frame-Clear at d t m f (left_of p) qs last s.clear s.lists in
        let n1 : f ≢ m.cr3 = s.stack.not_dir in
        let w : q * 2 ^ 12 < 2 ^ 32 = omega (arith, c.0) in
        let e1 : left_of (given p) ≡ suc (left_of p) = omega arith in
        let e2 : place p ≡ 1022 - left_of p = omega arith in
        let e3 : place p + left_of p < 1023 = omega arith in
        record {
          after = put_word m f (place p) (q * 2 ^ 12);
          frame = f;
          runs = free_inside at f q p s.recursive s.stack few_free s.low e;
          pool = record {
            words = words_put m f (place p) (q * 2 ^ 12) s.words w;
            recursive =
                IsRecursive-put_word f (place p) (q * 2 ^ 12) (inl (λ h. n1 (sym h))) s.recursive;
            stack = IsStack-elsewhere f (place p) (q * 2 ^ 12) n1 s.stack.not_table s.stack;
            is_dir = s.is_dir;
            is_table =
                ap (λ (h : ℕ). h / 2 ^ 12)
                  (put_word-elsewhere m f (place p) (q * 2 ^ 12) m.cr3 m.cr3 (pdi at) refl
                    (inl (λ h. n1 (sym h))))
                ∙ s.is_table;
            counted = omega (arith, s.counted);
            low = omega arith;
            distinct = ((λ h. a.0 (sym h), s.distinct.0), (a.1, s.distinct.1));
            clear = (s.clear.0, (c, s.clear.1));
            lists = rw e1 (
              put_word-here m f (place p) (q * 2 ^ 12) f (1022 - left_of p) refl (sym e2),
              Lists-before m f (place p) (q * 2 ^ 12) (left_of p) qs last e3 (omega arith)
                  s.distinct s.lists,
            );
          };
        }

    Freed-link : (place p == 1023) ≡ true → Freed m p q qs last
    Freed-link e =
        let i = bit_and_low 10 (sub32 p.pidx 1) in
        let eq : place p ≡ 1023 = ground arith in
        let low = s.low in
        let n1 : q ≢ m.cr3 = λ h. c.1 (h ∙ s.is_dir) in
        let n2 : q ≢ table_of m (pdi at) = λ h. c.2 (h ∙ s.is_table) in
        let fc = frame-Clear at d t m f (left_of p) qs last s.clear s.lists in
        let e1 : left_of (given p) ≡ 0 = omega arith in
        let e2 : left_of p ≡ 1023 = omega arith in
        let tn = table_of m (pdi at) in
        let v = mapping (q * 2 ^ 12) 3 in
        let m1 = moved at f q p s.recursive s.stack few_free s.low e s.words c.0 n1 n2 in
        let m2 = linked at f q p s.recursive s.stack few_free s.low e s.words c.0 n1 n2 in
        record {
          after = m2;
          frame = q;
          runs = free_linked at f q p s.recursive s.stack few_free s.low e s.words c.0 n1 n2;
          pool = record {
            words =
                words_put m1 q 1023 (f * 2 ^ 12)
                  (words_put m tn (slot at) v s.words (mapping_low q c.0)) (omega (arith, fc.0));
            recursive =
                IsRecursive-linked at f q p s.recursive s.stack few_free s.low e s.words c.0 n1 n2;
            stack = IsStack-linked at f q p s.recursive s.stack few_free s.low e s.words c.0 n1 n2;
            is_dir = s.is_dir;
            is_table =
                ap (λ (h : ℕ). h / 2 ^ 12)
                  (same_dir at f q p s.recursive s.stack few_free s.low e s.words c.0 n1 n2)
                ∙ s.is_table;
            counted = omega (arith, s.counted);
            low = omega arith;
            distinct = ((λ h. a.0 (sym h), s.distinct.0), (a.1, s.distinct.1));
            clear = (s.clear.0, (c, s.clear.1));
            lists = rw e1 (
              f,
              refl,
              put_word-here m1 q 1023 (f * 2 ^ 12) q 1023 refl refl,
              Lists-elsewhere m1 f q 1023 (f * 2 ^ 12) 1023 qs last a.0 a.1 (
                  Lists-elsewhere m f tn (slot at) v 1023 qs last
                    (λ h. s.clear.0.2 (sym h ∙ s.is_table))
                    (Absent-table at d t qs s.clear.1 tn s.is_table) (rw e2 at s.lists)),
            );
          };
        }

    -- A free puts the page in front.
    pub give_back : Freed m p q qs last
    give_back = elim (Bool-cases (place p == 1023)) [
      | inl e ↦ Freed-link e
      | inr e ↦ Freed-inside e
    ]
