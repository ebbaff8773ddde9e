-- ===== src/Pmm/Paging.antt =====
-- The machine as the allocator needs it, under stores to pages and under a new frame for
-- `curr_pages`.
use boot.Base.{ℕ, ◌*◌, ◌/◌, ◌^◌, ◌<◌, ◌≡◌, ◌≢◌, refl, sym, ◌∙◌, ap, ok, inl, bit_and, page_mask}
use boot.Vaddr.Translate.{IsRecursive-put_word}
use boot.Mmu.{Machine, put_word}
use boot.Vaddr.{pdi, pt_page_mask, pt_map}
use boot.Vaddr.Access.{IsRecursive, table_of}
use boot.Vaddr.Calls.{IsWords, slot, mapping, replaced, entry, pt_map-present}
use boot.Vaddr.Translate.{put_word-elsewhere}
use boot.Pmm.Stack.{
  IsStack, IsStack-elsewhere, IsStack-replaced, mapping_odd, mapping_page, mapping_low,
}
use boot.Pmm.Pool.{Clear, words_put}

module _ (at d t : ℕ) where
  -- `curr_pages` leads to the frame `g`, by a directory that leads to itself.
  pub record IsPaged (m : Machine) (g : ℕ) : Type 0 where
    pub words : IsWords m
    pub recursive : IsRecursive m
    pub stack : IsStack m at g
    pub is_dir : m.cr3 ≡ d
    pub is_table : table_of m (pdi at) ≡ t

  pub IsPaged-store :
      (m : Machine) (g q i v : ℕ)
      → Clear at d t q
      → v < 2 ^ 32
      → IsPaged m g
      → IsPaged (put_word m q i v) g
  IsPaged-store m g q i v c low s =
      let n1 : q ≢ m.cr3 = λ e. c.1 (e ∙ s.is_dir) in
      let n2 : q ≢ table_of m (pdi at) = λ e. c.2 (e ∙ s.is_table) in
      let ne : m.cr3 ≢ q = λ e. n1 (sym e) in
      record {
        words = words_put m q i v s.words low;
        recursive = IsRecursive-put_word q i v (inl ne) s.recursive;
        stack = IsStack-elsewhere q i v n1 n2 s.stack;
        is_dir = s.is_dir;
        is_table =
            ap (λ (e : ℕ). e / 2 ^ 12)
              (put_word-elsewhere m q i v m.cr3 m.cr3 (pdi at) refl (inl ne))
            ∙ s.is_table;
      }

  module _ (m : Machine) (g q : ℕ) (s : IsPaged m g) (c : Clear at d t q) where
    -- The machine when `curr_pages` was mapped to the frame `q`.
    abbrev pub mapped : Machine
    mapped = replaced m at (mapping (q * 2 ^ 12) 3) (at / 2 ^ 12 * 2 ^ 12)

    pub pt_map-mapped : pt_map (q * 2 ^ 12) at 3 m ≡ ok (entry m at, mapped)
    pt_map-mapped = pt_map-present s.recursive at s.stack.low (q * 2 ^ 12) 3 s.stack.is_present

    pub old_page : bit_and (entry m at) pt_page_mask ≡ g * 2 ^ 12
    old_page =
        page_mask (entry m at) (s.words (table_of m (pdi at)) (slot at))
        ∙ ap (λ h. h * 2 ^ 12) s.stack.leads

    pub IsPaged-mapped : IsPaged mapped q
    IsPaged-mapped =
        let n1 : q ≢ m.cr3 = λ h. c.1 (h ∙ s.is_dir) in
        let n2 : q ≢ table_of m (pdi at) = λ h. c.2 (h ∙ s.is_table) in
        let tn = table_of m (pdi at) in
        let v = mapping (q * 2 ^ 12) 3 in
        let w = IsRecursive-put_word tn (slot at) v (inl s.stack.dir_not_table) s.recursive in
        record {
          words = words_put m tn (slot at) v s.words (mapping_low q c.0);
          recursive = record {
            is_present = w.is_present;
            is_small = w.is_small;
            is_self = w.is_self;
          };
          stack =
              IsStack-replaced v q (at / 2 ^ 12 * 2 ^ 12) s.stack (mapping_odd q) (mapping_page q)
                n1 n2;
          is_dir = s.is_dir;
          is_table =
              ap (λ (h : ℕ). h / 2 ^ 12)
                (put_word-elsewhere m tn (slot at) v m.cr3 m.cr3 (pdi at) refl
                  (inl s.stack.dir_not_table))
              ∙ s.is_table;
        }
