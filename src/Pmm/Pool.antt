-- ===== src/Pmm/Pool.antt =====
-- The physical pages as a stack: what an allocation takes and what a free puts back, for frames of
-- any number behind one another.
use boot.Base.{
  ℕ, zero, suc, ◌-◌, ◌/◌, ◌%◌, ◌^◌, ◌<◌, ◌≡◌, ◌≢◌, refl, sym, ◌∙◌, ap, arith, List, [], ◌∷◌, inl,
  add32, length,
}
use boot.Base.{Absent, Distinct, ◌++◌}
use boot.Vaddr.Translate.{IsRecursive-put_word}
use boot.Mmu.{Machine, put_word}
use boot.Vaddr.{pdi}
use boot.Vaddr.Access.{IsRecursive, table_of}
use boot.Vaddr.Calls.{IsWords}
use boot.Vaddr.Translate.{put_word-elsewhere}
use boot.Pmm.{Pmm}
use boot.Pmm.Stack.{IsStack, IsStack-elsewhere}
use boot.Pmm.Listed.{Lists, Lists-elsewhere}
use boot.Pmm.Reuse.{}

-- The counters after a page was taken.
abbrev pub popped : Pmm → Pmm
popped p = record p { pidx = add32 p.pidx 1; pfree = p.pfree - 1 }

-- The places of the frame in use that come before its link.
abbrev pub left_of : Pmm → ℕ
left_of p = 1023 - p.pidx % 1024

pub words_put : (m : Machine) (g i v : ℕ) → IsWords m → v < 2 ^ 32 → IsWords (put_word m g i v)
words_put m g i v words h f j = ground (arith, words f j)

-- `at` is the address of `curr_pages`, `d` the frame of the directory, and `t` that of the page table
-- for `at`.
module _ (at d t : ℕ) where
  -- A page of the machine that is neither of the two.
  abbrev pub Clear : ℕ → Type 0
  Clear q = (q < 2 ^ 20) × (q ≢ d) × (q ≢ t)

  abbrev pub AllClear : List ℕ → Type 0
  AllClear [] = Unit
  AllClear (q ∷ qs) = Clear q × AllClear qs

  pub AllClear-append : (xs ys : List ℕ) → AllClear xs → AllClear ys → AllClear (xs ++ ys)
  AllClear-append [] ys h k = k
  AllClear-append (x ∷ xs) ys h k = (h.0, AllClear-append xs ys h.1 k)

  -- The pages `qs` are free, in the order in which they will be handed out, and `last` is the frame
  -- that is in use then; `f` is the frame in use now.
  pub record IsPool (m : Machine) (f : ℕ) (p : Pmm) (qs : List ℕ) (last : ℕ) : Type 0 where
    pub words : IsWords m
    pub recursive : IsRecursive m
    pub stack : IsStack m at f
    pub is_dir : m.cr3 ≡ d
    pub is_table : table_of m (pdi at) ≡ t
    pub counted : p.pfree ≡ length qs
    pub low : p.pidx < 2 ^ 32
    pub distinct : Distinct (last ∷ qs)
    pub clear : AllClear (last ∷ qs)
    pub lists : Lists m f (left_of p) qs last

  -- The frame in use is one of the pages, or the last frame: it is clear.
  pub frame-Clear :
      (m : Machine) (f left : ℕ) (qs : List ℕ) (last : ℕ)
      → AllClear (last ∷ qs)
      → Lists m f left qs last
      → Clear f
  frame-Clear m f left [] last c e = rw e c.0
  frame-Clear m f zero (q ∷ qs) last c (g, e, link, rest) = rw e c.1.0
  frame-Clear m f (suc left) (q ∷ qs) last c (word, rest) =
      frame-Clear m f left qs last (c.0, c.1.1) rest

  -- What a store to another frame leaves, which may hold the client's data.
  pub IsPool-elsewhere :
      {m : Machine} {f : ℕ} {p : Pmm} {qs : List ℕ} {last : ℕ} (q i v : ℕ)
      → Clear q
      → Absent q (last ∷ qs)
      → v < 2 ^ 32
      → IsPool m f p qs last
      → IsPool (put_word m q i v) f p qs last
  IsPool-elsewhere {m} {f} {p} {qs} {last} q i v c a h s =
      let n1 : q ≢ m.cr3 = λ e. c.1 (e ∙ s.is_dir) in
      let n2 : q ≢ table_of m (pdi at) = λ e. c.2 (e ∙ s.is_table) in
      record {
        words = words_put m q i v s.words h;
        recursive = IsRecursive-put_word q i v (inl (λ e. n1 (sym e))) s.recursive;
        stack = IsStack-elsewhere q i v n1 n2 s.stack;
        is_dir = s.is_dir;
        is_table =
            ap (λ (e : ℕ). e / 2 ^ 12)
              (put_word-elsewhere m q i v m.cr3 m.cr3 (pdi at) refl (inl (λ e. n1 (sym e))))
            ∙ s.is_table;
        counted = s.counted;
        low = s.low;
        distinct = s.distinct;
        clear = s.clear;
        lists = Lists-elsewhere m f q i v (left_of p) qs last a.0 a.1 s.lists;
      }
