-- ===== src/Pmm/Stack.antt =====
-- The accesses to `curr_pages`, in terms of the frame that it leads to.
use boot.Base.{ℕ, ◌+◌, ◌*◌, ◌/◌, ◌%◌, ◌^◌, ◌<◌, ◌≡◌, ◌≢◌, refl, arith, ok, some, inl, sym, ◌∙◌}
use boot.Mmu.{Machine, walk, vload, vstore, put_word}
use boot.Vaddr.{pdi}
use boot.Vaddr.Access.{table_of, pde_of}
use boot.Vaddr.Calls.{dir_entry, entry, slot, replaced, mapping}
use boot.Vaddr.Mapping.{mapping_lem}
use boot.Vaddr.Translate.{walk_small, put_word-elsewhere, put_word-here}
use boot.Pmm.{page_at}

-- `at` is the address of a page that leads to the frame `frame`, which is neither the directory
-- nor the page table on its way.
pub record IsStack (m : Machine) (at frame : ℕ) : Type 0 where
  pub low : at < 2 ^ 32
  pub aligned : at % 2 ^ 12 ≡ 0
  pub is_present : dir_entry m at % 2 ≡ 1
  pub is_small : dir_entry m at / 2 ^ 7 % 2 ≡ 0
  pub entry_present : entry m at % 2 ≡ 1
  pub leads : entry m at / 2 ^ 12 ≡ frame
  pub not_dir : frame ≢ m.cr3
  pub dir_not_table : m.cr3 ≢ table_of m (pdi at)
  pub not_table : frame ≢ table_of m (pdi at)

module _ {m : Machine} {at frame : ℕ} (s : IsStack m at frame) (i : ℕ) (h : i < 1024) where
  walk_stack : walk m (page_at at i) ≡ some (frame, 4 * i)
  walk_stack =
      let low = s.low in
      let aligned = s.aligned in
      let e1 : (at + 4 * i) / 2 ^ 22 ≡ at / 2 ^ 22 = omega arith in
      let e2 : (at + 4 * i) / 2 ^ 12 % 2 ^ 10 ≡ at / 2 ^ 12 % 2 ^ 10 = omega arith in
      let e3 : (at + 4 * i) % 2 ^ 12 ≡ 4 * i = omega arith in
      let en : m.frames (m.frames m.cr3 ((at + 4 * i) / 2 ^ 22) / 2 ^ 12)
            ((at + 4 * i) / 2 ^ 12 % 2 ^ 10)
          ≡ entry m at =
        rw (e1, e2) refl in
      let p : dir_entry m (page_at at i) % 2 ≡ 1 = rw e1 s.is_present in
      let q : dir_entry m (page_at at i) / 2 ^ 7 % 2 ≡ 0 = rw e1 s.is_small in
      walk_small m (page_at at i) (omega arith) p q ∙ rw (en, e3, s.entry_present, s.leads) refl

  pub vload_stack : vload (page_at at i) m ≡ ok (m.frames frame i, m)
  unfolding vload
  vload_stack = let e : 4 * i / 4 ≡ i = omega arith in rw (walk_stack, vload) (rw e refl)

  pub vstore_stack : (v : ℕ) → vstore (page_at at i) v m ≡ ok (tt, put_word m frame i v)
  unfolding vstore
  vstore_stack v = let e : 4 * i / 4 ≡ i = omega arith in rw (walk_stack, vstore) (rw e refl)

-- The entry that `pt_map` writes for a frame.
pub mapping_odd : (f : ℕ) → mapping (f * 2 ^ 12) 3 % 2 ≡ 1
mapping_odd f = omega (arith, mapping_lem f 3)

pub mapping_page : (f : ℕ) → mapping (f * 2 ^ 12) 3 / 2 ^ 12 ≡ f
mapping_page f = omega (arith, mapping_lem f 3)

pub mapping_low : (f : ℕ) → f < 2 ^ 20 → mapping (f * 2 ^ 12) 3 < 2 ^ 32
mapping_low f h = omega (arith, mapping_lem f 3)

-- A store to a frame that is neither the directory nor the page table leaves the stack in use.
pub IsStack-elsewhere :
    {m : Machine} {at frame : ℕ} (g i v : ℕ)
    → g ≢ m.cr3
    → g ≢ table_of m (pdi at)
    → IsStack m at frame
    → IsStack (put_word m g i v) at frame
IsStack-elsewhere {m} {at} {frame} g i v n1 n2 s =
    let dir : pde_of (put_word m g i v) (pdi at) ≡ pde_of m (pdi at) =
      put_word-elsewhere m g i v m.cr3 m.cr3 (pdi at) refl (inl (λ q. n1 (sym q))) in
    let pte : entry (put_word m g i v) at ≡ entry m at =
      put_word-elsewhere m g i v (table_of m (pdi at)) (table_of (put_word m g i v) (pdi at))
        (slot at) (rw dir refl) (inl (λ q. n2 (sym q))) in
    record {
      low = s.low;
      aligned = s.aligned;
      is_present = rw dir s.is_present;
      is_small = rw dir s.is_small;
      entry_present = rw pte s.entry_present;
      leads = rw pte s.leads;
      not_dir = s.not_dir;
      dir_not_table = rw dir s.dir_not_table;
      not_table = rw dir s.not_table;
    }

-- With another entry for it, the page leads to another frame.
pub IsStack-replaced :
    {m : Machine} {at frame : ℕ} (v q flush : ℕ)
    → IsStack m at frame
    → v % 2 ≡ 1
    → v / 2 ^ 12 ≡ q
    → q ≢ m.cr3
    → q ≢ table_of m (pdi at)
    → IsStack (replaced m at v flush) at q
IsStack-replaced {m} {at} {frame} v q flush s odd page n1 n2 =
    let t = table_of m (pdi at) in
    let dir : pde_of (replaced m at v flush) (pdi at) ≡ pde_of m (pdi at) =
      put_word-elsewhere m t (slot at) v m.cr3 m.cr3 (pdi at) refl (inl s.dir_not_table) in
    let pte : entry (replaced m at v flush) at ≡ v =
      put_word-here m t (slot at) v (table_of (replaced m at v flush) (pdi at)) (slot at)
        (rw dir refl) refl in
    record {
      low = s.low;
      aligned = s.aligned;
      is_present = rw dir s.is_present;
      is_small = rw dir s.is_small;
      entry_present = rw pte odd;
      leads = rw pte page;
      not_dir = n1;
      dir_not_table = rw dir s.dir_not_table;
      not_table = rw dir n2;
    }
