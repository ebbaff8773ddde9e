-- ===== src/BootPages/Allocation.antt =====
-- Pages from the region in use: `palloc` goes down from its end.
use boot.Base.{
  ℕ, suc, ◌+◌, ◌-◌, ◌*◌, ◌^◌, ◌<◌, ◌≤◌, ◌≡◌, refl, arith, false, length, get_or, set, leb,
  length-set, get_or-set_self, load_in_range, lt→leb_false, ok, sub32, Bool-cases, inl, inr,
}
use boot.BootPages.{Pages, Region, palloc, shortened}

abbrev no_region : Region
no_region = record { base = 0; length = 0; type = 0; acpi = 0 }

-- The region in use has more than `n` pages below the frame `a`, with which the next ones end.
pub record HasPages (p : Pages) (n a : ℕ) : Type 0 where
  pub inside : p.entries_index < length p.e820
  pub top : p.entry_addr ≡ a * 2 ^ 12
  pub low : a ≤ 2 ^ 20 - 1
  pub room : (get_or p.e820 p.entries_index no_region).base + n * 2 ^ 12 < a * 2 ^ 12

-- The variables after a page was taken.
abbrev pub without : Pages → ℕ → Pages
without p a = record p {
  e820 = set p.e820 p.entries_index (shortened (get_or p.e820 p.entries_index no_region));
  entry_addr = a * 2 ^ 12;
}

shortened-base : (r : Region) → (shortened r).base ≡ r.base
shortened-base r = elim (Bool-cases (leb 0x1000 r.length)) [ inl e ↦ rw e refl | inr e ↦ rw e refl ]

module _ (p : Pages) (n a : ℕ) (h : HasPages p (suc n) (suc a)) where
  pub palloc-HasPages : palloc p ≡ ok (a * 2 ^ 12, without p a)
  unfolding palloc
  palloc-HasPages =
      let low = h.low in
      let room = h.room in
      let e : sub32 p.entry_addr 0x1000 ≡ a * 2 ^ 12 = omega (arith, h.top) in
      let r = get_or p.e820 p.entries_index no_region in
      let f : leb (a * 2 ^ 12) r.base ≡ false = lt→leb_false (a * 2 ^ 12) r.base (omega arith) in
      rw (load_in_range p.e820 p.entries_index no_region h.inside, e) (rw f refl)

  pub HasPages-without : HasPages (without p a) n a
  HasPages-without =
      let room = h.room in
      let low = h.low in
      let r = get_or p.e820 p.entries_index no_region in
      record {
        inside = omega (arith, h.inside, length-set p.e820 p.entries_index (shortened r));
        top = refl;
        low = omega arith;
        room =
            rw (get_or-set_self p.e820 p.entries_index (shortened r) no_region h.inside)
              (rw (shortened-base r) (omega arith));
      }
