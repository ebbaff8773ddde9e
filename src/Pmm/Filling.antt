-- ===== src/Pmm/Filling.antt =====
-- The inner loop of `pmm_init`, a page at a time.
use boot.Base.{
  ℕ, suc, ◌+◌, ◌*◌, ◌-◌, ◌%◌, ◌^◌, ◌≤◌, ◌<◌, ◌≡◌, ◌≢◌, refl, arith, List, [], ◌∷◌, ◌++◌, inl, inr,
  true, false, Bool-cases, bit_and, bit_and_low, add32, ◌==◌, length, ltb, count, count-append,
  length-append, Absent, Absent-of_count,
}
use boot.Mmu.{Machine, put_word}
use boot.Vaddr.{pdi}
use boot.Vaddr.Access.{table_of}
use boot.Vaddr.Calls.{slot, mapping}
use boot.Pmm.{Pmm, fill_region}
use boot.Pmm.Stack.{vstore_stack}
use boot.Pmm.Listed.{Lists, Lists-elsewhere}
use boot.Pmm.Extended.{Lists-inside, Lists-link}
use boot.Pmm.Pool.{AllClear, AllClear-append}
use boot.Pmm.Taking.{Absent-table}
use boot.Pmm.Paging.{IsPaged, IsPaged-store, IsPaged-mapped, pt_map-mapped, mapped}

-- The variables when the pages `qs` were counted.
abbrev pub counting : Pmm → List ℕ → Pmm
counting p qs = record p { pcount = length qs }

-- `f` is the frame that `curr_pages` leads to at first.
module _ (at d t f : ℕ) where
  -- The pages `qs` were stored, `g` is the frame in use, and `pending` are to come.
  pub record IsFilling (m : Machine) (g : ℕ) (qs pending : List ℕ) : Type 0 where
    pub paged : IsPaged at d t m g
    pub fits : length qs + length pending < 2 ^ 32 - 1
    pub once : (x : ℕ) → count x (g ∷ qs) + count x pending ≤ 1
    pub clear : AllClear at d t (g ∷ qs)
    pub pending_clear : AllClear at d t pending
    pub lists : Lists m f 1023 qs g

  -- A round of the loop.
  pub record Round (p : Pmm) (m : Machine) (g : ℕ) (qs : List ℕ) (a : ℕ) (pending : List ℕ)
      : Type 0 where
    pub after : Machine
    pub frame : ℕ
    pub pages : List ℕ
    pub runs :
        (fuel end : ℕ)
        → ltb (a * 2 ^ 12) end ≡ true
        → fill_region (suc fuel) at end (a * 2 ^ 12) (counting p qs) m
          ≡ fill_region fuel at end (add32 (a * 2 ^ 12) 0x1000) (counting p pages) after
    pub filling : IsFilling after frame pages pending
    pub split : (x : ℕ) → count x (frame ∷ pages) ≡ count x (g ∷ qs) + count x (a ∷ [])

  module _ (p : Pmm) (m : Machine) (g : ℕ) (qs : List ℕ) (a : ℕ) (pending : List ℕ)
      (s : IsFilling m g qs (a ∷ pending)) where
    abbrev place : ℕ
    place = length qs % 1024

    masked : bit_and (length qs) 1023 ≡ place
    masked = bit_and_low 10 (length qs)

    abbrev grown : ℕ → List ℕ
    grown x = qs ++ x ∷ []

    more : (x : ℕ) → length (grown x) ≡ add32 (length qs) 1
    more x = let fits = s.fits in omega (arith, length-append qs (x ∷ []))

    Absent-last : Absent g qs
    Absent-last = Absent-of_count g qs (ground (arith, s.once g))

    Round-inside : (place == 1023) ≡ false → Round p m g qs a pending
    unfolding fill_region
    Round-inside e =
        let ne : place ≢ 1023 = ground arith in
        let lt : place < 1023 = omega arith in
        let n = more a in
        let c = s.pending_clear.0 in
        record {
          after = put_word m g place (a * 2 ^ 12);
          frame = g;
          pages = grown a;
          runs = λ fuel end h.
              rw (h, masked, vstore_stack s.paged.stack place (omega arith) (a * 2 ^ 12))
                (rw (e, n) refl);
          filling = record {
            paged =
                IsPaged-store at d t m g g place (a * 2 ^ 12) s.clear.0 (omega (arith, c.0))
                  s.paged;
            fits = omega (arith, s.fits, length-append qs (a ∷ []));
            once = λ x. omega (arith, s.once x, count-append x qs (a ∷ []));
            clear = (s.clear.0, AllClear-append at d t qs (a ∷ []) s.clear.1 (c, tt));
            pending_clear = s.pending_clear.1;
            lists =
                Lists-inside m f 1023 qs g place a (omega arith) (omega arith) lt Absent-last
                  s.lists;
          };
          split = λ x. omega (arith, count-append x qs (a ∷ []));
        }

    Round-link : (place == 1023) ≡ true → Round p m g qs a pending
    unfolding fill_region
    Round-link e =
        let eq : place ≡ 1023 = ground arith in
        let n = more g in
        let c = s.pending_clear.0 in
        let m1 = put_word m g 1023 (a * 2 ^ 12) in
        let paged =
          IsPaged-store at d t m g g 1023 (a * 2 ^ 12) s.clear.0 (omega (arith, c.0)) s.paged in
        let tn = table_of m1 (pdi at) in
        let clear : AllClear at d t (a ∷ grown g) =
          (c, AllClear-append at d t qs (g ∷ []) s.clear.1 (s.clear.0, tt)) in
        let away = Absent-table at d t (a ∷ grown g) clear tn paged.is_table in
        record {
          after = mapped at d t m1 g a paged c;
          frame = a;
          pages = grown g;
          runs = λ fuel end h.
              rw (h, masked, eq, vstore_stack s.paged.stack 1023 (omega arith) (a * 2 ^ 12))
                (rw (pt_map-mapped at d t m1 g a paged c, n) refl);
          filling = record {
            paged = IsPaged-mapped at d t m1 g a paged c;
            fits = omega (arith, s.fits, length-append qs (g ∷ []));
            once = λ x. omega (arith, s.once x, count-append x qs (g ∷ []));
            clear = clear;
            pending_clear = s.pending_clear.1;
            lists =
                Lists-elsewhere m1 f tn (slot at) (mapping (a * 2 ^ 12) 3) 1023 (grown g) a away.0
                  away.1
                  (Lists-link m f 1023 qs g a (omega arith) (omega arith) Absent-last s.lists);
          };
          split = λ x. omega (arith, count-append x qs (g ∷ []));
        }

    pub round : Round p m g qs a pending
    round = elim (Bool-cases (place == 1023)) [ inl e ↦ Round-link e | inr e ↦ Round-inside e ]
