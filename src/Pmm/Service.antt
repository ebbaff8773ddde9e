-- ===== src/Pmm/Service.antt =====
-- What the runs of a client keep, and what the allocator does for it at any point of a run.
use boot.Base.{
  ℕ, ◌+◌, ◌*◌, ◌^◌, ◌≤◌, ◌<◌, ◌≡◌, ◌≢◌, refl, sym, ◌∙◌, arith, List, [], ◌∷◌, ok, count, erase,
  length, Absent, Distinct, Absent-of_count, Absent-count, Distinct-count, count-erase,
  length-erase, ◌==◌,
}
use boot.Mmu.{Machine}
use boot.Pmm.{Pmm, pmm_alloc_ppage, pmm_free_ppage}
use boot.Pmm.Reuse.{given}
use boot.Pmm.Pool.{popped, Clear, AllClear, IsPool, IsPool-elsewhere}
use boot.Pmm.Taking.{take_first, alloc_empty}
use boot.Pmm.Giving.{give_back}
use boot.Pmm.Runs.{Client, Step, Reach, here, next, alloc, next, free, write}
use boot.Base.{Bool-cases, inl, inr}

count-AllClear : (at d t q : ℕ) (qs : List ℕ) → AllClear at d t qs → count q qs ≢ 0 → Clear at d t q
count-AllClear at d t q [] c h = absurd (h refl)
count-AllClear at d t q (x ∷ xs) c h = elim (Bool-cases (x == q)) [
  | inl e ↦ let eq : q ≡ x = ground arith in rw eq c.0
  | inr e ↦ count-AllClear at d t q xs c.1 (ground arith)
]

-- `qs` are the pages that are free at first. Each of them is held by the client or free, and only
-- once, and the free ones are those that the allocator's frames list.
pub record IsStocked (at d t : ℕ) (qs : List ℕ) (last : ℕ) (c : Client) : Type 0 where
  pub free_pages : List ℕ
  pub frame : ℕ
  pub pool : IsPool at d t c.machine frame c.pmm free_pages last
  pub split : (x : ℕ) → count x c.live + count x free_pages ≡ count x qs
  pub sized : length c.live + length free_pages ≡ length qs

-- What the allocator does for a client that began with the free pages `qs`.
pub record Serves (at d t : ℕ) (qs : List ℕ) (c : Client) : Type 0 where
  pub conserved : c.pmm.pfree + length c.live ≡ length qs
  pub once : (q : ℕ) → count q c.live ≤ 1
  pub held : (q : ℕ) → count q c.live ≢ 0 → (count q qs ≢ 0) × Clear at d t q
  pub refuses :
      c.pmm.pfree ≡ 0 → pmm_alloc_ppage at c.pmm c.machine ≡ ok ((0xFFFF_FFFF, c.pmm), c.machine)
  pub gives :
      c.pmm.pfree ≢ 0
      → (q : ℕ) × (m' : Machine) × (pmm_alloc_ppage at c.pmm c.machine
          ≡ ok ((q * 2 ^ 12, popped c.pmm), m'))
        × (count q qs ≢ 0)
        × (count q c.live ≡ 0)
  pub takes :
      (q : ℕ)
      → count q c.live ≢ 0
      → (m' : Machine) × (pmm_free_ppage at (q * 2 ^ 12) c.pmm c.machine ≡ ok (given c.pmm, m'))

module _ (at d t : ℕ) (qs : List ℕ) (last : ℕ) (distinct : Distinct (last ∷ qs))
    (clear : AllClear at d t (last ∷ qs)) (few : length qs < 2 ^ 32) where
  -- A page of the client is clear, and no page of the pool.
  held-Clear : (q : ℕ) → count q qs ≢ 0 → Clear at d t q
  held-Clear q h = count-AllClear at d t q qs clear.1 h

  held-Absent : (q : ℕ) (xs : List ℕ) → count q qs ≢ 0 → count q xs ≡ 0 → Absent q (last ∷ xs)
  held-Absent q xs h z = (λ e. h (rw e (Absent-count last qs distinct.0)), Absent-of_count q xs z)

  IsStocked-alloc :
      (m m' : Machine) (p p' : Pmm) (live : List ℕ) (q f : ℕ) (xs : List ℕ)
      → p.pfree ≢ 0
      → pmm_alloc_ppage at p m ≡ ok ((q * 2 ^ 12, p'), m')
      → IsPool at d t m f p xs last
      → ((x : ℕ) → count x live + count x xs ≡ count x qs)
      → length live + length xs ≡ length qs
      → IsStocked at d t qs last (record { machine = m'; pmm = p'; live = q ∷ live })
  IsStocked-alloc m m' p p' live q f [] some_free runs s split sized = absurd (some_free s.counted)
  IsStocked-alloc m m' p p' live q f (x ∷ xs) some_free runs s split sized =
      let w = take_first at d t m f p x xs last s in
      let e = sym runs ∙ w.runs in
      let e0 : q * 2 ^ 12 ≡ x * 2 ^ 12 = cc in
      let e1 : p' ≡ popped p = cc in
      let e2 : m' ≡ w.after = cc in
      let e3 : q ≡ x = omega arith in
      record {
        free_pages = xs;
        frame = w.frame;
        pool = rw (e1, e2) w.pool;
        split = λ y. rw e3 (omega (arith, split y));
        sized = omega arith;
      }

  IsStocked-free :
      (m m' : Machine) (p p' : Pmm) (live : List ℕ) (q f : ℕ) (xs : List ℕ)
      → count q live ≢ 0
      → pmm_free_ppage at (q * 2 ^ 12) p m ≡ ok (p', m')
      → IsPool at d t m f p xs last
      → ((x : ℕ) → count x live + count x xs ≡ count x qs)
      → length live + length xs ≡ length qs
      → IsStocked at d t qs last (record { machine = m'; pmm = p'; live = erase q live })
  IsStocked-free m m' p p' live q f xs held runs s split sized =
      let only : count q qs ≤ 1 = Distinct-count q qs distinct.1 in
      let mine : count q qs ≢ 0 = omega (arith, split q) in
      let shorter = length-erase q live held in
      let w =
        give_back at d t m f p q xs last s (held-Clear q mine)
          (held-Absent q xs mine (omega (arith, split q))) (omega arith) in
      let e = sym runs ∙ w.runs in
      let e1 : p' ≡ given p = cc in
      let e2 : m' ≡ w.after = cc in
      record {
        free_pages = q ∷ xs;
        frame = w.frame;
        pool = rw (e1, e2) w.pool;
        split = λ y. omega (arith, split y, count-erase q y live held);
        sized = omega arith;
      }

  Step-IsStocked :
      {c c' : Client} → Step at c c' → IsStocked at d t qs last c → IsStocked at d t qs last c'
  Step-IsStocked (alloc {m} {m'} {p} {p'} {live} q some_free runs) s =
      IsStocked-alloc m m' p p' live q s.frame s.free_pages some_free runs s.pool s.split s.sized
  Step-IsStocked (free {m} {m'} {p} {p'} {live} q held runs) s =
      IsStocked-free m m' p p' live q s.frame s.free_pages held runs s.pool s.split s.sized
  Step-IsStocked (write {m} {p} {live} q i v held low) s =
      let only : count q qs ≤ 1 = Distinct-count q qs distinct.1 in
      let mine : count q qs ≢ 0 = omega (arith, s.split q) in
      record {
        free_pages = s.free_pages;
        frame = s.frame;
        pool =
            IsPool-elsewhere at d t q i v (held-Clear q mine)
              (held-Absent q s.free_pages mine (omega (arith, s.split q))) low s.pool;
        split = s.split;
        sized = s.sized;
      }

  refuses_lem :
      {m : Machine} {f : ℕ} {p : Pmm} (xs : List ℕ)
      → IsPool at d t m f p xs last
      → p.pfree ≡ 0
      → pmm_alloc_ppage at p m ≡ ok ((0xFFFF_FFFF, p), m)
  refuses_lem [] s z = alloc_empty at d t s
  refuses_lem (x ∷ xs) s z = absurd (omega (arith, s.counted, z))

  gives_lem :
      {m : Machine} {f : ℕ} {p : Pmm} (live xs : List ℕ)
      → IsPool at d t m f p xs last
      → ((x : ℕ) → count x live + count x xs ≡ count x qs)
      → p.pfree ≢ 0
      → (q : ℕ) × (m' : Machine) × (pmm_alloc_ppage at p m ≡ ok ((q * 2 ^ 12, popped p), m'))
        × (count q qs ≢ 0)
        × (count q live ≡ 0)
  gives_lem live [] s split nz = absurd (nz s.counted)
  gives_lem {m} {f} {p} live (x ∷ xs) s split nz =
      let w = take_first at d t m f p x xs last s in
      let only : count x qs ≤ 1 = Distinct-count x qs distinct.1 in
      let first : 1 ≤ count x (x ∷ xs) = ground arith in
      (x, w.after, w.runs, omega (arith, split x), omega (arith, split x))

  serves : (c : Client) → IsStocked at d t qs last c → Serves at d t qs c
  serves c s = record {
    conserved = omega (arith, s.pool.counted, s.sized);
    once = λ q. omega (arith, s.split q, Distinct-count q qs distinct.1);
    held = λ q h. let mine : count q qs ≢ 0 = omega (arith, s.split q) in (mine, held-Clear q mine);
    refuses = refuses_lem s.free_pages s.pool;
    gives = gives_lem c.live s.free_pages s.pool s.split;
    takes = λ q h.
        let only : count q qs ≤ 1 = Distinct-count q qs distinct.1 in
        let mine : count q qs ≢ 0 = omega (arith, s.split q) in
        let shorter = length-erase q c.live h in
        let w =
          give_back at d t c.machine s.frame c.pmm q s.free_pages last s.pool (held-Clear q mine)
            (held-Absent q s.free_pages mine (omega (arith, s.split q))) (omega (arith, s.sized)) in
        (w.after, w.runs);
  }

-- From a stack of fewer than 2 ^ 32 free pages on, and in every run of allocations, writes to pages
-- that the client holds and frees of such pages: each of the free pages is held by the client or
-- free, and only once, and the free ones are those that the allocator's frames list, in the order
-- in which they will be handed out.
pub Reach-IsStocked :
    {at d t : ℕ} {m : Machine} {f : ℕ} {p : Pmm} {qs : List ℕ} {last : ℕ} {c : Client}
    → IsPool at d t m f p qs last
    → length qs < 2 ^ 32
    → Reach at (record { machine = m; pmm = p; live = [] }) c
    → IsStocked at d t qs last c
Reach-IsStocked {f = f} {qs = qs} start few here = record {
  free_pages = qs;
  frame = f;
  pool = start;
  split = λ x. omega arith;
  sized = omega arith;
}
Reach-IsStocked {at} {d} {t} {qs = qs} {last = last} start few (next r st) =
    Step-IsStocked at d t qs last start.distinct start.clear few st (Reach-IsStocked start few r)

-- From a stack of fewer than 2 ^ 32 free pages on, and at any point of any such run: the pages that
-- the client holds and the count of free pages add up to the number of pages; no page is held
-- twice, and none is the page directory or the page table for `curr_pages`. While the count is not
-- 0, an allocation returns one of the pages that the client does not hold; when it is 0, an
-- allocation returns 0xFFFFFFFF and changes nothing. A free of a page that is held returns.
pub Reach-Serves :
    {at d t : ℕ} {m : Machine} {f : ℕ} {p : Pmm} {qs : List ℕ} {last : ℕ} {c : Client}
    → IsPool at d t m f p qs last
    → length qs < 2 ^ 32
    → Reach at (record { machine = m; pmm = p; live = [] }) c
    → Serves at d t qs c
Reach-Serves {at} {d} {t} {qs = qs} {last = last} {c = c} start few r =
    serves at d t qs last start.distinct start.clear few c (Reach-IsStocked start few r)
