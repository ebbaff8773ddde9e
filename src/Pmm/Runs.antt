-- ===== src/Pmm/Runs.antt =====
-- A client of the physical pages: it allocates, writes to the words of its pages, and gives pages
-- back, in any order. `live` are the pages that it holds.
use boot.Base.{ℕ, ◌*◌, ◌^◌, ◌<◌, ◌≡◌, ◌≢◌, List, ◌∷◌, ok, count, erase}
use boot.Mmu.{Machine, put_word}
use boot.Pmm.{Pmm, pmm_alloc_ppage, pmm_free_ppage}

pub record Client : Type 0 where
  pub machine : Machine
  pub pmm : Pmm
  pub live : List ℕ

module _ (at : ℕ) where
  pub data Step : Client → Client → Type 0 where
    alloc :
        {m m' : Machine} {p p' : Pmm} {live : List ℕ} (q : ℕ)
        → p.pfree ≢ 0
        → pmm_alloc_ppage at p m ≡ ok ((q * 2 ^ 12, p'), m')
        → Step
            (record { machine = m; pmm = p; live = live })
            (record { machine = m'; pmm = p'; live = q ∷ live })
    free :
        {m m' : Machine} {p p' : Pmm} {live : List ℕ} (q : ℕ)
        → count q live ≢ 0
        → pmm_free_ppage at (q * 2 ^ 12) p m ≡ ok (p', m')
        → Step
            (record { machine = m; pmm = p; live = live })
            (record { machine = m'; pmm = p'; live = erase q live })
    write :
        {m : Machine} {p : Pmm} {live : List ℕ} (q i v : ℕ)
        → count q live ≢ 0
        → v < 2 ^ 32
        → Step
            (record { machine = m; pmm = p; live = live })
            (record { machine = put_word m q i v; pmm = p; live = live })

  pub data Reach (c : Client) : Client → Type 0 where
    here : Reach c c
    next : {c' c'' : Client} → Reach c c' → Step c' c'' → Reach c c''
