-- ===== src/Disk/Cache.antt =====
-- The kept sector is the one on the disk.
use boot.Base.{
  ℕ, zero, suc, ◌+◌, ◌≤◌, ◌<◌, ◌≡◌, ◌≢◌, refl, arith, List, [], ◌∷◌, ◌++◌, false, ok, length, take,
  drop, ◌==◌, ap, sym, ◌∙◌, inl, inr, Bool-cases, le→leb, lt→leb_false, le→ltb_false, add32,
  length-append,
}
use boot.Disk.{Disk, disk_readp, filled, no_sector, res_ok}

take-take : (n k : ℕ) (xs : List ℕ) → n ≤ k → take n (take k xs) ≡ take n xs
take-take zero k xs h = refl
take-take (suc n) zero xs h = absurd (omega arith)
take-take (suc n) (suc k) [] h = refl
take-take (suc n) (suc k) (x ∷ xs) h = ap (λ t. x ∷ t) (take-take n k xs (omega arith))

take-drop-take :
    (o n k : ℕ) (xs : List ℕ) → o + n ≤ k → take n (drop o (take k xs)) ≡ take n (drop o xs)
take-drop-take zero n k xs h = take-take n k xs (omega arith)
take-drop-take (suc o) n zero xs h = absurd (omega arith)
take-drop-take (suc o) n (suc k) [] h = refl
take-drop-take (suc o) n (suc k) (x ∷ xs) h = take-drop-take o n k xs (omega arith)

take-append : (xs ys : List ℕ) → take (length xs) (xs ++ ys) ≡ xs
take-append [] ys = refl
take-append (x ∷ xs) ys = ap (λ t. x ∷ t) (take-append xs ys)

-- `buf` holds the 512 bytes of the current sector, when there is one.
pub record IsCached (read_sector : ℕ → ℕ → List ℕ) (d : Disk) : Type 0 where
  pub sized : 512 ≤ length d.buf
  pub holds : d.current_sector ≢ no_sector → take 512 d.buf ≡ read_sector d.current_sector d.drive

abbrev pub IsReader : (ℕ → ℕ → List ℕ) → Type 0
IsReader read_sector = (s d : ℕ) → length (read_sector s d) ≡ 512

filled_lem :
    (read_sector : ℕ → ℕ → List ℕ) (sector : ℕ) (d : Disk)
    → IsReader read_sector
    → IsCached read_sector d
    → sector ≢ no_sector
    → (take 512 (filled read_sector sector d).buf ≡ read_sector sector d.drive)
      × IsCached read_sector (filled read_sector sector d)
      × ((filled read_sector sector d).drive ≡ d.drive)
filled_lem read_sector sector d reader c h = elim (Bool-cases (d.current_sector == sector)) [
  | inl t ↦
      let e : d.current_sector ≡ sector = grind arith in
      rw t (c.holds (rw e h) ∙ rw e refl, c, refl)
  | inr f ↦
      let r = read_sector sector d.drive in
      let hold : take 512 (r ++ drop 512 d.buf) ≡ r =
        ap (λ k. take k (r ++ drop 512 d.buf)) (sym (reader sector d.drive))
        ∙ take-append r (drop 512 d.buf) in
      rw f (
        hold,
        record {
          sized = omega (arith, length-append {0} r (drop 512 d.buf), reader sector d.drive);
          holds = λ _. hold;
        },
        refl,
      )
]

-- With a reader that gives 512 bytes, a valid request for a sector, which is a 32-bit number other
-- than 0xFFFFFFFF, gets exactly the bytes of that sector of the drive from `offset` on, whether the
-- sector was kept or is read anew, and what is kept afterwards is again a sector of the drive.
pub disk_readp-reads :
    (read_sector : ℕ → ℕ → List ℕ) (sector offset count : ℕ) (d : Disk)
    → IsReader read_sector
    → IsCached read_sector d
    → sector ≢ no_sector
    → offset < 512
    → offset + count ≤ 512
    → (out : Disk) × (disk_readp read_sector false sector offset count d
        ≡ ok (res_ok, take count (drop offset (read_sector sector d.drive)), out))
      × IsCached read_sector out
      × (out.drive ≡ d.drive)
unfolding disk_readp
disk_readp-reads read_sector sector offset count d reader c h ho hc =
    let (held, cached, same) = filled_lem read_sector sector d reader c h in
    let out = filled read_sector sector d in
    let bytes : take count (drop offset out.buf)
        ≡ take count (drop offset (read_sector sector d.drive)) =
      sym (take-drop-take offset count 512 out.buf hc)
      ∙ ap (λ s. take count (drop offset s)) held in
    (
      out,
      rw
          (
            lt→leb_false 512 offset ho,
            le→ltb_false 512 (add32 offset count) (omega arith),
            le→leb (offset + count) (length out.buf) (omega (arith, cached.sized)),
            bytes,
          )
          refl,
      cached,
      same,
    )
