-- ===== src/Serial/Append.antt =====
-- The two copies of `ser_write` into the ring.
use boot.Base.{ℕ, ◌+◌, ◌-◌, ◌%◌, ◌^◌, ◌≤◌, ◌<◌, ◌≡◌, refl, ◌∙◌, inl, inr, List, arith}
use boot.Base.{length, get_or, take, drop, write_all, ok, length-write_all, write_all_outside}
use boot.Base.{write_all_inside, length-take, length-drop, get_or-take, get_or-drop, le→leb, ap}
use native.Mathlib.Decide.{dec_lt}
use boot.Serial.{serial_bufsize, ser_append}
use boot.Base.{le→ltb_false, min, sub32, add32}

-- `n` bytes were put at the places from the count `w` on, and the places behind them are as before.
pub record Appended (b b' : List ℕ) (w : ℕ) (bytes : List ℕ) (n : ℕ) : Type 0 where
  pub sized : length b' ≡ serial_bufsize
  pub fresh : (k : ℕ) → k < n → get_or b' ((w + k) % serial_bufsize) 0 ≡ get_or bytes k 0
  pub kept :
      (p : ℕ)
      → p < w
      → w + n ≤ p + serial_bufsize
      → get_or b' (p % serial_bufsize) 0 ≡ get_or b (p % serial_bufsize) 0

module _ (b : List ℕ) (w : ℕ) (bytes : List ℕ) (n : ℕ) (sized : length b ≡ serial_bufsize)
    (enough : n ≤ length bytes) (fits : n < serial_bufsize) where
  abbrev h : ℕ
  h = w % serial_bufsize

  abbrev part : List ℕ
  part = take n (drop 0 bytes)

  straight_run : h + n < serial_bufsize → ser_append b h bytes n ≡ ok (write_all b h part)
  unfolding ser_append
  straight_run low = ground (arith, le→leb (h + n) (length b), le→leb (0 + n) (length bytes))

  straight : h + n < serial_bufsize → Appended b (write_all b h part) w bytes n
  straight low = record {
    sized = length-write_all b h part ∙ sized;
    fresh = λ k hk.
        let e : (w + k) % serial_bufsize ≡ h + k = omega arith in
        rw e (
          write_all_inside b h part k 0 (omega (arith, length-take {0} n bytes))
            (omega (arith, length-take {0} n bytes))
          ∙ get_or-take n k bytes 0 hk);
    kept = λ p lt near.
        write_all_outside b h part (p % serial_bufsize) 0 (elim (dec_lt (p % serial_bufsize) h) [
          | yes before ↦ inl before
          | no after ↦ inr (omega (arith, length-take {0} n bytes))
        ]);
  }

  abbrev space : ℕ
  space = serial_bufsize - h

  abbrev first : List ℕ
  first = take space (drop 0 bytes)

  abbrev second : List ℕ
  second = take (n - space) (drop space bytes)

  abbrev wrapped : List ℕ
  wrapped = write_all (write_all b h first) 0 second

  space_lem : sub32 serial_bufsize h ≡ space
  space_lem = omega arith

  rest_lem : serial_bufsize ≤ h + n → sub32 n space ≡ n - space
  rest_lem high = omega arith

  wrapping_run : serial_bufsize ≤ h + n → ser_append b h bytes n ≡ ok wrapped
  unfolding ser_append
  wrapping_run high =
      rw
        (
          space_lem,
          rest_lem high,
          le→leb (h + space) (length b) (omega arith),
          le→leb (0 + space) (length bytes) (omega arith),
          length-write_all b h first,
          le→leb (0 + (n - space)) (length b) (omega arith),
          le→leb (space + (n - space)) (length bytes) (omega arith),
          le→ltb_false ((add32 h n + 2 ^ 31) % 2 ^ 32) (serial_bufsize + 2 ^ 31) (omega arith),
        )
        refl

  length-first : length first ≡ min space (length bytes)
  length-first = length-take space bytes

  length-second : length second ≡ min (n - space) (length bytes - space)
  length-second =
      length-take (n - space) (drop space bytes) ∙ ap (min (n - space)) (length-drop space bytes)

  wrapping_fresh :
      serial_bufsize ≤ h + n
      → (k : ℕ) → k < n
      → get_or wrapped ((w + k) % serial_bufsize) 0 ≡ get_or bytes k 0
  wrapping_fresh high k hk = elim (dec_lt k space) [
    | yes low ↦
        let e : (w + k) % serial_bufsize ≡ h + k = omega arith in
        rw e (
          write_all_outside (write_all b h first) 0 second (h + k) 0
            (inr (omega (arith, length-second)))
          ∙ (write_all_inside b h first k 0 (omega (arith, length-first))
                (omega (arith, length-first))
              ∙ get_or-take space k bytes 0 low))
    | no over ↦
        let e : (w + k) % serial_bufsize ≡ 0 + (k - space) = omega arith in
        let e' : space + (k - space) ≡ k = omega arith in
        rw e (
          write_all_inside (write_all b h first) 0 second (k - space) 0
            (omega (arith, length-second))
            (omega (arith, length-second, length-write_all {0} b h first))
          ∙ (get_or-take (n - space) (k - space) (drop space bytes) 0 (omega arith)
              ∙ (get_or-drop space (k - space) bytes 0 ∙ ap (λ i. get_or bytes i 0) e')))
  ]

  wrapping : serial_bufsize ≤ h + n → Appended b wrapped w bytes n
  wrapping high = record {
    sized = length-write_all (write_all b h first) 0 second ∙ (length-write_all b h first ∙ sized);
    fresh = wrapping_fresh high;
    kept = λ p lt near.
        write_all_outside (write_all b h first) 0 second (p % serial_bufsize) 0
          (inr (omega (arith, length-second)))
        ∙ write_all_outside b h first (p % serial_bufsize) 0 (inl (omega arith));
  }

  -- In a buffer of 64 bytes, at the index `w % 64`, and for fewer than 64 of the given bytes,
  -- `ser_append` stays in the buffer, puts exactly those bytes at the places of the counts from
  -- `w` on, and keeps the places of the earlier counts that they do not reach round the ring.
  pub ser_append-Appended :
      (b' : List ℕ) × (ser_append b h bytes n ≡ ok b') × Appended b b' w bytes n
  ser_append-Appended = elim (dec_lt (h + n) serial_bufsize) [
    | yes low ↦ (write_all b h part, straight_run low, straight low)
    | no high ↦ (wrapped, wrapping_run (omega arith), wrapping (omega arith))
  ]
