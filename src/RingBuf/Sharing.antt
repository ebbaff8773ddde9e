-- ===== src/RingBuf/Sharing.antt =====
-- One writer and one reader at the same header. Each gets an index, works from there on, and commits;
-- their calls interleave in any order.
use boot.Base.{ℕ, ◌+◌, ◌-◌, ◌*◌, ◌%◌, ◌^◌, ◌≤◌, ◌<◌, ◌≡◌, ◌≢◌, arith, ◌/◌, sym}
use native.Mathlib.Nat.{one-le-pow, div-add-mod', mod-add-mod}
use native.Mathlib.Decide.{dec_lt}
use boot.RingBuf.{head, buf_init, buf_elements, buf_write, buf_read}
use boot.RingBuf.{buf_write_commit, buf_read_commit}
use boot.RingBuf.FirstLap.{IsCounting, buf_write_header, buf_elements-waiting, head_written}
use boot.RingBuf.FirstLap.{buf_write_commit-IsCounting, buf_read_commit-IsCounting, buf_write-room}
use boot.Base.{multiple_lt, multiple_le, ◌∙◌}
use boot.RingBuf.FirstLap.{buf_read-waiting}
use boot.Base.{refl, ap, Bool-cases, inl, inr, ltb, if◌then◌else◌, sub32}
use native.Mathlib.Nat.{pow-le-pow_right}

-- `writing` places from the index `write_at` on are being filled, and `reading` bytes from `read_at`
-- on are being taken out.
pub record Users : Type 0 where
  pub hdr : ℕ
  pub write_at : ℕ
  pub writing : ℕ
  pub read_at : ℕ
  pub reading : ℕ

abbrev pub users : ℕ → ℕ → ℕ → ℕ → ℕ → Users
users hdr write_at writing read_at reading = record {
  hdr = hdr;
  write_at = write_at;
  writing = writing;
  read_at = read_at;
  reading = reading;
}

-- Whether an `int32_t` index is an error.
abbrev pub IsIndex : ℕ → Type 0
IsIndex i = i < 2 ^ 31

-- The writer calls on a ring that is not full and the reader on one that is not empty, since minus
-- zero does not tell them; they go on when the answer is not negative, with the index that they
-- got. The counts stay below 0x8000.
pub data Step (bits : ℕ) : Users → Users → Type 0 where
  begin_write :
      (hdr write_at read_at reading num : ℕ)
      → buf_elements hdr + 1 < 2 ^ bits
      → head hdr + num < 2 ^ 15
      → IsIndex (buf_write hdr (2 ^ bits) num).0
      → Step bits (users hdr write_at 0 read_at reading) (
          users
            (buf_write hdr (2 ^ bits) num).1
            (buf_write hdr (2 ^ bits) num).0
            num
            read_at
            reading)
  end_write :
      (hdr write_at writing read_at reading : ℕ)
      → Step bits
          (users hdr write_at writing read_at reading)
          (users (buf_write_commit hdr writing) write_at 0 read_at reading)
  begin_read :
      (hdr write_at writing read_at num : ℕ)
      → 0 < buf_elements hdr
      → IsIndex (buf_read hdr (2 ^ bits) num)
      → Step bits
          (users hdr write_at writing read_at 0)
          (users hdr write_at writing (buf_read hdr (2 ^ bits) num) num)
  end_read :
      (hdr write_at writing read_at reading : ℕ)
      → Step bits
          (users hdr write_at writing read_at reading)
          (users (buf_read_commit hdr reading) write_at writing read_at 0)

pub data Reach (bits : ℕ) (u : Users) : Users → Type 0 where
  here : Reach bits u u
  next : {v w : Users} → Reach bits u v → Step bits v w → Reach bits u w

-- An answer of `buf_write` that is an index says that there is room.
granted :
    {bits written taken hdr : ℕ} (c : IsCounting bits written taken hdr) (num : ℕ)
    → buf_elements hdr + 1 < 2 ^ bits
    → IsIndex (buf_write hdr (2 ^ bits) num).0
    → (written - taken + num < 2 ^ bits) × ((buf_write hdr (2 ^ bits) num).0 ≡ written % 2 ^ bits)
granted {bits} {written} {taken} {hdr} c num some_room index =
    let room = 2 ^ bits - 1 - (written - taken) in
    let small =
      pow-le-pow_right {n = 2} (omega arith) {i = bits} {j = 14} (omega (arith, c.narrow)) in
    let waits = buf_elements-waiting c in
    let answer = ap (λ r. r.0) (buf_write-room c num) in
    let i : IsIndex (if ltb room num then sub32 0 room else written % 2 ^ bits) =
      rw answer at index in
    elim (Bool-cases (ltb room num)) [
      | inl t ↦
          let bad : IsIndex (sub32 0 room) = rw t at i in absurd (omega (arith, bad, small, waits))
      | inr f ↦ (let le : num ≤ room = ground arith in omega (arith, le, waits), answer ∙ rw f refl)
    ]

-- An answer of `buf_read` that is an index says that the bytes are there.
offered :
    {bits written taken hdr : ℕ} (c : IsCounting bits written taken hdr) (num : ℕ)
    → 0 < buf_elements hdr
    → IsIndex (buf_read hdr (2 ^ bits) num)
    → (num ≤ written - taken) × (buf_read hdr (2 ^ bits) num ≡ taken % 2 ^ bits)
offered {bits} {written} {taken} {hdr} c num some_bytes index =
    let waits = buf_elements-waiting c in
    let answer = buf_read-waiting c num in
    let i : IsIndex
        (if ltb (written - taken) num then sub32 0 (written - taken) else taken % 2 ^ bits) =
      rw answer at index in
    elim (Bool-cases (ltb (written - taken) num)) [
      | inl t ↦
          let bad : IsIndex (sub32 0 (written - taken)) = rw t at i in
          absurd (omega (arith, bad, waits, c.first_lap))
      | inr f ↦ (let le : num ≤ written - taken = ground arith in le, answer ∙ rw f refl)
    ]

record IsShared (bits : ℕ) (u : Users) : Type 0 where
  written : ℕ
  taken : ℕ
  counting : IsCounting bits written taken u.hdr
  room : written - taken + u.writing < 2 ^ bits
  lap : written + u.writing < 2 ^ 15
  waiting : u.reading ≤ written - taken
  write_place : 0 < u.writing → u.write_at ≡ written % 2 ^ bits
  read_place : 0 < u.reading → u.read_at ≡ taken % 2 ^ bits

Step-IsShared : {bits : ℕ} {u v : Users} → Step bits u v → IsShared bits u → IsShared bits v
Step-IsShared {bits} (begin_write hdr write_at read_at reading num some_room lap index) s =
    let (room, at) = granted s.counting num some_room index in
    record {
      written = s.written;
      taken = s.taken;
      counting = rw (buf_write_header s.counting num) s.counting;
      room = room;
      lap = omega (arith, lap, head_written s.counting);
      waiting = s.waiting;
      write_place = λ pos. at;
      read_place = s.read_place;
    }
Step-IsShared (end_write hdr write_at writing read_at reading) s = record {
  written = s.written + writing;
  taken = s.taken;
  counting = buf_write_commit-IsCounting s.counting writing s.room s.lap;
  room = omega (arith, s.room, s.counting.ordered);
  lap = omega (arith, s.lap);
  waiting = omega (arith, s.waiting);
  write_place = λ pos. absurd (omega (arith, pos));
  read_place = s.read_place;
}
Step-IsShared (begin_read hdr write_at writing read_at num some_bytes index) s =
    let (there, at) = offered s.counting num some_bytes index in
    record {
      written = s.written;
      taken = s.taken;
      counting = s.counting;
      room = s.room;
      lap = s.lap;
      waiting = there;
      write_place = s.write_place;
      read_place = λ pos. at;
    }
Step-IsShared (end_read hdr write_at writing read_at reading) s = record {
  written = s.written;
  taken = s.taken + reading;
  counting = buf_read_commit-IsCounting s.counting reading s.waiting;
  room = omega (arith, s.room);
  lap = s.lap;
  waiting = omega arith;
  write_place = s.write_place;
  read_place = λ pos. absurd (omega (arith, pos));
}

Reach-IsShared : {bits : ℕ} {u v : Users} → IsShared bits u → Reach bits u v → IsShared bits v
Reach-IsShared s here = s
Reach-IsShared s (next r st) = Step-IsShared st (Reach-IsShared s r)

abbrev pub initial : ℕ → Users
initial hdr = users (buf_init hdr) 0 0 0 0

initial-IsShared : (bits hdr : ℕ) → bits < 15 → IsShared bits (initial hdr)
unfolding buf_init
initial-IsShared bits hdr narrow = record {
  written = 0;
  taken = 0;
  counting = record {
    packed = omega arith;
    ordered = omega arith;
    first_lap = omega arith;
    fits = one-le-pow bits 2 (omega arith);
    narrow = narrow;
  };
  room = omega (arith, one-le-pow bits 2 (omega arith));
  lap = omega arith;
  waiting = omega arith;
  write_place = λ pos. absurd (omega (arith, pos));
  read_place = λ pos. absurd (omega (arith, pos));
}

-- Two counts less than a lap apart are at different places of the ring.
places_apart : (m p q : ℕ) → p < q → q < p + m → p % m ≢ q % m
places_apart m p q lt near e =
    let ep : p / m * m + p % m ≡ p = div-add-mod' p m in
    let eq : q / m * m + q % m ≡ q = div-add-mod' q m in
    elim (dec_lt (p / m) (q / m)) [
      | yes less ↦ omega (arith, multiple_lt m (p / m) (q / m) less)
      | no same ↦ omega (arith, multiple_le m (q / m) (p / m) (omega arith))
    ]

-- In a ring of `2 ^ bits` places, with `bits` below 15, one writer and one reader start at
-- `buf_init`. They call `buf_write` only while a place is free beside the one that stays empty and
-- `buf_read` only while a byte waits, go on only when the answer is not negative, and write fewer
-- than 0x8000 bytes in all. Then, at any point of any interleaving of their calls, no place that is
-- being written is one that is being read: the places are those from the returned indices on, taken
-- round the ring.
pub Reach-apart :
    {bits : ℕ} (hdr : ℕ) {u : Users} (i j : ℕ)
    → bits < 15
    → Reach bits (initial hdr) u
    → i < u.writing
    → j < u.reading
    → (u.write_at + i) % 2 ^ bits ≢ (u.read_at + j) % 2 ^ bits
Reach-apart {bits} hdr {u} i j narrow r hi hj =
    let s = Reach-IsShared (initial-IsShared bits hdr narrow) r in
    let w : (u.write_at + i) % 2 ^ bits ≡ (s.written + i) % 2 ^ bits =
      rw (s.write_place (omega arith)) (mod-add-mod s.written (2 ^ bits) i) in
    let t : (u.read_at + j) % 2 ^ bits ≡ (s.taken + j) % 2 ^ bits =
      rw (s.read_place (omega arith)) (mod-add-mod s.taken (2 ^ bits) j) in
    λ e.
      places_apart (2 ^ bits) (s.taken + j) (s.written + i)
        (omega (arith, s.waiting, s.counting.ordered)) (omega (arith, s.room, s.counting.ordered))
        (sym t ∙ (sym e ∙ w))
