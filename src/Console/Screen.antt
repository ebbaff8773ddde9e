-- ===== src/Console/Screen.antt =====
-- What `kprint` leaves on the screen.
use boot.Base.{
  ℕ, zero, suc, ◌+◌, ◌*◌, ◌^◌, ◌<◌, ◌≤◌, ◌≡◌, ◌⊎◌, refl, ◌∙◌, arith, ap, some, u16, u8, ◌==◌, false,
  true,
}
use mathlib.Core.Path.{subst}
use boot.Base.{Bool-cases, inl, inr, leb, ltb, if◌then◌else◌, ◌-◌, ◌/◌, ◌%◌}
use boot.Console.{poke, kprint_rounds, kprint, kputs, line_break}
use boot.Text.Strlen.{IsString, strlen_lem}

-- `n` characters at `in'` and their places on the screen do not overlap.
abbrev pub IsApart : ℕ → ℕ → ℕ → Type 0
IsApart in' screen n = (in' + n ≤ screen) ⊎ (screen + 2 * n ≤ in')

-- `new` shows `n` characters of `old` on the screen, and is the same elsewhere.
pub record IsShown (old new : ℕ → ℕ) (in' screen n : ℕ) : Type 0 where
  pub character : (k : ℕ) → k < n → new (screen + 2 * k) ≡ u8 (old (in' + k))
  pub attribute : (k : ℕ) → k < n → new (screen + 2 * k + 1) ≡ 0x0F
  pub elsewhere : (b : ℕ) → (b < screen) ⊎ (screen + 2 * n ≤ b) → new b ≡ old b

module _ (in' : ℕ) where
  abbrev step : ℕ → ℕ → (ℕ → ℕ) → ℕ → ℕ
  step i screen memory = poke (poke memory screen (memory (in' + i))) (screen + 1) 0x0F

  step_first : (i screen : ℕ) (memory : ℕ → ℕ) → step i screen memory screen ≡ u8 (memory (in' + i))
  step_first i screen memory =
      let a : (screen == screen + 1) ≡ false = ground arith in
      let b : (screen == screen) ≡ true = ground arith in rw (a, b) refl

  step_second : (i screen : ℕ) (memory : ℕ → ℕ) → step i screen memory (screen + 1) ≡ 0x0F
  step_second i screen memory =
      let b : (screen + 1 == screen + 1) ≡ true = ground arith in rw b refl

  step_other :
      (i screen : ℕ) (memory : ℕ → ℕ) (b : ℕ)
      → (b < screen) ⊎ (screen + 2 ≤ b)
      → step i screen memory b ≡ memory b
  step_other i screen memory b h =
      let x : (b == screen + 1) ≡ false = ground arith in
      let y : (b == screen) ≡ false = ground arith in rw (x, y) refl

  after_step :
      (left i screen : ℕ) (memory new : ℕ → ℕ)
      → IsApart (in' + i) screen (suc left)
      → IsShown (step i screen memory) new (in' + (i + 1)) (screen + 2) left
      → IsShown memory new (in' + i) screen (suc left)
  after_step left i screen memory new apart later = record {
    character = character;
    attribute = attribute;
    elsewhere = λ b h. later.elsewhere b (omega arith) ∙ step_other i screen memory b (omega arith);
  }
    where
      character : (k : ℕ) → k < suc left → new (screen + 2 * k) ≡ u8 (memory (in' + i + k))
      character zero h =
          let e : screen + 2 * 0 ≡ screen = omega arith in
          let f : in' + i + 0 ≡ in' + i = omega arith in
          rw (e, f) (later.elsewhere screen (omega arith) ∙ step_first i screen memory)
      character (suc k) h =
          let e : screen + 2 * suc k ≡ screen + 2 + 2 * k = omega arith in
          let f : in' + i + suc k ≡ in' + (i + 1) + k = omega arith in
          let kept = step_other i screen memory (in' + (i + 1) + k) (omega arith) in
          rw (e, f) (later.character k (omega arith) ∙ ap u8 kept)

      attribute : (k : ℕ) → k < suc left → new (screen + 2 * k + 1) ≡ 0x0F
      attribute zero h =
          let e : screen + 2 * 0 + 1 ≡ screen + 1 = omega arith in
          rw e (later.elsewhere (screen + 1) (omega arith) ∙ step_second i screen memory)
      attribute (suc k) h =
          let e : screen + 2 * suc k + 1 ≡ screen + 2 + 2 * k + 1 = omega arith in
          rw e (later.attribute k (omega arith))

  kprint_rounds-IsShown :
      (left i screen : ℕ) (memory : ℕ → ℕ)
      → IsApart (in' + i) screen left
      → IsShown memory (kprint_rounds left in' i screen memory) (in' + i) screen left
  unfolding kprint_rounds
  kprint_rounds-IsShown zero i screen memory apart = record {
    character = λ k h. absurd (omega arith);
    attribute = λ k h. absurd (omega arith);
    elsewhere = λ b h. refl;
  }
  kprint_rounds-IsShown (suc left) i screen memory apart =
      after_step left i screen memory
        (kprint_rounds left in' (i + 1) (screen + 2) (step i screen memory)) apart
        (kprint_rounds-IsShown left (i + 1) (screen + 2) (step i screen memory) (omega arith))

-- Where the `n` characters at `in'` do not overlap their places, `kprint` shows them from `screen` on
-- with the attribute 0x0F, two bytes for each, and changes no other byte.
pub kprint-IsShown :
    (in' screen n : ℕ) (memory : ℕ → ℕ)
    → IsApart in' screen n
    → IsShown memory (kprint in' screen n memory) in' screen n
unfolding kprint
kprint-IsShown in' screen n memory apart =
    let e : in' + 0 ≡ in' = omega arith in
    subst (λ a. IsShown memory (kprint_rounds n in' 0 screen memory) a screen n) e
      (kprint_rounds-IsShown in' n 0 screen memory (omega arith))

-- Where `n` more bytes would go behind the byte 160 of the line of `pos`, the start of the next
-- line, as 16 bits; else `pos`.
abbrev pub start_of : ℕ → ℕ → ℕ
start_of pos n = if leb (pos % 160 + n) 160 then pos else (pos / 160 + 1) * 160 % 2 ^ 16

line_break-start_of : (pos n : ℕ) → line_break pos n ≡ start_of pos n
line_break-start_of pos n = elim (Bool-cases (leb (pos % 160 + n) 160)) [
  | inl t ↦ let f : ltb 160 (pos % 160 + n) ≡ false = ground arith in rw (t, f) refl
  | inr f ↦
      let t : ltb 160 (pos % 160 + n) ≡ true = ground arith in
      let e : pos - pos % 160 + 160 ≡ (pos / 160 + 1) * 160 = omega arith in rw (t, f, e) refl
]

-- For a string of `n` characters, fewer than 65536, in a memory of bytes, with fuel for more than
-- `n` rounds of `strlen`, and where the string does not overlap its places on the screen: `kputs`
-- shows the string from `pos` on, or, where the place of `pos` in its line of 160 bytes and the
-- number of characters add up to more than 160, from the start of the next line on, as 16 bits. It
-- takes two bytes for each character, with the attribute 0x0F, changes no other byte, and returns
-- the position behind the string.
pub kputs-IsShown :
    (fuel in' screen pos n : ℕ) (memory : ℕ → ℕ)
    → IsString memory in' n
    → n < fuel
    → n < 2 ^ 16
    → IsApart in' (screen + start_of pos n) n
    → (new : ℕ → ℕ) × (kputs fuel in' screen pos memory ≡ some (start_of pos n + 2 * n, new))
      × IsShown memory new in' (screen + start_of pos n) n
unfolding kputs
kputs-IsShown fuel in' screen pos n memory is enough small apart =
    let e : u16 n ≡ n = omega arith in
    (
      kprint in' (screen + start_of pos n) n memory,
      rw (kputs, strlen_lem memory in' n is fuel enough) (rw (e, line_break-start_of pos n) refl),
      kprint-IsShown in' (screen + start_of pos n) n memory apart,
    )
