-- ===== src/Kernel/Texts.antt =====
-- The texts of stage3/kmain.cpp as strings, and the lines of the memory map.
use boot.Base.{
  ℕ, zero, suc, ◌+◌, ◌-◌, ◌/◌, ◌%◌, ◌^◌, ◌<◌, ◌≡◌, refl, ◌∙◌, ap, arith, List, [], ◌∷◌, length,
  get_or, some, inl, inr, leb, le→leb, Bool-cases, u8, bit_and_low,
}
use boot.Text.{hex, hex_digit, hextostr, hextostr_rounds, strlen}
use boot.Text.Compare.{IsBytes}
use boot.Text.Strlen.{strlen_lem}
use boot.MemoryMap.{Smap32}
use boot.Kernel.Printing.{header, region_text, put_region, text_at}

-- Bytes that are not zero.
abbrev pub IsText : List ℕ → Type 0
IsText [] = Unit
IsText (b ∷ text) = ((0 < b) × (b < 256)) × IsText text

get_or-byte : (text : List ℕ) (k : ℕ) → IsText text → get_or text k 0 < 256
get_or-byte [] k t = omega arith
get_or-byte (b ∷ text) zero t = t.0.1
get_or-byte (b ∷ text) (suc k) t = get_or-byte text k t.1

get_or-positive : (text : List ℕ) (k : ℕ) → IsText text → k < length text → 0 < get_or text k 0
get_or-positive [] k t h = elim h [ ]
get_or-positive (b ∷ text) zero t h = t.0.0
get_or-positive (b ∷ text) (suc k) t h = get_or-positive text k t.1 (omega arith)

get_or-end : (text : List ℕ) → get_or text (length text) 0 ≡ 0
get_or-end [] = refl
get_or-end (b ∷ text) = get_or-end text

text_at-IsBytes : (str : ℕ) (text : List ℕ) → IsText text → IsBytes (text_at str text)
text_at-IsBytes str text t a = elim (Bool-cases (leb str a)) [
  | inl e ↦ rw e (get_or-byte text (a - str) t)
  | inr e ↦ rw e (omega arith)
]

text_at-get_or : (str : ℕ) (text : List ℕ) (k : ℕ) → text_at str text (str + k) ≡ get_or text k 0
text_at-get_or str text k =
    let e : str + k - str ≡ k = omega arith in rw (le→leb str (str + k) (omega arith), e) refl

-- `strlen` of a text of fewer than 64 characters.
pub strlen-text :
    (str : ℕ) (text : List ℕ)
    → IsText text
    → length text < 64
    → strlen 64 (text_at str text) str ≡ some (length text)
strlen-text str text t short =
    strlen_lem (text_at str text) str (length text)
      (record {
        bytes = text_at-IsBytes str text t;
        no_end =
            λ k h z. absurd (omega (arith, get_or-positive text k t h, text_at-get_or str text k));
        ends = text_at-get_or str text (length text) ∙ get_or-end text;
      })
      64 short

hex-IsText : IsText hex
hex-IsText = ground arith

hex_digit-IsText : (n : ℕ) → (0 < hex_digit (n % 16)) × (hex_digit (n % 16) < 256)
unfolding hex_digit
hex_digit-IsText n =
    (get_or-positive hex (n % 16) hex-IsText (omega arith), get_or-byte hex (n % 16) hex-IsText)

-- The digit of weight `16 ^ k`.
abbrev digit : ℕ → ℕ → ℕ
digit n k = hex_digit (n / 16 ^ k % 16)

-- The eight digits of a number, before more text.
abbrev pub hex8 : ℕ → List ℕ → List ℕ
hex8 n text =
    digit n 7
    ∷ digit n 6
    ∷ digit n 5
    ∷ digit n 4
    ∷ digit n 3
    ∷ digit n 2
    ∷ digit n 1
    ∷ digit n 0
    ∷ text

hex8-IsText : (n : ℕ) (text : List ℕ) → IsText text → IsText (hex8 n text)
hex8-IsText n text t =
    let d = λ (k : ℕ). hex_digit-IsText (n / 16 ^ k) in
    (d 7, (d 6, (d 5, (d 4, (d 3, (d 2, (d 1, (d 0, t))))))))

hextostr-hex8 : (n old : ℕ) (text : List ℕ) → hextostr n (hex8 old text) ≡ hex8 n text
unfolding hextostr hextostr_rounds
hextostr-hex8 n old text =
    let low = λ (k m : ℕ) (same : m ≡ n / 16 ^ k).
      ap hex_digit (bit_and_low 4 m ∙ ap (λ (t : ℕ). t % 16) same) in
    rw
      (
        low 7 (n / 16 / 16 / 16 / 16 / 16 / 16 / 16) (omega arith),
        low 6 (n / 16 / 16 / 16 / 16 / 16 / 16) (omega arith),
        low 5 (n / 16 / 16 / 16 / 16 / 16) (omega arith),
        low 4 (n / 16 / 16 / 16 / 16) (omega arith),
        low 3 (n / 16 / 16 / 16) (omega arith),
        low 2 (n / 16 / 16) (omega arith),
        low 1 (n / 16) (omega arith),
        low 0 n (omega arith),
      )
      refl

-- A line of the memory map: " 0x", the base, " | 0x", the length, " | ", the type, and the end.
abbrev pub region_line : Smap32 → List ℕ
region_line r =
    32
    ∷ 48
    ∷ 120
    ∷ hex8 r.base
        (32 ∷ 124 ∷ 32 ∷ 48 ∷ 120 ∷ hex8 r.length (32 ∷ 124 ∷ 32 ∷ u8 (48 + r.type) ∷ 13 ∷ 10 ∷ []))

pub put_region-region_line : (old r : Smap32) → put_region (region_line old) r ≡ region_line r
put_region-region_line old r =
    rw
      (
        hextostr-hex8 r.base old.base (
            32
            ∷ 124
            ∷ 32
            ∷ 48
            ∷ 120
            ∷ hex8 old.length (32 ∷ 124 ∷ 32 ∷ u8 (48 + old.type) ∷ 13 ∷ 10 ∷ [])),
        hextostr-hex8 r.length old.length (32 ∷ 124 ∷ 32 ∷ u8 (48 + old.type) ∷ 13 ∷ 10 ∷ []),
      )
      refl

-- The text that the kernel starts from is that of a region.
abbrev pub first_region : Smap32
first_region = record { base = 0; length = 0x9_FC00; type = 1; acpi = 0 }

pub region_text-first_region : region_text ≡ region_line first_region
unfolding hex_digit
region_text-first_region = refl

pub header-IsText : IsText header
header-IsText = ground arith

-- The type of the region gives a character.
abbrev pub IsTyped : Smap32 → Type 0
IsTyped r = 0 < u8 (48 + r.type)

pub region_line-IsText : (r : Smap32) → IsTyped r → IsText (region_line r)
region_line-IsText r h =
    let end : IsText (32 ∷ 124 ∷ 32 ∷ u8 (48 + r.type) ∷ 13 ∷ 10 ∷ []) = ground (arith, h) in
    let byte : (k : ℕ) → k < 255 → (0 < k + 1) × (k + 1 < 256) =
      λ k h. (omega arith, omega arith) in
    let len = hex8-IsText r.length (32 ∷ 124 ∷ 32 ∷ u8 (48 + r.type) ∷ 13 ∷ 10 ∷ []) end in
    let base =
      hex8-IsText r.base
        (32 ∷ 124 ∷ 32 ∷ 48 ∷ 120 ∷ hex8 r.length (32 ∷ 124 ∷ 32 ∷ u8 (48 + r.type) ∷ 13 ∷ 10 ∷ []))
        (
          byte 31 (omega arith),
          (
            byte 123 (omega arith),
            (byte 31 (omega arith), (byte 47 (omega arith), (byte 119 (omega arith), len))),
          ),
        ) in
    (byte 31 (omega arith), (byte 47 (omega arith), (byte 119 (omega arith), base)))
