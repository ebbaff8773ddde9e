-- ===== src/Console.antt =====
-- stage2/util.c and the output of stage3/kmain.cpp: text on the screen, which lies at an address of
-- memory with two bytes for a character, and text for the serial port.
pub mod Screen
mod Tests
use boot.Base.{
  ℕ, zero, suc, ◌+◌, ◌-◌, ◌*◌, ◌/◌, ◌%◌, ◌^◌, List, [], ◌∷◌, Bool, ◌==◌, ◌&&◌, if◌then◌else◌, ltb,
  leb, u8, u16, Option, none, some, drop, length, replicate, sub32,
}
use boot.Base.{Outcome, ok, fault, ◌>>=◌}
use boot.Text.{strlen, hextostr}
use boot.Ports.{Cpu}
use boot.Serial.{Serial, ser_write}

-- `*a = v`
abbrev pub poke : (ℕ → ℕ) → ℕ → ℕ → ℕ → ℕ
poke memory a v b = if b == a then u8 v else memory b

-- The rounds of `kprint` that are left, at the character with the index `i`.
unfoldable pub kprint_rounds : ℕ → ℕ → ℕ → ℕ → (ℕ → ℕ) → ℕ → ℕ
kprint_rounds zero in' i screen memory = memory
kprint_rounds (suc left) in' i screen memory =
    kprint_rounds left in' (i + 1) (screen + 2)
      (poke (poke memory screen (memory (in' + i))) (screen + 1) 0x0F)

unfoldable pub kprint : ℕ → ℕ → ℕ → (ℕ → ℕ) → ℕ → ℕ
kprint in' screen n memory = kprint_rounds n in' 0 screen memory

-- The position where the text goes: on the next line, where `offset` and `len` are more than 160.
abbrev pub line_break : ℕ → ℕ → ℕ
line_break pos len = if ltb 160 (pos % 160 + len) then u16 (pos - pos % 160 + 160) else pos

-- The position behind the text, and the memory; nothing where the fuel for `strlen` runs out.
unfoldable pub kputs : ℕ → ℕ → ℕ → ℕ → (ℕ → ℕ) → Option (ℕ × (ℕ → ℕ))
kputs fuel in' screen pos memory = elim (strlen fuel memory in') [
  | none ↦ none
  | some n ↦
      let pos = line_break pos (u16 n) in
      some (pos + 2 * u16 n, kprint in' (screen + pos) (u16 n) memory)
]

-- Texts one after another.
unfoldable pub kputs_all : ℕ → ℕ → List ℕ → ℕ → (ℕ → ℕ) → Option (ℕ × (ℕ → ℕ))
kputs_all fuel screen [] pos memory = some (pos, memory)
kputs_all fuel screen (text ∷ texts) pos memory = elim (kputs fuel text screen pos memory) [
  | none ↦ none
  | some (pos, memory) ↦ kputs_all fuel screen texts (u16 pos) memory
]

-- Bytes one after another.
abbrev pub poke_all : (ℕ → ℕ) → ℕ → List ℕ → ℕ → ℕ
poke_all memory a [] = memory
poke_all memory a (b ∷ bytes) = poke_all (poke memory a b) (a + 1) bytes

-- "0x00000000"
abbrev linestr_text : List ℕ
linestr_text = 48 ∷ 120 ∷ replicate 8 48

-- The addresses of the constant texts of `__assert_fail`.
pub record AssertTexts : Type 0 where
  pub panic : ℕ
  pub file : ℕ
  pub line : ℕ
  pub func : ℕ

-- `__assert_fail` of the loader up to `bhang`: what it leaves in memory, and the position behind the
-- texts. `linestr` is the address of the local text.
unfoldable pub assert_fail : ℕ → AssertTexts → ℕ → ℕ → ℕ → ℕ → ℕ → (ℕ → ℕ) → Option (ℕ × (ℕ → ℕ))
assert_fail fuel labels linestr x file line func memory =
    let digits = hextostr line (replicate 8 48) in
    let memory = poke_all (poke_all memory linestr linestr_text) (linestr + 2) digits in
    kputs_all fuel 0xB_8000
      (labels.panic ∷ x ∷ labels.file ∷ file ∷ labels.line ∷ linestr ∷ labels.func ∷ func ∷ []) 0
      memory

-- `clear` of the kernel: the rounds that are left.
unfoldable pub clear_screen : ℕ → ℕ → ℕ → (ℕ → ℕ) → ℕ → ℕ
clear_screen zero i screen memory = memory
clear_screen (suc left) i screen memory =
    clear_screen left (i + 1) screen (poke memory (screen + i) 0)

-- `kprint` of the kernel, on fuel for its rounds: the text that is left, the port and the processor.
-- `halt` is what happens until the next interrupt has been handled.
unfoldable pub kprint_serial :
    ℕ
    → (Serial → Cpu → Outcome (Serial × Cpu))
    → List ℕ
    → ℕ
    → Serial
    → Cpu
    → Outcome (List ℕ × Serial × Cpu)
kprint_serial zero halt str n com1 cpu = ok (str, com1, cpu)
kprint_serial (suc fuel) halt str n com1 cpu =
    let round = (do
      (sent, com1, cpu) ← ser_write com1 str n cpu
      (com1, cpu) ← (if sent == 0 then halt com1 cpu else ok (com1, cpu))
      kprint_serial fuel halt (drop sent str) (u16 (sub32 n sent)) com1 cpu) in
    if ltb 0 n then round else ok (str, com1, cpu)

-- The kernel's own copies.
abbrev pub printscreen : ℕ → ℕ → ℕ → (ℕ → ℕ) → ℕ → ℕ
printscreen in' screen n memory = kprint in' screen n memory

abbrev pub kernel_hextostr : ℕ → List ℕ → List ℕ
kernel_hextostr in' out = hextostr in' out
