-- ===== src/Pic/Chip.antt =====
-- An 8259 from its data sheet: what a history of accesses leaves in it.
use boot.Base.{ℕ, ◌+◌, ◌*◌, ◌/◌, ◌%◌, List, [], ◌∷◌, ◌==◌, if◌then◌else◌, drop}
use boot.Ports.{Access, wrote, read}

-- `expects` counts the initialization words: 0 for none, 1 to 3 for ICW2 to ICW4. The levels in
-- service stand innermost first.
pub record Chip : Type 0 where
  pub expects : ℕ
  pub vector : ℕ
  pub cascade : ℕ
  pub icw4 : ℕ
  pub mask : ℕ
  pub in_service : List ℕ

-- An ICW1 (it announces an ICW4), a non-specific end of interrupt, or a word that asks for a
-- register.
abbrev command : ℕ → Chip → Chip
command v chip =
    if v / 16 % 2 == 1
    then record chip { expects = 1; mask = 0; in_service = [] }
    else if v == 0x20
    then record chip { in_service = drop 1 chip.in_service }
    else chip

abbrev data' : ℕ → Chip → Chip
data' v chip =
    if chip.expects == 1
    then record chip { expects = 2; vector = v / 8 * 8 }
    else if chip.expects == 2
    then record chip { expects = 3; cascade = v }
    else if chip.expects == 3
    then record chip { expects = 0; icw4 = v }
    else record chip { mask = v }

-- The chip whose command port is `cmd`, from a state on.
abbrev pub after : ℕ → Chip → List Access → Chip
after cmd chip [] = chip
after cmd chip (wrote port v ∷ older) =
    let before = after cmd chip older in
    if port == cmd then command v before else if port == cmd + 1 then data' v before else before
after cmd chip (read port v ∷ older) = after cmd chip older
