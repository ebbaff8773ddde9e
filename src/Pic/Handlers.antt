-- ===== src/Pic/Handlers.antt =====
-- Which interrupts the handlers acknowledge.
use boot.Base.{ℕ, ◌≡◌, refl, if◌then◌else◌, leb, drop, Bool-cases, inl, inr}
use boot.Ports.{Cpu}
use boot.Pic.{pic1_cmd, pic2_cmd, pic_eoi}
use boot.Pic.Chip.{Chip, after}

-- `pic_eoi` ends the innermost interrupt of the first controller, and that of the second too for
-- the lines from 8 on.
pub pic_eoi-ends :
    (chip1 chip2 : Chip) (irq : ℕ) (cpu : Cpu)
    → ((after pic1_cmd chip1 (pic_eoi irq cpu).accesses).in_service
        ≡ drop 1 (after pic1_cmd chip1 cpu.accesses).in_service)
      × ((after pic2_cmd chip2 (pic_eoi irq cpu).accesses).in_service ≡ (
          if leb 8 irq
          then drop 1 (after pic2_cmd chip2 cpu.accesses).in_service
          else (after pic2_cmd chip2 cpu.accesses).in_service))
unfolding pic_eoi
pic_eoi-ends chip1 chip2 irq cpu = elim (Bool-cases (leb 8 irq)) [
  | inl t ↦ (rw t refl, rw t refl)
  | inr f ↦ (rw f refl, rw f refl)
]
