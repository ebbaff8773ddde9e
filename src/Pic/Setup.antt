-- ===== src/Pic/Setup.antt =====
-- What `pic_init` and the masks leave in the two controllers.
use boot.Base.{
  ℕ, ◌+◌, ◌*◌, ◌/◌, ◌%◌, ◌^◌, ◌<◌, ◌≡◌, refl, arith, [], bit_and, bit_and_low, bit_and_shifted,
}
use boot.Ports.{Cpu}
use boot.Pic.{pic1_cmd, pic2_cmd, pic_init, pic_irqmask}
use boot.Pic.Chip.{Chip, after}

abbrev pub ready : ℕ → ℕ → Chip
ready vector cascade = record {
  expects = 0;
  vector = vector;
  cascade = cascade;
  icw4 = 1;
  mask = 0;
  in_service = [];
}

-- For an offset that is a multiple of 8 and leaves room for 16 vectors, `pic_init` leaves both
-- controllers in 8086 mode, whatever they did before: the first with the vectors from the offset
-- on and the second behind its level 2, the second with the eight vectors after that, nothing
-- masked and nothing in service.
pub pic_init-ready :
    (chip1 chip2 : Chip) (k : ℕ) (cpu : Cpu)
    → k < 31
    → (after pic1_cmd chip1 (pic_init (k * 8) cpu).accesses ≡ ready (k * 8) 4)
      × (after pic2_cmd chip2 (pic_init (k * 8) cpu).accesses ≡ ready (k * 8 + 8) 2)
unfolding pic_init
pic_init-ready chip1 chip2 k cpu h =
    let e1 : k * 8 % 2 ^ 8 / 8 * 8 ≡ k * 8 = omega arith in
    let e2 : (k * 8 + 8) % 2 ^ 8 / 8 * 8 ≡ k * 8 + 8 = omega arith in (rw e1 refl, rw e2 refl)

-- When neither controller is in the middle of its initialization, `pic_irqmask` of a 16-bit mask
-- gives its low byte to the first controller and its high byte to the second.
pub pic_irqmask-masks :
    (chip1 chip2 : Chip) (mask : ℕ) (cpu : Cpu)
    → mask < 2 ^ 16
    → (after pic1_cmd chip1 cpu.accesses).expects ≡ 0
    → (after pic2_cmd chip2 cpu.accesses).expects ≡ 0
    → ((after pic1_cmd chip1 (pic_irqmask mask cpu).accesses).mask ≡ mask % 2 ^ 8)
      × ((after pic2_cmd chip2 (pic_irqmask mask cpu).accesses).mask ≡ mask / 2 ^ 8)
unfolding pic_irqmask
pic_irqmask-masks chip1 chip2 mask cpu h r1 r2 =
    let e1 : bit_and mask 0xFF % 2 ^ 8 ≡ mask % 2 ^ 8 = omega (arith, bit_and_low 8 mask) in
    let e2 : bit_and mask 0xFF00 / 2 ^ 8 % 2 ^ 8 ≡ mask / 2 ^ 8 =
      omega (arith, bit_and_shifted 8 mask 0xFF, bit_and_low 8 (mask / 2 ^ 8)) in
    (rw (r1, e1) refl, rw (r2, e2) refl)
