-- ===== src/Panic/Tests.antt =====
-- "E: %x" for the argument 7, on a port that is always ready.
use boot.Base.{ℕ, ◌≡◌, refl, List, [], ◌∷◌, ok, some}
use boot.Ports.{Cpu, Device}
use boot.Panic
use boot.Panic.Sent.{sent, sent_after, IsReady, message, panic-message}
use boot.Text.{fmt_uint, fmt_digits, hex_digit}
use boot.Text.Format.{getfmt}

abbrev fmt : List ℕ
fmt = 69 ∷ 58 ∷ 32 ∷ 37 ∷ 120 ∷ 0 ∷ []

abbrev empty : Device
empty accesses port = 0x60

abbrev cpu : Cpu
cpu = record { eflags = 0x200; accesses = [] }

empty-IsReady : IsReady empty
empty-IsReady accesses = refl

message_lem : message 12 (λ a. 0) fmt (7 ∷ []) ≡ some (69 ∷ 58 ∷ 32 ∷ 55 ∷ [])
unfolding getfmt fmt_uint fmt_digits hex_digit
message_lem = refl

panic-message_example :
    (cpu' : Cpu) × (Panic.panic 12 empty (λ a. 0) fmt (7 ∷ []) cpu ≡ ok (some cpu'))
    × (sent cpu'.accesses ≡ sent_after (69 ∷ 58 ∷ 32 ∷ 55 ∷ []) (3 ∷ sent cpu.accesses))
panic-message_example =
    panic-message 11 empty (λ a. 0) fmt (7 ∷ []) (69 ∷ 58 ∷ 32 ∷ 55 ∷ []) cpu empty-IsReady
      message_lem
