-- ===== src/Panic/Sent.antt =====
-- What a panic sends to COM1 when the port is always ready.
use boot.Base.{
  ℕ, zero, suc, ◌+◌, ◌≡◌, refl, ◌∙◌, ap, sym, List, [], ◌∷◌, ◌++◌, bit_and, ◌==◌, if◌then◌else◌,
  Option, none, some, Bool, true, false, u8, Outcome, ok, panic, fault, ◌>>=◌,
}
use boot.Ports.{Cpu, Device, Access, wrote, read, outb}
use boot.Serial.{serial_com1}
use boot.Text.Format.{Formatted, text, string, null, getfmt}
use boot.Panic
use boot.Ports.{cli}
use boot.Serial.{ser_init_poll}
use boot.Panic.{
  Waiting, and_then, done, assert_ser_write, write_text, write_string, write_formatted,
  write_format,
}

-- The bytes that were written to the data port, the latest first.
abbrev pub sent : List Access → List ℕ
sent [] = []
sent (wrote port val ∷ accesses) =
    let before = sent accesses in if port == serial_com1 then val ∷ before else before
sent (read port val ∷ accesses) = sent accesses

-- The transmitter is always empty.
abbrev pub IsReady : Device → Type 0
IsReady device =
    (accesses : List Access) → bit_and (u8 (device accesses (serial_com1 + 5))) 0x20 ≡ 0x20

abbrev pub sent_after : List ℕ → List ℕ → List ℕ
sent_after [] old = old
sent_after (b ∷ bytes) old = sent_after bytes (u8 b ∷ old)

sent_after-append :
    (xs ys old : List ℕ) → sent_after (xs ++ ys) old ≡ sent_after ys (sent_after xs old)
sent_after-append [] ys old = refl
sent_after-append (x ∷ xs) ys old = sent_after-append xs ys (u8 x ∷ old)

-- The message, as a text: nothing where the code reads what is not there.
abbrev pub both : Option (List ℕ) → Option (List ℕ) → Option (List ℕ)
both none n = none
both (some xs) none = none
both (some xs) (some ys) = some (xs ++ ys)

abbrev pub text_of : List ℕ → Option (List ℕ)
text_of [] = none
text_of (c ∷ buf) =
    let rest = both (some (c ∷ [])) (text_of buf) in if c == 0 then some [] else rest

abbrev pub string_of : ℕ → (ℕ → ℕ) → ℕ → Option (List ℕ)
string_of zero memory buf = none
string_of (suc rounds) memory buf =
    let rest = both (some (memory buf ∷ [])) (string_of rounds memory (buf + 1)) in
    if memory buf == 0 then some [] else rest

abbrev pub formatted_of : ℕ → (ℕ → ℕ) → Formatted → Option (List ℕ)
formatted_of fuel memory (text buf) = text_of buf
formatted_of fuel memory (string s) = string_of fuel memory s
formatted_of fuel memory null = none

abbrev pub if_ok : {A : Type 0} → Outcome A → (A → Option (List ℕ)) → Option (List ℕ)
if_ok (ok a) f = f a
if_ok panic f = none
if_ok fault f = none

abbrev pub message : ℕ → (ℕ → ℕ) → List ℕ → List ℕ → Option (List ℕ)
message fuel memory [] args = none
message fuel memory (c ∷ []) args = if c == 0 then some [] else none
message fuel memory (c ∷ f ∷ fmt) args =
    let plain = both (some (c ∷ [])) (message fuel memory (f ∷ fmt) args) in
    let conversion =
      if_ok (getfmt f args)
        (λ (buf, args). both (formatted_of fuel memory buf) (message fuel memory fmt args)) in
    if c == 0 then some [] else if c == 37 then conversion else plain

-- A call returns, and sends the bytes.
abbrev pub Sends : Waiting → List ℕ → Type 0
Sends w bytes =
    (cpu : Cpu)
    → (cpu' : Cpu) × (w cpu ≡ ok (some cpu'))
      × (sent cpu'.accesses ≡ sent_after bytes (sent cpu.accesses))

abbrev pub SendsAs : Waiting → Option (List ℕ) → Type 0
SendsAs w none = Unit
SendsAs w (some bytes) = Sends w bytes

and_then-Sends :
    (v w : Waiting) (xs ys : List ℕ) → Sends v xs → Sends w ys → Sends (and_then v w) (xs ++ ys)
and_then-Sends v w xs ys p q cpu =
    let (cpu1, run1, sent1) = p cpu in
    let (cpu2, run2, sent2) = q cpu1 in
    (
      cpu2,
      rw run1 run2,
      sent2 ∙ (ap (sent_after ys) sent1 ∙ sym (sent_after-append xs ys (sent cpu.accesses))),
    )

and_then-SendsAs :
    (v w : Waiting) (m n : Option (List ℕ))
    → SendsAs v m
    → SendsAs w n
    → SendsAs (and_then v w) (both m n)
and_then-SendsAs v w none n p q = tt
and_then-SendsAs v w (some xs) none p q = tt
and_then-SendsAs v w (some xs) (some ys) p q = and_then-Sends v w xs ys p q

if-SendsAs :
    (b : Bool) (v w : Waiting) (m n : Option (List ℕ))
    → SendsAs v m
    → SendsAs w n
    → SendsAs (λ cpu. if b then v cpu else w cpu) (if b then m else n)
if-SendsAs true v w m n p q = p
if-SendsAs false v w m n p q = q

if_ok-SendsAs :
    {A : Type 0} (r : Outcome A) (w : A → Waiting) (m : A → Option (List ℕ))
    → ((a : A) → SendsAs (w a) (m a))
    → SendsAs (λ cpu. r >>= λ a. w a cpu) (if_ok r m)
if_ok-SendsAs (ok a) w m p = p a
if_ok-SendsAs panic w m p = tt
if_ok-SendsAs fault w m p = tt

done-Sends : Sends done []
done-Sends cpu = (cpu, refl, refl)

module _ (fuel : ℕ) (device : Device) (ready : IsReady device) where
  assert_ser_write-Sends : (c : ℕ) → Sends (assert_ser_write (suc fuel) device c) (c ∷ [])
  unfolding assert_ser_write
  assert_ser_write-Sends c cpu =
      let status = u8 (device cpu.accesses (serial_com1 + 5)) in
      (
        outb serial_com1 c (record cpu { accesses = read (serial_com1 + 5) status ∷ cpu.accesses }),
        rw (ready cpu.accesses) refl,
        refl,
      )

  write_text-SendsAs : (buf : List ℕ) → SendsAs (write_text (suc fuel) device buf) (text_of buf)
  unfolding write_text
  write_text-SendsAs [] = tt
  write_text-SendsAs (c ∷ buf) =
      let w = assert_ser_write (suc fuel) device c in
      if-SendsAs (c == 0) done (and_then w (write_text (suc fuel) device buf)) (some [])
        (both (some (c ∷ [])) (text_of buf)) done-Sends
        (and_then-SendsAs w (write_text (suc fuel) device buf) (some (c ∷ [])) (text_of buf)
          (assert_ser_write-Sends c) (write_text-SendsAs buf))

  write_string-SendsAs :
      (rounds : ℕ) (memory : ℕ → ℕ) (buf : ℕ)
      → SendsAs (write_string (suc fuel) device rounds memory buf) (string_of rounds memory buf)
  unfolding write_string
  write_string-SendsAs zero memory buf = tt
  write_string-SendsAs (suc rounds) memory buf =
      let c = memory buf in
      let w = assert_ser_write (suc fuel) device c in
      let later = write_string (suc fuel) device rounds memory (buf + 1) in
      if-SendsAs (c == 0) done (and_then w later) (some [])
        (both (some (c ∷ [])) (string_of rounds memory (buf + 1))) done-Sends
        (and_then-SendsAs w later (some (c ∷ [])) (string_of rounds memory (buf + 1))
          (assert_ser_write-Sends c) (write_string-SendsAs rounds memory (buf + 1)))

  write_formatted-SendsAs :
      (memory : ℕ → ℕ) (buf : Formatted)
      → SendsAs (write_formatted (suc fuel) device memory buf) (formatted_of (suc fuel) memory buf)
  unfolding write_formatted
  write_formatted-SendsAs memory (text buf) = write_text-SendsAs buf
  write_formatted-SendsAs memory (string s) = write_string-SendsAs (suc fuel) memory s
  write_formatted-SendsAs memory null = tt

  write_format-SendsAs :
      (memory : ℕ → ℕ) (fmt args : List ℕ)
      → SendsAs
          (write_format (suc fuel) device memory fmt args)
          (message (suc fuel) memory fmt args)
  unfolding write_format
  write_format-SendsAs memory [] args = tt
  write_format-SendsAs memory (c ∷ []) args =
      if-SendsAs (c == 0) done (λ cpu. fault) (some []) none done-Sends tt
  write_format-SendsAs memory (c ∷ f ∷ fmt) args =
      let run = write_format (suc fuel) device memory in
      let said = message (suc fuel) memory in
      let w = assert_ser_write (suc fuel) device c in
      let shown = write_formatted (suc fuel) device memory in
      let plain =
        and_then-SendsAs w (run (f ∷ fmt) args) (some (c ∷ [])) (said (f ∷ fmt) args)
          (assert_ser_write-Sends c) (write_format-SendsAs memory (f ∷ fmt) args) in
      let conversion =
        if_ok-SendsAs (getfmt f args) (λ (buf, args). and_then (shown buf) (run fmt args))
          (λ (buf, args). both (formatted_of (suc fuel) memory buf) (said fmt args))
          (λ (buf, args).
            and_then-SendsAs (shown buf) (run fmt args) (formatted_of (suc fuel) memory buf)
              (said fmt args) (write_formatted-SendsAs memory buf)
              (write_format-SendsAs memory fmt args)) in
      if-SendsAs (c == 0) done _ (some []) _ done-Sends
        (if-SendsAs (c == 37) _ _ _ _ conversion plain)

-- On a port that is always ready, with fuel for one round of each wait, a `panic` whose message has a
-- text returns to its last loop, and what it sent to COM1 is that text, byte by byte and in order,
-- behind the divisor of `ser_init_poll`.
pub panic-message :
    (fuel : ℕ) (device : Device) (memory : ℕ → ℕ) (fmt args bytes : List ℕ) (cpu : Cpu)
    → IsReady device
    → message (suc fuel) memory fmt args ≡ some bytes
    → (cpu' : Cpu) × (Panic.panic (suc fuel) device memory fmt args cpu ≡ ok (some cpu'))
      × (sent cpu'.accesses ≡ sent_after bytes (3 ∷ sent cpu.accesses))
unfolding boot.Panic.panic ser_init_poll
panic-message fuel device memory fmt args bytes cpu ready said =
    let sends : Sends (write_format (suc fuel) device memory fmt args) bytes =
      rw said at (write_format-SendsAs fuel device ready memory fmt args) in
    sends (ser_init_poll (cli cpu))
