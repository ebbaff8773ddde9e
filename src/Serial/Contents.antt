-- ===== src/Serial/Contents.antt =====
-- The bytes that wait in the ring, oldest first.
use boot.Base.{ℕ, zero, suc, ◌+◌, ◌-◌, ◌%◌, ◌^◌, ◌≤◌, ◌<◌, ◌≡◌, refl, ap, List, [], ◌∷◌, arith, ◌∙◌}
use boot.Base.{length, get_or, take, drop, ◌++◌, take-drop-cons}
use native.Mathlib.Nat.{add-zero}
use mathlib.Core.Path.{ap₂}
use boot.Serial.{Serial, serial_bufsize}
use boot.RingBuf.FirstLap.{IsCounting}

-- `n` bytes from the count `c` on, round the ring.
abbrev pub window : List ℕ → ℕ → ℕ → List ℕ
window buffer c zero = []
window buffer c (suc n) = get_or buffer (c % serial_bufsize) 0 ∷ window buffer (c + 1) n

-- The port is well formed: `written` bytes went into its ring and `taken` came out, and the ones in
-- between wait as `waiting`.
pub record IsHolding (port : Serial) (written taken : ℕ) (waiting : List ℕ) : Type 0 where
  pub counting : IsCounting 6 written taken port.hdr
  pub sized : length port.buffer ≡ serial_bufsize
  pub wide : port.port < 2 ^ 15
  pub holds : waiting ≡ window port.buffer taken (written - taken)

pub length-window : (buffer : List ℕ) (c n : ℕ) → length (window buffer c n) ≡ n
length-window buffer c zero = refl
length-window buffer c (suc n) = ap suc (length-window buffer (c + 1) n)

-- Two buffers that agree at the places of a window have the same window.
pub window_ext :
    (b b' : List ℕ) (c n : ℕ)
    → ((k : ℕ)
        → k < n
        → get_or b ((c + k) % serial_bufsize) 0 ≡ get_or b' ((c + k) % serial_bufsize) 0)
    → window b c n ≡ window b' c n
window_ext b b' c zero h = refl
window_ext b b' c (suc n) h = ap₂ ◌∷◌ (rw add-zero at (h 0 (omega arith))) (
    window_ext b b' (c + 1) n
      (λ k hk. let e : c + suc k ≡ c + 1 + k = omega arith in rw e at (h (suc k) (omega arith))))

-- A window whose bytes are those of a list is that list.
pub window_of :
    (b : List ℕ) (c : ℕ) (bytes : List ℕ)
    → ((k : ℕ) → k < length bytes → get_or b ((c + k) % serial_bufsize) 0 ≡ get_or bytes k 0)
    → window b c (length bytes) ≡ bytes
window_of b c [] h = refl
window_of b c (x ∷ bytes) h = ap₂ ◌∷◌ (rw add-zero at (h 0 (omega arith))) (
    window_of b (c + 1) bytes
      (λ k hk. let e : c + suc k ≡ c + 1 + k = omega arith in rw e at (h (suc k) (omega arith))))

pub window-append :
    (b : List ℕ) (c m n : ℕ) → window b c (m + n) ≡ window b c m ++ window b (c + m) n
window-append b c zero n = let e : 0 + n ≡ n = omega arith in rw (e, add-zero) refl
window-append b c (suc m) n =
    let e : suc m + n ≡ suc (m + n) = omega arith in
    let e' : c + suc m ≡ c + 1 + m = omega arith in
    rw (e, e') (ap (λ t. get_or b (c % serial_bufsize) 0 ∷ t) (window-append b (c + 1) m n))

pub take-window : (b : List ℕ) (c m n : ℕ) → m ≤ n → take m (window b c n) ≡ window b c m
take-window b c zero n h = refl
take-window b c (suc m) zero h = elim h [ ]
take-window b c (suc m) (suc n) h =
    ap (λ t. get_or b (c % serial_bufsize) 0 ∷ t) (take-window b (c + 1) m n (omega arith))

pub drop-window :
    (b : List ℕ) (c m n : ℕ) → m ≤ n → drop m (window b c n) ≡ window b (c + m) (n - m)
drop-window b c zero n h = let e : n - 0 ≡ n = omega arith in rw (e, add-zero) refl
drop-window b c (suc m) zero h = elim h [ ]
drop-window b c (suc m) (suc n) h =
    let e : suc n - suc m ≡ n - m = omega arith in
    let e' : c + suc m ≡ c + 1 + m = omega arith in
    rw (e, e') (drop-window b (c + 1) m n (omega arith))

-- A stretch of the buffer that does not run over the end is a window.
pub take-drop-window :
    (b : List ℕ) (i c n : ℕ)
    → c % serial_bufsize ≡ i
    → i + n ≤ serial_bufsize
    → length b ≡ serial_bufsize
    → take n (drop i b) ≡ window b c n
take-drop-window b i c zero e fits sized = refl
take-drop-window b i c (suc zero) e fits sized = rw (take-drop-cons 0 i b 0 (omega arith), e) refl
take-drop-window b i c (suc (suc n)) e fits sized =
    rw (take-drop-cons (suc n) i b 0 (omega arith), e)
      (ap (λ t. get_or b i 0 ∷ t)
        (take-drop-window b (suc i) (c + 1) (suc n) (omega arith) (omega arith) sized))

pub length-waiting :
    {port : Serial} {w t : ℕ} {waiting : List ℕ}
    → IsHolding port w t waiting
    → length waiting ≡ w - t
length-waiting {port} {w} {t} g = ap length g.holds ∙ length-window port.buffer t (w - t)
