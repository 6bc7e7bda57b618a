-- ===== src/Swd/View.antt =====
-- What the target sees of the calls: the levels, and the bits that the driver clocks in.
use swagger.Prelude.{
  ℕ, zero, suc, ◌+◌, ◌≡◌, refl, ◌∙◌, ap, sym, replicate, Bool, true, false, List, [], ◌∷◌, ◌++◌,
  append_assoc, append-nil, arith, if◌then◌else◌, length, length-append,
}
use mathlib.Core.Path.{subst}
use swagger.Swd.{
  PinCall, config_data_pin, set_data_pin, set_clock_pin, get_data_pin, do_delay, Wire, write_bit,
  write_same, line_idle, line_reset, read_bit, skip_bits, clock_strobe, sample,
}

-- `bits` are the levels at the rising edges of the clock while the data pin was an output, and
-- `samples` counts the reads of the data pin.
pub record View : Type 0 where
  pub level : Bool
  pub driven : Bool
  pub clock : Bool
  pub bits : List Bool
  pub samples : ℕ

rise : View → View
rise v = record v {
  clock = true;
  bits = if v.clock then v.bits else if v.driven then v.bits ++ (v.level ∷ []) else v.bits;
}

see : PinCall → View → View
unfolding rise
see (config_data_pin output) v = record v { driven = output }
see (set_data_pin b) v = record v { level = b }
see (set_clock_pin true) v = rise v
see (set_clock_pin false) v = record v { clock = false }
see (get_data_pin b) v = record v { samples = v.samples + 1 }
see do_delay v = v

unfoldable pub view : Wire → View
unfolding see
view [] = record { level = false; driven = false; clock = false; bits = []; samples = 0 }
view (c ∷ w) = see c (view w)

-- What the target answers to the reads of the data pin, the oldest first.
unfoldable pub heard : (target : Wire → Bool) → Wire → List Bool
heard target [] = []
heard target (get_data_pin b ∷ w) = heard target w ++ (target w ∷ [])
heard target (config_data_pin b ∷ w) = heard target w
heard target (set_data_pin b ∷ w) = heard target w
heard target (set_clock_pin b ∷ w) = heard target w
heard target (do_delay ∷ w) = heard target w

-- Between two wires the target answers `n` times.
unfoldable pub Hears : (target : Wire → Bool) (w w' : Wire) (n : ℕ) → Type 0
Hears target w w' n =
    (answers : List Bool) × (length answers ≡ n) × (heard target w' ≡ heard target w ++ answers)

pub Hears-refl :
    (target : Wire → Bool) (w w' : Wire) → heard target w' ≡ heard target w → Hears target w w' 0
unfolding Hears
Hears-refl target w w' e = ([], refl, e ∙ sym (append-nil (heard target w)))

pub Hears-trans :
    (target : Wire → Bool) (w w' w'' : Wire) (n m : ℕ)
    → Hears target w w' n
    → Hears target w' w'' m
    → Hears target w w'' (n + m)
unfolding Hears
Hears-trans target w w' w'' n m (a, la, ea) (b, lb, eb) = (
  a ++ b,
  omega (arith, length-append a b, la, lb),
  eb ∙ ap (λ t. t ++ b) ea ∙ append_assoc (heard target w) a b,
)

-- Between two wires the driver sent `sent`, read the pin `read` times, and left the pin an output
-- or not.
pub record Clocks (w w' : Wire) (output : Bool) (sent : List Bool) (read : ℕ) : Type 0 where
  pub driven : (view w').driven ≡ output
  pub bits : (view w').bits ≡ (view w).bits ++ sent
  pub samples : (view w').samples ≡ (view w).samples + read
  pub hears : (target : Wire → Bool) → Hears target w w' read

pub Clocks-trans :
    {w w' w'' : Wire} {d e : Bool} {a b : List Bool} {n m : ℕ}
    → Clocks w w' d a n
    → Clocks w' w'' e b m
    → Clocks w w'' e (a ++ b) (n + m)
Clocks-trans {w} {w'} {w''} {a} {b} {n} {m} p q = record {
  driven = q.driven;
  bits = q.bits ∙ ap (λ t. t ++ b) p.bits ∙ append_assoc (view w).bits a b;
  samples = omega (arith, p.samples, q.samples);
  hears = λ target. Hears-trans target w w' w'' n m (p.hears target) (q.hears target);
}

pub Clocks-recount :
    {w w' : Wire} {d : Bool} {a : List Bool} {n m : ℕ}
    → Clocks w w' d a n
    → n ≡ m
    → Clocks w w' d a m
Clocks-recount {w} {w'} p e = record {
  driven = p.driven;
  bits = p.bits;
  samples = omega (arith, p.samples);
  hears = λ target. subst (λ t. Hears target w w' t) e (p.hears target);
}

module _ (w : Wire) where
  pub Clocks-refl : (d : Bool) → (view w).driven ≡ d → Clocks w w d [] 0
  Clocks-refl d h = record {
    driven = h;
    bits = sym (append-nil (view w).bits);
    samples = omega arith;
    hears = λ target. Hears-refl target w w refl;
  }

  pub config_data_pin-Clocks : (b : Bool) → Clocks w (config_data_pin b ∷ w) b [] 0
  unfolding view heard
  config_data_pin-Clocks b = record {
    driven = refl;
    bits = sym (append-nil (view w).bits);
    samples = omega arith;
    hears = λ target. Hears-refl target w _ refl;
  }

  pub set_data_pin-Clocks :
      (b d : Bool) → (view w).driven ≡ d → Clocks w (set_data_pin b ∷ w) d [] 0
  unfolding view heard
  set_data_pin-Clocks b d h = record {
    driven = h;
    bits = sym (append-nil (view w).bits);
    samples = omega arith;
    hears = λ target. Hears-refl target w _ refl;
  }

  pub write_bit-Clocks :
      (b : Bool) → (view w).driven ≡ true → Clocks w (write_bit b w).1 true (b ∷ []) 0
  unfolding view heard write_bit clock_strobe
  write_bit-Clocks b h = record {
    driven = h;
    bits = rw h;
    samples = omega arith;
    hears = λ target. Hears-refl target w _ refl;
  }

  pub read_bit-Clocks :
      (target : Wire → Bool) → (view w).driven ≡ false → Clocks w (read_bit target w).1 false [] 1
  unfolding view heard Hears read_bit sample
  read_bit-Clocks target h = record {
    driven = h;
    bits = rw h (sym (append-nil (view w).bits));
    samples = refl;
    hears = λ t. (t (do_delay ∷ set_clock_pin false ∷ w) ∷ [], refl, refl);
  }

pub write_same-Clocks :
    (n : ℕ) (b : Bool) (w : Wire)
    → (view w).driven ≡ true
    → Clocks w (write_same n b w).1 true (replicate n b) 0
unfolding write_same
write_same-Clocks zero b w h = Clocks-refl w true h
write_same-Clocks (suc n) b w h =
    let p = write_bit-Clocks w b h in
    Clocks-trans p (write_same-Clocks n b (write_bit b w).1 p.driven)

pub skip_bits-Clocks :
    (target : Wire → Bool) (n : ℕ) (w : Wire)
    → (view w).driven ≡ false
    → Clocks w (skip_bits target n w).1 false [] n
unfolding skip_bits
skip_bits-Clocks target zero w h = Clocks-refl w false h
skip_bits-Clocks target (suc n) w h =
    let p = read_bit-Clocks w target h in
    let q = skip_bits-Clocks target n (read_bit target w).1 p.driven in
    let both = Clocks-trans p q in Clocks-recount both (omega arith)

-- `lineIdle` sends eight zero bits, `lineReset` 64 ones, whatever the pin was before.
pub line_idle-Clocks : (w : Wire) → Clocks w (line_idle w).1 true (replicate 8 false) 0
unfolding line_idle
line_idle-Clocks w =
    let w' = config_data_pin true ∷ set_data_pin false ∷ w in
    let p = set_data_pin-Clocks w false (view w).driven refl in
    let q = config_data_pin-Clocks (set_data_pin false ∷ w) true in
    Clocks-trans (Clocks-trans p q) (write_same-Clocks 8 false w' q.driven)

pub line_reset-Clocks : (w : Wire) → Clocks w (line_reset w).1 true (replicate 64 true) 0
unfolding line_reset
line_reset-Clocks w =
    let q = config_data_pin-Clocks w true in
    Clocks-trans q (write_same-Clocks 64 true (config_data_pin true ∷ w) q.driven)
