-- ===== src/Sketch.antt =====
-- `firmware/arduino_nano/swdtest/swdtest.ino`: a sketch that reads the IDCODE of a part over and
-- over. A call of the Arduino library is an entry of a trace, newest first; what a pin reads is the
-- target's choice: any function of the calls made so far.
use Prim.Native.Nat.{bit_and, bit_or, bit_xor}
use mathlib.Core.Bool.{xor}
use swagger.Prelude.{
  ℕ, zero, suc, ◌+◌, ◌*◌, ◌/◌, ◌%◌, ◌^◌, Bool, true, false, Option, none, some, List, ◌∷◌, ltb, leb,
  ◌==◌, if◌then◌else◌,
}
use swagger.Arduino.{
  ArduinoCall, pin_mode, digital_write, digital_read, delay_microseconds, serial_begin, high, low,
  output, input,
}
pub mod Clocks

-- `Serial.println` of the two texts, `Serial.print` of the heading, and a number in hexadecimal.
pub data SketchCall : Type 0 where
  arduino : ArduinoCall → SketchCall
  print_error : SketchCall
  print_ok : SketchCall
  print_heading : SketchCall
  print_hex : Option ℕ → SketchCall

abbrev pub led_pin : ℕ
led_pin = 13

abbrev pub swddat_pin : ℕ
swddat_pin = 2

abbrev pub swdclk_pin : ℕ
swdclk_pin = 3

abbrev pub swddelay_us : ℕ
swddelay_us = 100

abbrev pub Trace : Type 0
Trace = List SketchCall

abbrev pub Sketch : Type 0 → Type 0
Sketch A = Trace → A × Trace

infixl 5 ◌>>=◌ ◌>>◌
abbrev pub ◌>>=◌ : {A B : Type 0} → Sketch A → (A → Sketch B) → Sketch B
◌>>=◌ m f w = let (a, w') = m w in f a w'

abbrev pub ◌>>◌ : {B : Type 0} → Sketch (Unit {0}) → Sketch B → Sketch B
◌>>◌ m k w = k (m w).1

abbrev pub pure : {A : Type 0} → A → Sketch A
pure a w = (a, w)

abbrev pub call : ArduinoCall → Sketch (Unit {0})
call c w = (tt, arduino c ∷ w)

abbrev pub emit : SketchCall → Sketch (Unit {0})
emit c w = (tt, c ∷ w)

-- `y = x ^ (x >> 1)`, then `y ^= y >> k` for k = 2, 4, 8, 16, and the lowest bit.
pub calc_parity32 : ℕ → Bool
calc_parity32 x =
    let y = bit_xor x (x / 2 ^ 1) in
    let y = bit_xor y (y / 2 ^ 2) in
    let y = bit_xor y (y / 2 ^ 4) in
    let y = bit_xor y (y / 2 ^ 8) in let y = bit_xor y (y / 2 ^ 16) in ltb 0 (bit_and y 1)

pub swd_init_pins : Sketch (Unit {0})
swd_init_pins = do
  call (digital_write swdclk_pin low)
  call (digital_write swddat_pin low)
  call (pin_mode swddat_pin output)
  call (pin_mode swdclk_pin output)

pub swd_clock : Sketch (Unit {0})
swd_clock = do
  call (delay_microseconds swddelay_us)
  call (digital_write swdclk_pin high)
  call (delay_microseconds swddelay_us)
  call (digital_write swdclk_pin low)

pub swd_write_bit : Bool → Sketch (Unit {0})
swd_write_bit bit = do call (digital_write swddat_pin bit); swd_clock

-- `for (…; i < rounds; …) SWDWriteBit(bit)`
pub swd_repeat : ℕ → Bool → Sketch (Unit {0})
swd_repeat zero bit = pure tt
swd_repeat (suc rounds) bit = do swd_write_bit bit; swd_repeat rounds bit

-- The loop of `SWDWord`, the highest of 16 bits first.
pub word_loop : ℕ → ℕ → Sketch (Unit {0})
word_loop zero data' = pure tt
word_loop (suc rounds) data' = do
  swd_write_bit (leb 0x8000 data')
  word_loop rounds (data' * 2 % 2 ^ 16)

pub swd_word : ℕ → Sketch (Unit {0})
swd_word = word_loop 16

pub swd_line_reset : Sketch (Unit {0})
swd_line_reset = do call (pin_mode swddat_pin output); swd_repeat 64 true

pub swd_idle : Sketch (Unit {0})
swd_idle = do call (pin_mode swddat_pin output); swd_repeat 8 false

-- The loop that writes the word of a transaction, the lowest bit first.
pub write_loop : ℕ → ℕ → Sketch (Unit {0})
write_loop zero data' = pure tt
write_loop (suc rounds) data' = do
  swd_write_bit (ltb 0 (bit_and data' 1))
  write_loop rounds (data' / 2)

-- The three bits of the acknowledge are shifted in from the top.
pub ack_of : (b0 b1 b2 : Bool) → ℕ
ack_of b0 b1 b2 =
    let a = (if b0 then bit_or 0 0x04 else 0) / 2 in
    let a = (if b1 then bit_or a 0x04 else a) / 2 in if b2 then bit_or a 0x04 else a

module _ (target : Trace → Bool) where
  pub swd_read_bit : Sketch Bool
  swd_read_bit w = let b = target w in (b, (swd_clock (arduino (digital_read swddat_pin b) ∷ w)).1)

  -- The loop that reads a word, the lowest bit first, shifted in from the top.
  pub read_loop : ℕ → ℕ → Sketch ℕ
  read_loop zero result = pure result
  read_loop (suc rounds) result = do
    b ← swd_read_bit
    read_loop rounds (if b then bit_or (result / 2) 0x8000_0000 else result / 2)

  -- The swd_request, a turn-around bit and the acknowledge.
  pub swd_request : (APnDP RnW : Bool) (A23 : ℕ) → Sketch ℕ
  swd_request APnDP RnW A23 = do
    call (digital_write swddat_pin low)
    call (pin_mode swddat_pin output)
    swd_write_bit false
    let a0 = ltb 0 (bit_and A23 0x01)
    let a1 = ltb 0 (bit_and A23 0x02)
    swd_write_bit true
    swd_write_bit APnDP
    swd_write_bit RnW
    swd_write_bit a0
    swd_write_bit a1
    swd_write_bit (xor (xor (xor APnDP RnW) a0) a1)
    swd_write_bit false
    swd_write_bit true
    call (pin_mode swddat_pin input)
    _ ← swd_read_bit
    b0 ← swd_read_bit
    b1 ← swd_read_bit
    b2 ← swd_read_bit
    pure (ack_of b0 b1 b2)

  pub swd_write_phase : (data' : ℕ) → Sketch (Unit {0})
  swd_write_phase data' = do
    call (pin_mode swddat_pin output)
    _ ← swd_read_bit
    write_loop 32 data'
    swd_write_bit (calc_parity32 data')
    _ ← swd_read_bit
    pure tt

  -- The parity bit is read and not looked at.
  pub swd_read_phase : Sketch ℕ
  swd_read_phase = do result ← read_loop 32 0; _ ← swd_read_bit; _ ← swd_read_bit; pure result

  -- After the acknowledge. A write returns no value: the function runs off its end.
  pub swd_finish : (RnW : Bool) (data' ackbits : ℕ) → Sketch (Option ℕ)
  swd_finish RnW data' ackbits =
      if ackbits == 1
      then (if RnW
          then (do emit print_ok; result ← swd_read_phase; pure (some result))
          else (do emit print_ok; swd_write_phase data'; pure none))
      else (do emit print_error; pure (some 0))

  pub swd_transaction : (APnDP RnW : Bool) (A23 data' : ℕ) → Sketch (Option ℕ)
  swd_transaction APnDP RnW A23 data' = do
    ackbits ← swd_request APnDP RnW A23
    swd_finish RnW data' ackbits

  pub unlock_swd : Sketch (Unit {0})
  unlock_swd = do
    call (pin_mode swddat_pin output)
    call (delay_microseconds 1000)
    swd_repeat 64 true
    swd_word 0x79E7
    swd_repeat 64 true
    swd_idle
    emit print_heading
    idcode ← swd_transaction false true 0 0
    emit (print_hex idcode)

  -- `setup` up to its endless loop, and a round of that.
  pub sketch_setup : Sketch (Unit {0})
  sketch_setup = do
    call (serial_begin 19200)
    call (pin_mode led_pin output)
    call (digital_write led_pin low)
    swd_init_pins

  pub setup_round : Sketch (Unit {0})
  setup_round = do
    unlock_swd
    swd_idle
    call (delay_microseconds 200000)
    _ ← swd_transaction false false 1 0x5000_0000
    status ← swd_transaction false true 1 0
    emit (print_hex status)
