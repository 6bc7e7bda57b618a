-- ===== src/Swd.antt =====
-- `firmware/arduino_nano/swdinterface/low_level.cpp` and `low_level.h`: the driver of the two wires
-- of a single-wire debug port. The pins are virtual functions of `SWDInterfaceBase`; a call of one
-- is an entry of a list, newest first. What `getDataPin` answers is the target's choice: any
-- function of the calls made so far.
pub mod Parity
pub mod View
pub mod Word
pub mod Ack
pub mod Write
pub mod Read
pub mod Connect
use Prim.Native.Nat.{bit_and, bit_or, bit_xor}
use mathlib.Core.Bool.{xor}
use swagger.Prelude.{ℕ, zero, suc, ◌/◌, ◌^◌, Bool, true, false, ◌||◌, List, [], ◌∷◌}
use swagger.Prelude.{ltb, ◌==◌, if◌then◌else◌}

pub data PinCall : Type 0 where
  config_data_pin set_data_pin set_clock_pin : Bool → PinCall
  get_data_pin : Bool → PinCall
  do_delay : PinCall

-- The calls so far, newest first.
abbrev pub Wire : Type 0
Wire = List PinCall

-- `SWD_OK`, `SWD_WAIT` and `SWD_FAIL`.
abbrev pub swd_ok : ℕ
swd_ok = 1

abbrev pub swd_wait : ℕ
swd_wait = 2

abbrev pub swd_fail : ℕ
swd_fail = 4

-- A function that calls pins and returns a value.
abbrev pub Swd : Type 0 → Type 0
Swd A = Wire → A × Wire

infixl 5 ◌>>=◌ ◌>>◌
abbrev pub ◌>>=◌ : {A B : Type 0} → Swd A → (A → Swd B) → Swd B
◌>>=◌ m f w = let (a, w') = m w in f a w'

abbrev pub ◌>>◌ : {B : Type 0} → Swd (Unit {0}) → Swd B → Swd B
◌>>◌ m k w = k (m w).1

abbrev pub pure : {A : Type 0} → A → Swd A
pure a w = (a, w)

abbrev pub call : PinCall → Swd (Unit {0})
call c w = (tt, c ∷ w)

-- A `bool` in an `int` place.
abbrev pub to_int : Bool → ℕ
to_int true = 1
to_int false = 0

-- `x ^= x >> k` for k = 1, 2, 4, 8, 16, and the lowest bit.
pub calc_parity : ℕ → ℕ
calc_parity x =
    let y = bit_xor x (x / 2 ^ 1) in
    let y = bit_xor y (y / 2 ^ 2) in
    let y = bit_xor y (y / 2 ^ 4) in
    let y = bit_xor y (y / 2 ^ 8) in let y = bit_xor y (y / 2 ^ 16) in to_int (ltb 0 (bit_and y 1))

pub init_pins : Swd (Unit {0})
init_pins = do call (set_data_pin false); call (set_clock_pin false); call (config_data_pin true)

pub clock_strobe : Swd (Unit {0})
clock_strobe = do
  call (set_clock_pin false)
  call do_delay
  call (set_clock_pin true)
  call do_delay

pub write_bit : Bool → Swd (Unit {0})
unfolding clock_strobe
write_bit v = do call (set_data_pin v); clock_strobe

-- A loop of `rounds` rounds that writes the lowest bit and shifts.
pub write_bits : ℕ → ℕ → Swd (Unit {0})
write_bits zero bits = pure tt
write_bits (suc rounds) bits = do write_bit (ltb 0 (bit_and bits 1)); write_bits rounds (bits / 2)

pub write_byte : ℕ → Swd (Unit {0})
write_byte = write_bits 8

pub write_word32 : ℕ → Swd (Unit {0})
write_word32 = write_bits 32

-- `for (…; i < rounds; …) writeBit(v)`
pub write_same : ℕ → Bool → Swd (Unit {0})
write_same zero v = pure tt
write_same (suc rounds) v = do write_bit v; write_same rounds v

pub line_reset : Swd (Unit {0})
line_reset = do call (config_data_pin true); write_same 64 true

pub line_idle : Swd (Unit {0})
line_idle = do call (set_data_pin false); call (config_data_pin true); write_same 8 false

-- The request: a zero bit, start, AP or DP, read or write, the address, parity, stop, park.
-- Both transactions write it bit by bit; `seed` is the 1 or 0 that their parity begins with.
pub write_request : (seed read APnDP : Bool) → (address : ℕ) → Swd (Unit {0})
write_request seed read APnDP address = do
  call (config_data_pin true)
  write_bit false
  let a0 = ltb 0 (bit_and address 0x01)
  let a1 = ltb 0 (bit_and address 0x02)
  let parity = xor (xor (xor seed APnDP) a0) a1
  write_bit true
  write_bit APnDP
  write_bit read
  write_bit a0
  write_bit a1
  write_bit parity
  write_bit false
  write_bit true

-- `target` answers `getDataPin`, from the calls before it.
module _ (target : Wire → Bool) where
  pub sample : Swd Bool
  sample w = (target w, get_data_pin (target w) ∷ w)

  pub read_bit : Swd Bool
  unfolding sample
  read_bit = do
    call (set_clock_pin false)
    call do_delay
    b ← sample
    call (set_clock_pin true)
    call do_delay
    pure b

  -- The ACK bits, lowest first.
  pub read_ack : Swd ℕ
  read_ack = do
    call (config_data_pin false)
    b0 ← read_bit
    b1 ← read_bit
    b2 ← read_bit
    let swdcode = if b0 then bit_or 0 1 else 0
    let swdcode = if b1 then bit_or swdcode 2 else swdcode
    pure (if b2 then bit_or swdcode 4 else swdcode)

  -- `data >>= 1; if (readBit()) data |= 0x80000000;`
  pub read_bits : ℕ → ℕ → Swd ℕ
  read_bits zero word = pure word
  read_bits (suc rounds) word = do
    b ← read_bit
    read_bits rounds (if b then bit_or (word / 2) 0x8000_0000 else word / 2)

  -- `for (i = 0; i < rounds; i++) readBit();`
  pub skip_bits : ℕ → Swd (Unit {0})
  skip_bits zero = pure tt
  skip_bits (suc rounds) = do _ ← read_bit; skip_bits rounds

  -- `configDataPin(false); readBit(); readAck()`
  pub turn_and_ack : Swd ℕ
  turn_and_ack = do call (config_data_pin false); _ ← read_bit; read_ack

  -- After `SWD_FAIL` or `SWD_WAIT`.
  pub release_line : Swd (Unit {0})
  release_line = do _ ← read_bit; call (config_data_pin true); call (set_data_pin true)

  -- After any other code: 33 bits are eaten.
  pub protocol_error : Swd (Unit {0})
  protocol_error = do skip_bits 33; line_idle; call (set_data_pin true)

  -- After `SWD_OK`, a word and its parity bit are read; a wrong parity makes the code 4.
  pub read_phase : Swd (ℕ × ℕ)
  read_phase = do
    word ← read_bits 32 0
    parity ← read_bit
    let swdcode = if calc_parity word == to_int parity then swd_ok else 4
    call (config_data_pin true)
    write_bit false
    line_idle
    call (set_data_pin true)
    pure (swdcode, word)

  pub write_phase : ℕ → Swd (Unit {0})
  write_phase word = do
    _ ← read_bit
    call (config_data_pin true)
    write_word32 word
    write_bit (ltb 0 (calc_parity word))
    line_idle
    call (set_data_pin true)

  -- What follows the ACK, on each of its branches. `data` is the caller's variable, which holds
  -- `old` and is written only after `SWD_OK`.
  pub finish_read : (swdcode old : ℕ) → Swd (ℕ × ℕ)
  finish_read swdcode old =
      if swdcode == swd_ok
      then read_phase
      else if (swdcode == swd_fail) || (swdcode == swd_wait)
      then (do release_line; pure (swdcode, old))
      else (do protocol_error; pure (swdcode, old))

  pub finish_write : (swdcode word : ℕ) → Swd ℕ
  finish_write swdcode word =
      if swdcode == swd_ok
      then (do write_phase word; pure swdcode)
      else if (swdcode == swd_fail) || (swdcode == swd_wait)
      then (do release_line; pure swdcode)
      else (do protocol_error; pure swdcode)

  -- Returns the code and `data`.
  pub do_read_transaction : (APnDP : Bool) (address old : ℕ) → Swd (ℕ × ℕ)
  do_read_transaction APnDP address old = do
    write_request true true APnDP address
    swdcode ← turn_and_ack
    finish_read swdcode old

  pub do_write_transaction : (APnDP : Bool) (address word : ℕ) → Swd ℕ
  do_write_transaction APnDP address word = do
    write_request false false APnDP address
    swdcode ← turn_and_ack
    finish_write swdcode word

  -- Returns the code and `idcode`.
  pub do_connect : Swd (ℕ × ℕ)
  do_connect = do
    call (config_data_pin true)
    line_reset
    write_word32 0xE79E
    line_reset
    line_idle
    call (set_data_pin true)
    do_read_transaction false 0 0
