-- ===== src/Arduino.antt =====
-- The calls of the Arduino library that the firmware makes, as data, and the pin functions of
-- `ArduinoSWDInterface` (`mid_level.cpp`) in terms of them.
use swagger.Prelude.{ℕ, Bool, true, false, List, if◌then◌else◌}
use swagger.Swd.{PinCall, config_data_pin, set_data_pin, set_clock_pin, get_data_pin, do_delay}

pub data ArduinoCall : Type 0 where
  pin_mode digital_write : (pin : ℕ) → Bool → ArduinoCall
  digital_read : (pin : ℕ) → (level : Bool) → ArduinoCall
  delay_microseconds : ℕ → ArduinoCall
  serial_begin : (baud : ℕ) → ArduinoCall
  serial_write : List ℕ → ArduinoCall
  serial_flush : ArduinoCall

abbrev pub low : Bool
low = false

abbrev pub high : Bool
high = true

-- `pinMode` takes `true` for `OUTPUT`.
abbrev pub output : Bool
output = true

abbrev pub input : Bool
input = false

abbrev pub led_pin : ℕ
led_pin = 13

abbrev pub swdclk_pin : ℕ
swdclk_pin = 2

abbrev pub swddat_pin : ℕ
swddat_pin = 3

abbrev pub reset_pin : ℕ
reset_pin = 4

abbrev pub gnd_pin : ℕ
gnd_pin = 5

abbrev pub swddelay_us : ℕ
swddelay_us = 1

-- `configDataPin`, `setDataPin`, `setClockPin`, `getDataPin` and `doDelay`.
unfoldable pub pin_call : PinCall → ArduinoCall
pin_call (config_data_pin out) =
    if out then pin_mode swddat_pin output else pin_mode swddat_pin input
pin_call (set_data_pin v) =
    if v then digital_write swddat_pin high else digital_write swddat_pin low
pin_call (set_clock_pin v) =
    if v then digital_write swdclk_pin high else digital_write swdclk_pin low
pin_call (get_data_pin b) = digital_read swddat_pin b
pin_call do_delay = delay_microseconds swddelay_us

-- `setReset`: the pin is active low.
unfoldable pub set_reset : Bool → ArduinoCall
set_reset v = if v then digital_write reset_pin low else digital_write reset_pin high
