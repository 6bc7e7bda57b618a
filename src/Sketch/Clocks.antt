-- ===== src/Sketch/Clocks.antt =====
-- How many clock cycles the sketch makes.
use swagger.Prelude.{
  ℕ, ◌+◌, ◌≡◌, Bool, true, false, Option, none, some, [], ◌∷◌, ◌==◌, ◌&&◌, if◌then◌else◌,
}
use swagger.Arduino.{digital_write}
use swagger.Sketch.{SketchCall, arduino, Trace, swdclk_pin}

-- A rise of the clock pin.
pub rises : SketchCall → ℕ
rises (arduino (digital_write pin level)) = if (pin == swdclk_pin) && level then 1 else 0
rises c = 0

pub clocks : Trace → ℕ
clocks [] = 0
clocks (c ∷ w) = clocks w + rises c

-- The result of a transaction and its clock cycles, by the acknowledge and the direction.
pub IsResult : (acknowledged RnW : Bool) → Option ℕ → (cycles : ℕ) → Type 0
IsResult false RnW result cycles = (result ≡ some 0) × (cycles ≡ 13)
IsResult true true result cycles = ((word : ℕ) × (result ≡ some word)) × (cycles ≡ 47)
IsResult true false result cycles = (result ≡ none) × (cycles ≡ 48)
