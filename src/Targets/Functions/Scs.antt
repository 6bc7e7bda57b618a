-- ===== src/Targets/Functions/Scs.antt =====
-- The debug core registers of `targets/targetfuncs.nut`.
use swagger.Prelude.{ℕ}

abbrev pub dhcsr : ℕ
dhcsr = 0xE000_EDF0

abbrev pub dcrsr : ℕ
dcrsr = 0xE000_EDF4

abbrev pub dcrdr : ℕ
dcrdr = 0xE000_EDF8

-- `DCRSR_WRITE`
abbrev pub write_register : ℕ
write_register = 0x0001_0000
