-- ===== src/Targets/Kinetis/Registers.antt =====
-- The registers and bits of `targets/nxp/kinetis.nut`.
use swagger.Prelude.{ℕ}

abbrev pub fstat : ℕ
fstat = 0x40020000

abbrev pub fccob_base : ℕ
fccob_base = 0x40020004

abbrev pub fstat_ccif : ℕ
fstat_ccif = 0x80

abbrev pub fstat_rdcolerr : ℕ
fstat_rdcolerr = 0x40

abbrev pub fstat_accerr : ℕ
fstat_accerr = 0x20

abbrev pub fstat_fpviol : ℕ
fstat_fpviol = 0x10

abbrev pub mdm_stat : ℕ
mdm_stat = 0x1000000

abbrev pub mdm_ctrl : ℕ
mdm_ctrl = 0x1000004

abbrev pub ctrl_flash_erase : ℕ
ctrl_flash_erase = 1

abbrev pub ctrl_debug_req : ℕ
ctrl_debug_req = 4

abbrev pub ctrl_sys_reset_req : ℕ
ctrl_sys_reset_req = 8

abbrev pub stat_flash_ready : ℕ
stat_flash_ready = 2

abbrev pub stat_sys_security : ℕ
stat_sys_security = 4

abbrev pub stat_core_halted : ℕ
stat_core_halted = 0x10000

abbrev pub fcfg1 : ℕ
fcfg1 = 0x4004804C

abbrev pub scgc6 : ℕ
scgc6 = 0x4004803C

abbrev pub scgc6_ftf : ℕ
scgc6_ftf = 1
