-- ===== src/Protocol/Command.antt =====
-- The `TXCMD_TYPE_…` commands of `include/protocol.h`.
use swagger.Prelude.{ℕ}

abbrev pub connect : ℕ
connect = 0

abbrev pub reset : ℕ
reset = 1

abbrev pub read_ap : ℕ
read_ap = 2

abbrev pub write_ap : ℕ
write_ap = 3

abbrev pub read_dp : ℕ
read_dp = 4

abbrev pub write_dp : ℕ
write_dp = 5

abbrev pub read_mem : ℕ
read_mem = 6

abbrev pub write_mem : ℕ
write_mem = 7

abbrev pub wait_mem_true : ℕ
wait_mem_true = 8

abbrev pub get_prog_id : ℕ
get_prog_id = 0xFF

abbrev pub wait_mem_false : ℕ
wait_mem_false = 9
