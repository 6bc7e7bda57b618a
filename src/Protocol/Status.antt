-- ===== src/Protocol/Status.antt =====
-- The `RXCMD_STATUS_…` codes of `include/protocol.h`.
use swagger.Prelude.{ℕ}

abbrev pub ok : ℕ
ok = 0

abbrev pub timeout : ℕ
timeout = 1

abbrev pub swd_fault : ℕ
swd_fault = 2

abbrev pub rx_overflow : ℕ
rx_overflow = 3

abbrev pub unknown_cmd : ℕ
unknown_cmd = 5

abbrev pub proto_err : ℕ
proto_err = 4
