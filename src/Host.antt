-- ===== src/Host.antt =====
-- The host program's own code: `src/hardwareinterface.cpp`, `src/squirrel_funcs.cpp` and
-- `src/main.cpp`.
pub mod Packet
pub mod Script
pub mod Console
pub mod Start
