-- ===== src/Protocol.antt =====
-- `include/protocol.h`: the command and status codes that the host and the programmer share.
pub mod Command
pub mod Status
