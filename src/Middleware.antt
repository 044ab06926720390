-- ===== src/Middleware.antt =====
-- graph/middleware: the gate in front of tool calls, and the deferral of tool schemas with the tool
-- that loads them (tools/lg_tools.py).
pub mod Gate
pub mod Gated
pub mod Running
pub mod Search
pub mod Deferral
pub mod Readback
pub mod Loaded
mod Tests
