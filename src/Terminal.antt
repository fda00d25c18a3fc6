-- ===== src/Terminal.antt =====
-- crates/rdt-terminal: the VT100/xterm emulator.
pub mod Grid
pub mod Parser
pub mod Screen
pub mod Input
