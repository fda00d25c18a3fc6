-- ===== src/Session.antt =====
-- crates/rdt-session/src/lib.rs, with the reconnection policy of crates/rdt-types/src/proto.rs.
pub mod Reconnect
pub mod Types
pub mod Manager
