-- ===== src/Types.antt =====
-- crates/rdt-types: the types that every other crate uses.
pub mod Errors
pub mod Endpoint
pub mod Ids
pub mod Options
pub mod Redact
