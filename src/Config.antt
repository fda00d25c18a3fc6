-- ===== src/Config.antt =====
-- crates/rdt-config: profiles, settings and the store that holds them.
pub mod Settings
pub mod Profile
pub mod Migrate
pub mod Store
