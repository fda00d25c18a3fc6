-- ===== src/Secrets.antt =====
-- crates/rdt-secrets: the encrypted vault and the store of secrets.
pub mod Entries
pub mod Vault
pub mod Store
