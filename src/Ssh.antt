-- ===== src/Ssh.antt =====
-- crates/rdt-ssh: the database of host keys, the decision on a server's key, and sessions.
pub mod KnownHosts
pub mod Handler
pub mod Session
