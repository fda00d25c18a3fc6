-- ===== src/Rdp.antt =====
-- crates/rdt-rdp: the remote picture, the certificates of servers and the session.
pub mod Framebuffer
pub mod Certificates
pub mod Session
pub mod Clipboard
