-- ===== src/Logging.antt =====
-- crates/rdt-logging: the buffer of recent log lines.
pub mod Buffer
