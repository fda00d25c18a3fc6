-- ===== src/Config/Settings.antt =====
-- The settings of crates/rdt-config/src/settings.rs with their defaults.
use remote_desktop_tool.Prelude.{ℕ, Bool, true, false, List, [], ◌∷◌}
use remote_desktop_tool.Types.Options.{TerminalOptions, default_terminal}

-- `CURRENT_SCHEMA_VERSION`.
abbrev pub current_schema_version : ℕ
current_schema_version = 1

pub data Theme : Type 0 where
  system light dark : Theme

pub data LogLevel : Type 0 where
  error warn info debug trace : LogLevel

pub record UiSettings : Type 0 where
  pub theme : Theme
  pub ui_scale_percent : ℕ
  pub show_status_bar : Bool
  pub start_page : List ℕ
  pub confirm_disconnect : Bool
  pub wrap_logs : Bool

-- "dashboard".
abbrev pub default_ui : UiSettings
default_ui = record {
  theme = system;
  ui_scale_percent = 100;
  show_status_bar = true;
  start_page = b'd' ∷ b'a' ∷ b's' ∷ b'h' ∷ b'b' ∷ b'o' ∷ b'a' ∷ b'r' ∷ b'd' ∷ [];
  confirm_disconnect = true;
  wrap_logs = false;
}

pub record SecuritySettings : Type 0 where
  pub allow_remote_to_local_clipboard : Bool
  pub allow_local_to_remote_clipboard : Bool
  pub redact_logs : Bool
  pub vault_lock_after_minutes : ℕ
  pub revoke_agent_forwarding_on_disconnect : Bool

abbrev pub default_security : SecuritySettings
default_security = record {
  allow_remote_to_local_clipboard = true;
  allow_local_to_remote_clipboard = true;
  redact_logs = true;
  vault_lock_after_minutes = 15;
  revoke_agent_forwarding_on_disconnect = true;
}

pub record SessionSettings : Type 0 where
  pub max_concurrent_sessions : ℕ
  pub keep_alive_when_minimised : Bool
  pub audit_connections : Bool
  pub audit_retention_days : ℕ

abbrev pub default_session : SessionSettings
default_session = record {
  max_concurrent_sessions = 16;
  keep_alive_when_minimised = true;
  audit_connections = true;
  audit_retention_days = 90;
}

pub record Settings : Type 0 where
  pub ui : UiSettings
  pub security : SecuritySettings
  pub session : SessionSettings
  pub terminal : TerminalOptions
  pub log_level : LogLevel
  pub log_max_mib : ℕ
  pub log_keep : ℕ

abbrev pub default_settings : Settings
default_settings = record {
  ui = default_ui;
  security = default_security;
  session = default_session;
  terminal = default_terminal;
  log_level = info;
  log_max_mib = 16;
  log_keep = 5;
}
