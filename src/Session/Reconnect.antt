-- ===== src/Session/Reconnect.antt =====
-- `ReconnectPolicy` of crates/rdt-types/src/proto.rs. The messages of its errors are left out.
pub mod Bounds
mod Tests
use remote_desktop_tool.Prelude.{
  ℕ, ◌+◌, ◌-◌, ◌*◌, ◌/◌, ◌%◌, ◌^◌, Bool, true, false, not, ◌&&◌, ◌||◌, Option, none, some, ◌==◌,
  ltb, if◌then◌else◌, min, max,
}

pub record ReconnectPolicy : Type 0 where
  pub enabled : Bool
  -- 0 means "keep trying".
  pub max_attempts : ℕ
  pub initial_backoff_secs : ℕ
  pub max_backoff_secs : ℕ

abbrev pub default : ReconnectPolicy
default = record {
  enabled = true;
  max_attempts = 5;
  initial_backoff_secs = 2;
  max_backoff_secs = 60;
}

-- `u64::saturating_mul`.
abbrev pub saturating_mul : ℕ → ℕ → ℕ
saturating_mul a b = min (a * b) (2 ^ 64 - 1)

-- The delay without jitter.
abbrev pub base_delay : ReconnectPolicy → ℕ → ℕ
base_delay p attempt =
    min (saturating_mul p.initial_backoff_secs (2 ^ min (attempt - 1) 6))
      (max p.max_backoff_secs p.initial_backoff_secs)

-- The sum is the wrapping one of a release build.
abbrev pub with_jitter : ReconnectPolicy → ℕ → ℕ → ℕ
with_jitter p attempt base =
    min ((base + base / 4 * (attempt % 4)) % 2 ^ 64) (max p.max_backoff_secs base)

unfoldable pub delay_for : ReconnectPolicy → ℕ → Option ℕ
delay_for p attempt =
    if not p.enabled || attempt == 0
    then none
    else if ltb 0 p.max_attempts && ltb p.max_attempts attempt
    then none
    else some (with_jitter p attempt (base_delay p attempt))

-- `true` when the bounds are accepted.
unfoldable pub validate : ReconnectPolicy → Bool
validate p =
    not (p.initial_backoff_secs == 0) && not (ltb p.max_backoff_secs p.initial_backoff_secs)
