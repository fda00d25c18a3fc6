-- ===== src/Types/Errors.antt =====
-- The classification of failures of crates/rdt-types/src/error.rs, and the protocols of
-- crates/rdt-types/src/proto.rs. An error is its code: its texts and its cause are left out.
use remote_desktop_tool.Prelude.{ℕ, Bool, true, false}

pub data ErrorCode : Type 0 where
  config io permission crypto vault keystore network timeout cancelled protocol : ErrorCode
  authentication host_key_unknown host_key_mismatch tls transfer terminal : ErrorCode
  session_state platform service not_found unsupported invalid_input internal : ErrorCode

abbrev pub is_retryable : ErrorCode → Bool
is_retryable ErrorCode.network = true
is_retryable ErrorCode.timeout = true
is_retryable ErrorCode.session_state = true
is_retryable ErrorCode.internal = true
is_retryable _ = false

abbrev pub needs_user_decision : ErrorCode → Bool
needs_user_decision ErrorCode.host_key_unknown = true
needs_user_decision ErrorCode.host_key_mismatch = true
needs_user_decision ErrorCode.tls = true
needs_user_decision ErrorCode.authentication = true
needs_user_decision ErrorCode.permission = true
needs_user_decision _ = false

pub data RdtResult {ℓ} (A : Type ℓ) : Type ℓ where
  ok : A → RdtResult A
  err : ErrorCode → RdtResult A

module _ {ℓ ℓ'} {A : Type ℓ} {B : Type ℓ'} where
  -- `?`.
  abbrev pub and_then : RdtResult A → (A → RdtResult B) → RdtResult B
  and_then (ok a) f = f a
  and_then (err code) f = err code

pub data Protocol : Type 0 where
  ssh rdp : Protocol

abbrev pub default_port : Protocol → ℕ
default_port Protocol.ssh = 22
default_port Protocol.rdp = 3389
