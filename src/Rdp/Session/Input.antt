-- ===== src/Rdp/Session/Input.antt =====
-- `encode_input` of crates/rdt-rdp/src/session.rs. The sets of flags are those of ironrdp.
use remote_desktop_tool.Prelude.{ℕ, ◌<◌, ◌%◌, ◌^◌, Bool, true, false, not, Option, some}

-- An `i16`: a number that is not negative, or one more than the distance below zero.
pub data ℤ : Type 0 where
  pos negsuc : ℕ → ℤ

abbrev pub is_negative : ℤ → Bool
is_negative (pos n) = false
is_negative (negsuc n) = true

pub data RdpInput : Type 0 where
  key : ℕ → Bool → Bool → RdpInput
  unicode : ℕ → RdpInput
  mouse_button : ℕ → ℕ → ℕ → RdpInput
  mouse_move : ℕ → ℕ → RdpInput
  mouse_wheel : ℤ → ℕ → ℕ → RdpInput

-- The set of `KeyboardFlags`: whether RELEASE and EXTENDED are in it.
pub record KeyboardFlags : Type 0 where
  pub release : Bool
  pub extended : Bool

-- The set of `PointerFlags`: PTR_FLAGS_MOVE, PTR_FLAGS_WHEEL, PTR_FLAGS_WHEEL_NEGATIVE, or what
-- `from_bits_truncate` makes of a number.
pub data PointerFlags : Type 0 where
  moved wheel wheel_back : PointerFlags
  from_bits_truncate : ℕ → PointerFlags

pub data FastPathInputEvent : Type 0 where
  keyboard_event unicode_event : KeyboardFlags → ℕ → FastPathInputEvent
  pointer_event : PointerFlags → ℕ → ℕ → FastPathInputEvent

abbrev pub wheel_flags : Bool → PointerFlags
wheel_flags true = wheel_back
wheel_flags false = wheel

-- A character goes out as a `u16`.
unfoldable pub encode_input : RdpInput → Option FastPathInputEvent
encode_input (key scancode pressed extended) =
    some (keyboard_event (record { release = not pressed; extended = extended }) scancode)
encode_input (unicode ch) =
    some (unicode_event (record { release = false; extended = false }) (ch % 2 ^ 16))
encode_input (mouse_button flags x y) = some (pointer_event (from_bits_truncate flags) x y)
encode_input (mouse_move x y) = some (pointer_event moved x y)
encode_input (mouse_wheel delta x y) = some (pointer_event (wheel_flags (is_negative delta)) x y)

-- Numbers and characters as the wire holds them: 16 bits, and no character beyond U+FFFF.
abbrev pub Fits : RdpInput → Type 0
Fits (key scancode pressed extended) = scancode < 2 ^ 16
Fits (unicode ch) = ch < 2 ^ 16
Fits (mouse_button flags x y) = Unit
Fits (mouse_move x y) = Unit
Fits (mouse_wheel delta x y) = Unit
