-- ===== src/Rdp/Clipboard.antt =====
-- The clipboard bridge of crates/rdt-rdp/src/clipboard.rs on Unix, which runs helper programs.
mod Laws
use remote_desktop_tool.Prelude.{
  ℕ, Bool, true, false, ◌&&◌, ◌||◌, List, [], ◌∷◌, Option, none, some, if◌then◌else◌,
}
use remote_desktop_tool.Types.Errors.{ErrorCode, RdtResult, ok, err}

pub data UnixClipboard : Type 0 where
  wayland x11 no_helper : UnixClipboard

pub record ClipboardBridge : Type 0 where
  pub remote_to_local : Bool
  pub local_to_remote : Bool

-- Whether WAYLAND_DISPLAY and DISPLAY are set, and whether a program is on the PATH.
pub record Desktop : Type 0 where
  pub wayland_display : Bool
  pub x_display : Bool
  pub has_program : List ℕ → Bool

-- "wl-copy", "wl-paste", "xclip" and "xsel".
abbrev pub wl_copy : List ℕ
wl_copy = b'w' ∷ b'l' ∷ b'-' ∷ b'c' ∷ b'o' ∷ b'p' ∷ b'y' ∷ []

abbrev pub wl_paste : List ℕ
wl_paste = b'w' ∷ b'l' ∷ b'-' ∷ b'p' ∷ b'a' ∷ b's' ∷ b't' ∷ b'e' ∷ []

abbrev pub xclip : List ℕ
xclip = b'x' ∷ b'c' ∷ b'l' ∷ b'i' ∷ b'p' ∷ []

abbrev pub xsel : List ℕ
xsel = b'x' ∷ b's' ∷ b'e' ∷ b'l' ∷ []

unfoldable pub detect_unix_backend : Desktop → UnixClipboard
detect_unix_backend d =
    if d.wayland_display && d.has_program wl_copy
    then wayland
    else if d.x_display && (d.has_program xclip || d.has_program xsel)
    then x11
    else no_helper

-- A run of a helper: the program, and the text on its input.
pub record Run : Type 0 where
  pub program : List ℕ
  pub text_in : Option (List ℕ)

-- `run_helper`, of which the result is that of the run.
abbrev pub run_helper :
    (Run → RdtResult (List ℕ)) → List ℕ → Option (List ℕ) → RdtResult (List ℕ) × List Run
run_helper helper program text_in =
    let run : Run = record { program = program; text_in = text_in } in (helper run, run ∷ [])

-- The result of a helper that only takes text.
abbrev pub taken : RdtResult (List ℕ) × List Run → RdtResult {0} Unit × List Run
taken (ok out, runs) = (ok tt, runs)
taken (err code, runs) = (err code, runs)

module _ (d : Desktop) (helper : Run → RdtResult (List ℕ)) where
  -- The helper of X11.
  abbrev pub x11_program : List ℕ
  x11_program = if d.has_program xclip then xclip else xsel

  abbrev pub set_text : UnixClipboard → List ℕ → RdtResult {0} Unit × List Run
  set_text wayland text = taken (run_helper helper wl_copy (some text))
  set_text x11 text = taken (run_helper helper x11_program (some text))
  set_text no_helper text = (err ErrorCode.platform, [])

  abbrev pub get_text : UnixClipboard → RdtResult (List ℕ) × List Run
  get_text wayland = run_helper helper wl_paste none
  get_text x11 = run_helper helper x11_program none
  get_text no_helper = (err ErrorCode.platform, [])

  -- The result, with the helpers that were run.
  unfoldable pub set_local_text : ClipboardBridge → List ℕ → RdtResult {0} Unit × List Run
  set_local_text bridge text =
      if bridge.remote_to_local
      then set_text (detect_unix_backend d) text
      else (err ErrorCode.permission, [])

  unfoldable pub local_text : ClipboardBridge → RdtResult (List ℕ) × List Run
  local_text bridge =
      if bridge.local_to_remote
      then get_text (detect_unix_backend d)
      else (err ErrorCode.permission, [])

-- The bridge that a session makes for its clipboard channel, whatever the settings.
abbrev pub session_bridge : ClipboardBridge
session_bridge = record { remote_to_local = true; local_to_remote = true }
