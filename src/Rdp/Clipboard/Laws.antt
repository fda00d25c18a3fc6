-- ===== src/Rdp/Clipboard/Laws.antt =====
-- Which helpers the clipboard bridge runs.
use remote_desktop_tool.Prelude.{
  ℕ, ◌≡◌, refl, inl, inr, arith, Bool, Bool-cases, true, false, ◌&&◌, ◌||◌, List, [], ◌∷◌, none,
  some, if◌then◌else◌, All,
}
use remote_desktop_tool.Text.{same_text}
use remote_desktop_tool.Types.Errors.{RdtResult, ok, err}
use remote_desktop_tool.Rdp.Clipboard.{
  UnixClipboard, wayland, x11, no_helper, ClipboardBridge, Desktop, wl_copy, wl_paste, xclip, xsel,
  detect_unix_backend, Run, run_helper, taken, x11_program, set_text, set_local_text, local_text,
  session_bridge,
}

taken-runs : (done : RdtResult (List ℕ) × List Run) → (taken done).1 ≡ done.1
taken-runs (ok out, runs) = refl
taken-runs (err code, runs) = refl

module _ (d : Desktop) (helper : Run → RdtResult (List ℕ)) where
  -- The program is on the PATH, and the text goes nowhere else.
  abbrev Takes : List ℕ → Run → Type 0
  Takes text run = (d.has_program run.program ≡ true) × (run.text_in ≡ some text)

  x11_program-installed :
      (d.has_program xclip || d.has_program xsel) ≡ true
      → d.has_program (x11_program d helper) ≡ true
  x11_program-installed h = elim (Bool-cases (d.has_program xclip)) [
    | inl there ↦ rw there there
    | inr missing ↦ rw missing (rw missing at h)
  ]

  -- The helpers that a backend stands for are there.
  abbrev IsUsable : UnixClipboard → Type 0
  IsUsable wayland = d.has_program wl_copy ≡ true
  IsUsable x11 = (d.has_program xclip || d.has_program xsel) ≡ true
  IsUsable no_helper = Unit

  both : (a b : Bool) → (a && b) ≡ true → b ≡ true
  both true b h = h
  both false b h = absurd (ground arith)

  detect_unix_backend-IsUsable : IsUsable (detect_unix_backend d)
  unfolding detect_unix_backend
  detect_unix_backend-IsUsable = elim (Bool-cases (d.wayland_display && d.has_program wl_copy)) [
    | inl first ↦ rw first (both d.wayland_display (d.has_program wl_copy) first)
    | inr later ↦ elim (Bool-cases (d.x_display && (d.has_program xclip || d.has_program xsel))) [
      | inl second ↦
          rw (later, second) (both d.x_display (d.has_program xclip || d.has_program xsel) second)
      | inr neither ↦ rw (later, neither) tt
    ]
  ]

  set_text-Takes :
      (backend : UnixClipboard) (text : List ℕ)
      → IsUsable backend
      → All (Takes text) (set_text d helper backend text).1
  set_text-Takes wayland text h =
      rw (taken-runs (run_helper helper wl_copy (some text))) ((h, refl), tt)
  set_text-Takes x11 text h =
      rw (taken-runs (run_helper helper (x11_program d helper) (some text)))
        ((x11_program-installed h, refl), tt)
  set_text-Takes no_helper text h = tt

  -- Text goes to a helper only where the settings of the bridge allow it, and then to one that is on the
  -- PATH.
  set_local_text-Takes :
      (remote_to_local local_to_remote : Bool) (text : List ℕ)
      → let bridge : ClipboardBridge = record {
        remote_to_local = remote_to_local;
        local_to_remote = local_to_remote;
      } in
        All (Takes text) (if remote_to_local then (set_local_text d helper bridge text).1 else [])
        × ((if remote_to_local then [] else (set_local_text d helper bridge text).1) ≡ [])
  unfolding set_local_text
  set_local_text-Takes true local_to_remote text =
      (set_text-Takes (detect_unix_backend d) text detect_unix_backend-IsUsable, refl)
  set_local_text-Takes false local_to_remote text = (tt, refl)

-- Under Wayland the clipboard is read with wl-paste, which the detection does not look for.
abbrev only_copy : Desktop
only_copy = record {
  wayland_display = true;
  x_display = false;
  has_program = λ program. same_text program wl_copy;
}

runs_missing :
    (local_text only_copy (λ run. ok []) session_bridge).1
    ≡ (record { program = wl_paste; text_in = none }) ∷ []
unfolding local_text detect_unix_backend
runs_missing = refl
