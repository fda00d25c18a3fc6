-- ===== src/Rdp/Session/Handle.antt =====
-- The handle of a session, `RdpSession` of crates/rdt-rdp/src/session.rs: what it sends to the task.
use remote_desktop_tool.Prelude.{
  ℕ, ◌≡◌, refl, inl, inr, Bool, Bool-cases, true, false, ◌||◌, List, [], ◌∷◌, ◌++◌, if◌then◌else◌,
  All, All-append, ap, ◌∙◌, append_assoc, append-nil, sym, subst,
}
use remote_desktop_tool.Types.Errors.{ErrorCode, RdtResult, ok, err}
use remote_desktop_tool.Rdp.Session.{DesktopSize}
use remote_desktop_tool.Rdp.Session.Input.{RdpInput}

pub data SessionCommand : Type 0 where
  input : RdpInput → SessionCommand
  resize_to : DesktopSize → SessionCommand
  clipboard_text : List ℕ → SessionCommand
  disconnect_task : SessionCommand

-- Whether the handle is closing, whether the task still receives, and the commands sent to it, the
-- oldest first.
pub record Handle : Type 0 where
  pub closing : Bool
  pub receiving : Bool
  pub commands : List SessionCommand

-- `send` of the channel.
abbrev pub send_command : Handle → SessionCommand → RdtResult {0} Unit × Handle
send_command h command =
    if h.receiving
    then (ok tt, record h { commands = h.commands ++ (command ∷ []) })
    else (err ErrorCode.session_state, h)

unfoldable pub send : Handle → RdpInput → RdtResult {0} Unit × Handle
send h i =
    let sent = send_command h (input i) in
    if h.closing then (err ErrorCode.session_state, h) else sent

abbrev pub resize : Handle → ℕ → ℕ → RdtResult {0} Unit × Handle
resize h width height = send_command h (resize_to (record { width = width; height = height }))

unfoldable pub disconnect : Handle → RdtResult {0} Unit × Handle
disconnect h = send_command (record h { closing = true }) disconnect_task

-- `Drop`.
abbrev pub drop_handle : Handle → Handle
drop_handle h = (disconnect h).1

-- The calls of a user, and the end of the task: whether it could start.
pub data Call : Type 0 where
  sending : RdpInput → Call
  resizing : ℕ → ℕ → Call
  disconnecting : Call
  task_ends : Bool → Call

-- The end of the task, which marks the session as closing unless it could not start.
abbrev pub ends : Handle → Bool → Handle
ends h started = record h { closing = started || h.closing; receiving = false }

abbrev pub call : Handle → Call → Handle
call h (sending i) = (send h i).1
call h (resizing width height) = (resize h width height).1
call h disconnecting = (disconnect h).1
call h (task_ends started) = ends h started

abbrev pub call_all : Handle → List Call → Handle
call_all h [] = h
call_all h (c ∷ calls) = call_all (call h c) calls

-- Only resizes and further requests to disconnect.
abbrev pub IsHarmless : SessionCommand → Type 0
IsHarmless (input i) = ⊥
IsHarmless (resize_to size) = Unit
IsHarmless (clipboard_text text) = ⊥
IsHarmless disconnect_task = Unit

-- The handle is closing, and what it has sent after `before` is harmless.
abbrev Quiet : List SessionCommand → Handle → Type 0
Quiet before h =
    (h.closing ≡ true)
    × ((after : List SessionCommand) × (h.commands ≡ before ++ after) × All IsHarmless after)

send_command-Quiet :
    (before : List SessionCommand) (h : Handle) (command : SessionCommand)
    → IsHarmless command
    → Quiet before h
    → Quiet before (send_command h command).1
send_command-Quiet before h command harmless q = elim (Bool-cases h.receiving) [
  | inl receiving ↦ rw receiving (
    q.0,
    (
      q.1.0 ++ (command ∷ []),
      ap (λ cs. cs ++ (command ∷ [])) q.1.1 ∙ append_assoc before q.1.0 (command ∷ []),
      All-append IsHarmless q.1.0 (command ∷ []) q.1.2 (harmless, tt),
    ),
  )
  | inr deaf ↦ rw deaf q
]

send-closing :
    (h : Handle) (i : RdpInput) → h.closing ≡ true → send h i ≡ (err ErrorCode.session_state, h)
unfolding send
send-closing h i closing = rw closing refl

call-Quiet :
    (before : List SessionCommand) (h : Handle) (c : Call)
    → Quiet before h
    → Quiet before (call h c)
unfolding disconnect
call-Quiet before h (sending i) q =
    let refused : (send h i).1 ≡ h = ap (λ r. r.1) (send-closing h i q.0) in
    subst (Quiet before) (sym refused) q
call-Quiet before h (resizing width height) q = send_command-Quiet before h _ tt q
call-Quiet before h disconnecting q =
    send_command-Quiet before (record h { closing = true }) disconnect_task tt (refl, q.1)
call-Quiet before h (task_ends true) q = (refl, q.1)
call-Quiet before h (task_ends false) q = (q.0, q.1)

call_all-Quiet :
    (before : List SessionCommand) (h : Handle) (calls : List Call)
    → Quiet before h
    → Quiet before (call_all h calls)
call_all-Quiet before h [] q = q
call_all-Quiet before h (c ∷ calls) q =
    call_all-Quiet before (call h c) calls (call-Quiet before h c q)

disconnect-Closing : (h : Handle) → (disconnect h).1.closing ≡ true
unfolding disconnect
disconnect-Closing h = elim (Bool-cases h.receiving) [
  | inl receiving ↦ rw receiving refl
  | inr deaf ↦ rw deaf refl
]

-- Whatever is called after a disconnect, whether or not it could be sent, and whenever the task ends: the
-- handle has sent only resizes and further disconnects since, and it refuses any input with the error for
-- the state of a session.
pub disconnect-closes :
    (h : Handle) (calls : List Call) (i : RdpInput)
    → let later = call_all (disconnect h).1 calls in
      ((send later i).0 ≡ err ErrorCode.session_state)
      × ((after : List SessionCommand) × (later.commands ≡ (disconnect h).1.commands ++ after)
          × All IsHarmless after)
unfolding disconnect
disconnect-closes h calls i =
    let first = disconnect h in
    let later = call_all first.1 calls in
    let quiet : Quiet first.1.commands later =
      call_all-Quiet first.1.commands first.1 calls
        (disconnect-Closing h, ([], sym (append-nil first.1.commands), tt)) in
    (ap (λ r. r.0) (send-closing later i quiet.0), quiet.1)
