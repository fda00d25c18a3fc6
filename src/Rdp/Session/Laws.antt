-- ===== src/Rdp/Session/Laws.antt =====
-- The session task: the picture stays valid, the frames that are reported lie inside it, and the task ends.
use remote_desktop_tool.Prelude.{
  ◌*◌, ◌^◌, ◌<◌, ◌≡◌, refl, Bool, true, false, List, [], ◌∷◌, ◌++◌, Option, max, All, All-append,
  Ensures, Ensures-bind,
}
use remote_desktop_tool.Rdp.Framebuffer.Rect.Laws.{Inside}
use remote_desktop_tool.Rdp.Framebuffer.{take_damage, resize, blit}
use remote_desktop_tool.Rdp.Framebuffer.Valid.{IsValid}
use remote_desktop_tool.Rdp.Framebuffer.Runs.{resized, blitted, taken, perform-IsValid}
use remote_desktop_tool.Rdp.Session.{
  DesktopSize, RdpEvent, frame, server_name, pointer, remote_clipboard, closed, ended, cannot_start,
  failed, ended_by_server, ActiveStageOutput, response_frame, graphics_update, pointer_default,
  pointer_hidden, server_redirection, clipboard, other, pointer_position, named, desktop_size,
  terminate, Task, send_event, send_frame, apply_output, apply_outputs, Answer, outputs, failure,
  Turn, no_sender, command, disconnecting, packet, broken, marked, received, decoded, broken_reason,
  turn, finish, after_turn, loop, run,
}
use remote_desktop_tool.Rdp.Session

-- A new size has fewer than 2^32 bytes.
abbrev pub Bounded : ActiveStageOutput → Type 0
Bounded (desktop_size size) = max size.width 1 * max size.height 1 * 4 < 2 ^ 32
Bounded _ = Unit

abbrev pub BoundedAnswer : Answer → Type 0
BoundedAnswer (outputs os) = All Bounded os
BoundedAnswer (failure text) = Unit

abbrev pub BoundedTurn : Turn → Type 0
BoundedTurn (command answer) = BoundedAnswer answer
BoundedTurn (packet size elapsed answer) = BoundedAnswer answer
BoundedTurn _ = Unit

-- The damage of a frame lies inside the size that is reported with it.
abbrev pub FrameInside : RdpEvent → Type 0
FrameInside (frame damage width height) = All (Inside width height) damage
FrameInside _ = Unit

pub record IsSound (t : Task) : Type 0 where
  pub picture : IsValid t.framebuffer
  pub frames_inside : All FrameInside t.events

send_event-IsSound :
    (t : Task) (event : RdpEvent) → FrameInside event → IsSound t → IsSound (send_event t event)
send_event-IsSound t event inside s = record {
  picture = s.picture;
  frames_inside = All-append FrameInside t.events (event ∷ []) s.frames_inside (inside, tt);
}

apply_output-IsSound :
    (t : Task) (o : ActiveStageOutput) → Bounded o → IsSound t → Ensures IsSound (apply_output t o)
unfolding apply_output take_damage
apply_output-IsSound t (response_frame bytes) h s = record {
  picture = s.picture;
  frames_inside = s.frames_inside;
}
apply_output-IsSound t (graphics_update rect bitmap) h s =
    Ensures-bind IsValid IsSound (blit t.framebuffer rect bitmap) _
      (perform-IsValid t.framebuffer (blitted rect bitmap) s.picture tt)
      (λ buffer v.
        send_event-IsSound (record t { framebuffer = record buffer { damage = [] } })
          (frame buffer.damage buffer.width buffer.height) v.damage_inside
          (record { picture = perform-IsValid buffer taken v tt; frames_inside = s.frames_inside }))
apply_output-IsSound t pointer_default h s = s
apply_output-IsSound t pointer_hidden h s = s
apply_output-IsSound t (pointer_position x y) h s = send_event-IsSound t _ tt s
apply_output-IsSound t server_redirection h s = s
apply_output-IsSound t clipboard h s = s
apply_output-IsSound t (named name) h s = send_event-IsSound t _ tt s
apply_output-IsSound t (desktop_size size) h s =
    Ensures-bind IsValid IsSound (resize t.framebuffer size.width size.height) _
      (perform-IsValid t.framebuffer (resized size.width size.height) s.picture h)
      (λ buffer v.
        send_event-IsSound (record t { framebuffer = buffer })
          (Session.resized size.width size.height) tt
          (record { picture = v; frames_inside = s.frames_inside }))
apply_output-IsSound t (terminate reason) h s = send_event-IsSound t _ tt s
apply_output-IsSound t other h s = s

apply_outputs-IsSound :
    (os : List ActiveStageOutput) (t : Task)
    → All Bounded os
    → IsSound t
    → Ensures IsSound (apply_outputs t os)
apply_outputs-IsSound [] t h s = s
apply_outputs-IsSound (o ∷ os) t h s =
    Ensures-bind IsSound IsSound (apply_output t o) _ (apply_output-IsSound t o h.0 s)
      (λ u k. apply_outputs-IsSound os u h.1 k)

-- A turn that goes on has a sound task, and so has one that ends the loop.
turn-IsSound :
    (n : Turn) (t : Task) → BoundedTurn n → IsSound t → Ensures (λ r. IsSound r.1) (turn t n)
unfolding turn
turn-IsSound no_sender t h s = s
turn-IsSound (command (outputs os)) t h s =
    Ensures-bind IsSound (λ r. IsSound r.1) (apply_outputs t os) _ (apply_outputs-IsSound os t h s)
      (λ u k. k)
turn-IsSound (command (failure text)) t h s = send_event-IsSound t _ tt s
turn-IsSound disconnecting t h s = s
turn-IsSound (packet size elapsed (outputs os)) t h s =
    Ensures-bind IsSound (λ r. IsSound r.1) (apply_outputs (decoded (received t size) elapsed) os) _
      (apply_outputs-IsSound os (decoded (received t size) elapsed) h
        (record { picture = s.picture; frames_inside = s.frames_inside }))
      (λ u k. k)
turn-IsSound (packet size elapsed (failure text)) t h s =
    send_event-IsSound (received t size) _ tt
      (record { picture = s.picture; frames_inside = s.frames_inside })
turn-IsSound (broken text) t h s = send_event-IsSound t _ tt s
turn-IsSound marked t h s = record { picture = s.picture; frames_inside = s.frames_inside }

finish-IsSound : (t : Task) → IsSound t → IsSound (finish t)
finish-IsSound t s =
    send_event-IsSound (record t { closing = true }) (closed ended) tt
      (record { picture = s.picture; frames_inside = s.frames_inside })

-- What the rest of the loop and the end of the task ensure, a turn does before them.
after_turn-Ensures :
    (P : Task → Type 0) (Q : Bool × Task → Type 0) (rest : Task → Option (Bool × Task))
    → ((u : Task) → P u → Ensures Q (rest u))
    → ((u : Task) → P u → Q (true, finish u))
    → (r : Bool × Task) → P r.1
    → Ensures Q (after_turn rest r)
after_turn-Ensures P Q rest go stop (true, u) k = go u k
after_turn-Ensures P Q rest go stop (false, u) k = stop u k

-- Whatever commands and packets come, and however ironrdp answers them, if every new size has fewer than
-- 2^32 bytes: a task that starts with a valid picture never panics, its picture stays valid, and each
-- frame that it reports has its damage inside the size that it reports.
pub loop-IsSound :
    (turns : List Turn) (t : Task)
    → All BoundedTurn turns
    → IsSound t
    → Ensures (λ r. IsSound r.1) (loop t turns)
loop-IsSound [] t h s = s
loop-IsSound (n ∷ turns) t h s =
    Ensures-bind (λ r. IsSound r.1) (λ r. IsSound r.1) (turn t n) _ (turn-IsSound n t h.0 s)
      (after_turn-Ensures IsSound (λ r. IsSound r.1) (λ u. loop u turns)
        (λ u k. loop-IsSound turns u h.1 k) finish-IsSound)

-- The task is over: it is marked as closing, and its last event says that it ended.
abbrev pub IsOver : Bool × Task → Type 0
IsOver r =
    (r.0 ≡ true)
    × (r.1.closing ≡ true)
    × ((before : List RdpEvent) × (r.1.events ≡ before ++ (closed ended ∷ [])))

finish-IsOver : (t : Task) → IsOver (true, finish t)
finish-IsOver t = (refl, refl, (t.events, refl))

-- Once the task takes the command to disconnect it is over, whatever came before it and whatever would
-- come later, if every new size until then has fewer than 2^32 bytes and the picture was valid: there is
-- no panic, the session is marked as closing, and the last event says that it ended.
pub loop-IsOver :
    (before after : List Turn) (t : Task)
    → All BoundedTurn before
    → IsSound t
    → Ensures IsOver (loop t (before ++ (disconnecting ∷ after)))
unfolding turn
loop-IsOver [] after t h s = finish-IsOver t
loop-IsOver (n ∷ before) after t h s =
    Ensures-bind (λ r. IsSound r.1) IsOver (turn t n) _ (turn-IsSound n t h.0 s)
      (after_turn-Ensures IsSound IsOver (λ u. loop u (before ++ (disconnecting ∷ after)))
        (λ u k. loop-IsOver before after u h.1 k) (λ u k. finish-IsOver u))
