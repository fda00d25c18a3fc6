-- ===== src/Rdp/Session.antt =====
-- The session task of crates/rdt-rdp/src/session.rs. What `ironrdp` answers to a command or to a packet is
-- given with it. `none` is a panic in the picture.
pub mod Input
pub mod Handle
pub mod Connect
pub mod Laws
pub mod Attempt
mod Tests
use remote_desktop_tool.Prelude.{
  ℕ, ◌+◌, ◌%◌, ◌^◌, Bool, true, false, List, [], ◌∷◌, ◌++◌, Option, none, some, ◌>>=◌,
  if◌then◌else◌, length,
}
use remote_desktop_tool.Rdp.Framebuffer.Rect.{DamageRect}
use remote_desktop_tool.Rdp.Framebuffer.{Framebuffer, take_damage, resize, blit}

pub record DesktopSize : Type 0 where
  pub width : ℕ
  pub height : ℕ

-- Why a session is closed: the texts that the code makes, without their wording.
pub data Reason : Type 0 where
  cannot_start failed ended_by_server : List ℕ → Reason
  was_closed ended : Reason

pub data RdpEvent : Type 0 where
  frame : List DamageRect → ℕ → ℕ → RdpEvent
  server_name : List ℕ → RdpEvent
  pointer : ℕ → ℕ → ℕ → ℕ → List ℕ → RdpEvent
  remote_clipboard : List ℕ → RdpEvent
  resized : ℕ → ℕ → RdpEvent
  closed : Reason → RdpEvent

-- The outputs of `ironrdp`, with the rectangle of a graphics update already measured.
pub data ActiveStageOutput : Type 0 where
  response_frame : List ℕ → ActiveStageOutput
  graphics_update : DamageRect → List ℕ → ActiveStageOutput
  pointer_default pointer_hidden server_redirection clipboard other : ActiveStageOutput
  pointer_position : ℕ → ℕ → ActiveStageOutput
  named : List ℕ → ActiveStageOutput
  desktop_size : DesktopSize → ActiveStageOutput
  terminate : List ℕ → ActiveStageOutput

pub record Counters : Type 0 where
  pub bytes_in : ℕ
  pub bytes_out : ℕ
  pub frames : ℕ
  pub latency_ms : ℕ

abbrev pub no_counts : Counters
no_counts = record { bytes_in = 0; bytes_out = 0; frames = 0; latency_ms = 0 }

-- What the task shares with the user interface. The events are all that were sent, the oldest first.
pub record Task : Type 0 where
  pub framebuffer : Framebuffer
  pub counters : Counters
  pub closing : Bool
  pub events : List RdpEvent

-- `fetch_add` of an `AtomicU64`.
abbrev pub add_u64 : ℕ → ℕ → ℕ
add_u64 a b = (a + b) % 2 ^ 64

abbrev pub send_event : Task → RdpEvent → Task
send_event t event = record t { events = t.events ++ (event ∷ []) }

-- The event of a graphics update, for the damage that is taken.
abbrev pub send_frame : Task → List DamageRect × Framebuffer → Task
send_frame t (damage, buffer) =
    send_event (record t { framebuffer = buffer }) (frame damage buffer.width buffer.height)

unfoldable pub apply_output : Task → ActiveStageOutput → Option Task
apply_output t (response_frame bytes) = some (record t {
  counters = record t.counters { bytes_out = add_u64 t.counters.bytes_out (length bytes) };
})
apply_output t (graphics_update rect bitmap) = do
  buffer ← blit t.framebuffer rect bitmap
  some (send_frame t (take_damage buffer))
apply_output t pointer_default = some t
apply_output t pointer_hidden = some t
apply_output t (pointer_position x y) = some (send_event t (pointer 1 1 x y []))
apply_output t server_redirection = some t
apply_output t clipboard = some t
apply_output t (named name) = some (send_event t (server_name name))
apply_output t (desktop_size size) = do
  buffer ← resize t.framebuffer size.width size.height
  some (send_event (record t { framebuffer = buffer }) (resized size.width size.height))
apply_output t (terminate reason) = some (send_event t (closed (ended_by_server reason)))
apply_output t other = some t

abbrev pub apply_outputs : Task → List ActiveStageOutput → Option Task
apply_outputs t [] = some t
apply_outputs t (output ∷ outputs) = apply_output t output >>= λ u. apply_outputs u outputs

-- What `ironrdp` answers: outputs, or an error with its text.
pub data Answer : Type 0 where
  outputs : List ActiveStageOutput → Answer
  failure : List ℕ → Answer

-- A turn of the loop: no sender of commands is left; a command that `ironrdp` answers, or that is not sent
-- on; the command to disconnect; a packet of some length that it answers, the milliseconds since the last
-- one; an error of the connection. Between them, the handle of the session may be marked as closing.
pub data Turn : Type 0 where
  no_sender : Turn
  command : Answer → Turn
  disconnecting : Turn
  packet : ℕ → ℕ → Answer → Turn
  broken : List ℕ → Turn
  marked : Turn

-- The counters after a packet, and after its outputs are known.
abbrev pub received : Task → ℕ → Task
received t size = record t {
  counters = record t.counters { bytes_in = add_u64 t.counters.bytes_in size };
}

abbrev pub decoded : Task → ℕ → Task
decoded t elapsed = record t {
  counters = record t.counters {
    frames = add_u64 t.counters.frames 1;
    latency_ms = elapsed % 2 ^ 64;
  };
}

-- Whether the loop goes on, with the task after the turn.
abbrev pub going_on : Option Task → Option (Bool × Task)
going_on done = done >>= λ t. some (true, t)

abbrev pub broken_reason : Bool → List ℕ → Reason
broken_reason true text = was_closed
broken_reason false text = failed text

unfoldable pub turn : Task → Turn → Option (Bool × Task)
turn t no_sender = some (false, t)
turn t (command (outputs os)) = going_on (apply_outputs t os)
turn t (command (failure text)) = some (false, send_event t (closed (failed text)))
turn t disconnecting = some (false, t)
turn t (packet size elapsed (outputs os)) =
    going_on (apply_outputs (decoded (received t size) elapsed) os)
turn t (packet size elapsed (failure text)) =
    some (false, send_event (received t size) (closed (failed text)))
turn t (broken text) = some (false, send_event t (closed (broken_reason t.closing text)))
turn t marked = some (true, record t { closing = true })

-- What follows the loop.
abbrev pub finish : Task → Task
finish t = send_event (record t { closing = true }) (closed ended)

-- The rest of the loop, after a turn.
abbrev pub after_turn : (Task → Option (Bool × Task)) → Bool × Task → Option (Bool × Task)
after_turn rest (true, t) = rest t
after_turn rest (false, t) = some (true, finish t)

-- Whether the task has ended, with what it shares.
abbrev pub loop : Task → List Turn → Option (Bool × Task)
loop t [] = some (false, t)
loop t (next ∷ turns) = turn t next >>= after_turn (λ u. loop u turns)

-- `spawn_session`, from the outcome of `ActiveStage::new`.
abbrev pub run : Option (List ℕ) → Task → List Turn → Option (Bool × Task)
run (some error) t turns = some (true, send_event t (closed (cannot_start error)))
run none t turns = loop t turns
