-- ===== src/Rdp/Session/Tests.antt =====
-- The RDP session at concrete inputs.
use remote_desktop_tool.Prelude.{
  ◌≡◌, ◌++◌, ◌==◌, refl, arith, true, false, List, [], ◌∷◌, none, some, All, Ensures,
}
use remote_desktop_tool.Types.Errors.{ErrorCode, err}
use remote_desktop_tool.Types.Options.{prompt, verify_chain, us_layout}
use remote_desktop_tool.Rdp.Framebuffer.Rect.{DamageRect}
use remote_desktop_tool.Rdp.Framebuffer
use remote_desktop_tool.Rdp.Framebuffer.Bytes.{for_rows_from, slice, copy_into}
use remote_desktop_tool.Rdp.Framebuffer.Runs.{new-IsValid}
use remote_desktop_tool.Rdp.Certificates.{no_faults, Library, missing}
use remote_desktop_tool.Rdp.Session.{
  DesktopSize, ActiveStageOutput, graphics_update, desktop_size, outputs, Task, no_counts, Turn,
  command, packet, turn, loop, apply_output,
}
use remote_desktop_tool.Rdp.Session
use remote_desktop_tool.Rdp.Session.Input.{unicode, mouse_wheel, pos, encode_input}
use remote_desktop_tool.Rdp.Session.Handle.{
  SessionCommand, Handle, Call, sending, resizing, task_ends, disconnect, send, call_all,
  IsHarmless, disconnect-closes,
}
use remote_desktop_tool.Rdp.Session.Handle
use remote_desktop_tool.Rdp.Session.Connect.{RdpTarget, Network, done, connect}
use remote_desktop_tool.Rdp.Session.Laws.{IsSound, IsOver, loop-IsOver}
use remote_desktop_tool.Rdp.Session.Attempt.{
  Holds, IsFinal, IsReached, connect-IsFinal, connect-loop,
}

abbrev lib : Library
lib = record {
  lower = λ text. text;
  digest = λ der. der;
  encode = λ entries. none;
  decode = λ text. none;
}

abbrev target : RdpTarget
target = record {
  host = b'h' ∷ [];
  port = 3389;
  username = b'u' ∷ [];
  domain = none;
  credential = prompt;
  cert_policy = verify_chain;
  pin_store = none;
  desktop = record { width = 2; height = 2 };
  keyboard = us_layout;
  console_session = false;
  connect_timeout = 10;
  allow_tls_fallback = false;
}

abbrev net : Network
net = record {
  tcp = done;
  nodelay_fails = false;
  peer_fails = false;
  negotiation = done;
  server_name = none;
  pins = missing;
  tls_fails = false;
  certificate = some (1 ∷ []);
  finalizing = none;
}

abbrev top_left : DamageRect
top_left = record { left = 0; top = 0; width = 1; height = 1 }

abbrev turns : List Turn
turns =
    packet 20 5 (outputs (graphics_update top_left (1 ∷ 2 ∷ 3 ∷ 4 ∷ []) ∷ []))
    ∷ packet 9 7 (outputs (desktop_size (record { width = 3; height = 1 }) ∷ []))
    ∷ []

connect-loop_example :
    Holds
      (λ s. Ensures (λ r. IsSound r.1) (loop s.task turns))
      (connect (λ c. c == 32) lib no_faults net target none).0
connect-loop_example =
    connect-loop (λ c. c == 32) lib no_faults net target none turns (omega arith)
      ((tt, tt), ((omega arith, tt), tt))

-- The server's certificate is refused by the handshake.
abbrev refused : Network
refused = record net { certificate = none }

refused-IsReached : IsReached refused
refused-IsReached = record {
  tcp_done = refl;
  undelayed = refl;
  peer_known = refl;
  answered = λ e. absurd (ground arith);
}

connect-IsFinal_example : IsFinal (connect (λ c. c == 32) lib no_faults refused target none).0
connect-IsFinal_example =
    connect-IsFinal (λ c. c == 32) lib no_faults refused target none refused-IsReached

abbrev task : Task
task = record {
  framebuffer = Framebuffer.new 2 2;
  counters = no_counts;
  closing = false;
  events = [];
}

task-IsSound : IsSound task
task-IsSound = record { picture = new-IsValid 2 2 (omega arith); frames_inside = tt }

loop-IsOver_example : Ensures IsOver (loop task (turns ++ (Session.disconnecting ∷ turns)))
loop-IsOver_example = loop-IsOver turns turns task ((tt, tt), ((omega arith, tt), tt)) task-IsSound

abbrev handle : Handle
handle = record { closing = false; receiving = true; commands = [] }

abbrev calls : List Call
calls = resizing 3 1 ∷ sending (unicode b'a') ∷ task_ends true ∷ Handle.disconnecting ∷ []

disconnect-closes_example :
    let later = call_all (disconnect handle).1 calls in
    ((send later (unicode b'b')).0 ≡ err ErrorCode.session_state)
    × ((after : List SessionCommand) × (later.commands ≡ (disconnect handle).1.commands ++ after)
        × All IsHarmless after)
disconnect-closes_example = disconnect-closes handle calls (unicode b'b')

-- The amount by which the wheel turned is lost.
wheel_amount : encode_input (mouse_wheel (pos 120) 1 2) ≡ encode_input (mouse_wheel (pos 1) 1 2)
unfolding encode_input
wheel_amount = refl

-- A character beyond U+FFFF is sent as another one.
wide_character : encode_input (unicode 0x1F600) ≡ encode_input (unicode 0xF600)
unfolding encode_input
wide_character = refl

-- A size whose bytes wrap at 2^32 panics.
size_overflow : apply_output task (desktop_size (record { width = 32768; height = 32768 })) ≡ none
unfolding apply_output Framebuffer.new Framebuffer.resize Framebuffer.resize_row for_rows_from slice
    copy_into
size_overflow = refl
