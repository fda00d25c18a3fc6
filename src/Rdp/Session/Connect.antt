-- ===== src/Rdp/Session/Connect.antt =====
-- `connect` of crates/rdt-rdp/src/session.rs. What the network, the handshakes and the file of the pins
-- give is in `Network`; the parts of the configuration that ironrdp alone reads are left out.
use remote_desktop_tool.Prelude.{
  ℕ, Bool, true, false, ◌||◌, List, [], ◌∷◌, ◌++◌, Option, none, some, if◌then◌else◌,
}
use remote_desktop_tool.Text.{is_nil, starts_with, decimal, trim}
use remote_desktop_tool.Types.Errors.{ErrorCode, RdtResult, ok, err, and_then}
use remote_desktop_tool.Types.Options.{CertPolicy, CredentialSource, KeyboardLayout}
use remote_desktop_tool.Rdp.Framebuffer
use remote_desktop_tool.Rdp.Certificates.{
  PinnedCertificates, CertificateVerifier, Reading, Faults, Library, open_pins,
}
use remote_desktop_tool.Rdp.Certificates
use remote_desktop_tool.Rdp.Session.{DesktopSize, no_counts, Task}
use remote_desktop_tool.Rdp.Session.Handle.{Handle}

-- `?`, for do blocks.
infixl 1 ◌>>=◌
abbrev ◌>>=◌ {ℓ ℓ'} : {A : Type ℓ} {B : Type ℓ'} → RdtResult A → (A → RdtResult B) → RdtResult B
m >>= f = and_then m f

pub record RdpTarget : Type 0 where
  pub host : List ℕ
  pub port : ℕ
  pub username : List ℕ
  pub domain : Option (List ℕ)
  pub credential : CredentialSource
  pub cert_policy : CertPolicy
  pub pin_store : Option (List ℕ)
  pub desktop : DesktopSize
  pub keyboard : KeyboardLayout
  pub console_session : Bool
  pub connect_timeout : ℕ
  pub allow_tls_fallback : Bool

abbrev pub address : RdpTarget → List ℕ
address target = target.host ++ (b':' ∷ decimal target.port)

-- A step with a timeout; an error comes with its text.
pub data StepOutcome : Type 0 where
  done timed_out : StepOutcome
  failed : List ℕ → StepOutcome

pub record Network : Type 0 where
  pub tcp : StepOutcome
  pub nodelay_fails : Bool
  pub peer_fails : Bool
  pub negotiation : StepOutcome
  pub server_name : Option (List ℕ)
  pub pins : Reading
  pub tls_fails : Bool
  pub certificate : Option (List ℕ)
  pub finalizing : Option (List ℕ)

-- The session that `connect` returns, with the task that it has started.
pub record Started : Type 0 where
  pub handle : Handle
  pub desktop : DesktopSize
  pub fingerprint : Option (List ℕ)
  pub server_name : Option (List ℕ)
  pub task : Task

-- `str::contains`.
abbrev pub contains_text : List ℕ → List ℕ → Bool
contains_text part [] = is_nil part
contains_text part (c ∷ text) = starts_with part (c ∷ text) || contains_text part text

-- "credential", "authentication", "TLS" and "certificate".
abbrev pub credential_word : List ℕ
credential_word = b'c' ∷ b'r' ∷ b'e' ∷ b'd' ∷ b'e' ∷ b'n' ∷ b't' ∷ b'i' ∷ b'a' ∷ b'l' ∷ []

abbrev pub authentication_word : List ℕ
authentication_word =
    b'a' ∷ b'u' ∷ b't' ∷ b'h' ∷ b'e' ∷ b'n' ∷ b't' ∷ b'i' ∷ b'c' ∷ b'a' ∷ b't' ∷ b'i' ∷ b'o' ∷ b'n'
    ∷ []

abbrev pub tls_word : List ℕ
tls_word = b'T' ∷ b'L' ∷ b'S' ∷ []

abbrev pub certificate_word : List ℕ
certificate_word = b'c' ∷ b'e' ∷ b'r' ∷ b't' ∷ b'i' ∷ b'f' ∷ b'i' ∷ b'c' ∷ b'a' ∷ b't' ∷ b'e' ∷ []

unfoldable pub map_connector : List ℕ → ErrorCode
map_connector message =
    if contains_text credential_word message || contains_text authentication_word message
    then ErrorCode.authentication
    else if contains_text tls_word message || contains_text certificate_word message
    then ErrorCode.tls
    else ErrorCode.protocol

abbrev pub reached : StepOutcome → RdtResult {0} Unit
reached done = ok tt
reached timed_out = err ErrorCode.timeout
reached (failed text) = err ErrorCode.network

abbrev pub negotiated : StepOutcome → RdtResult {0} Unit
negotiated done = ok tt
negotiated timed_out = err ErrorCode.timeout
negotiated (failed text) = err (map_connector text)

abbrev pub finalized : Option (List ℕ) → RdtResult {0} Unit
finalized none = ok tt
finalized (some text) = err (map_connector text)

abbrev pub unless_fails : Bool → ErrorCode → RdtResult {0} Unit
unless_fails true code = err code
unless_fails false code = ok tt

abbrev pub presented : Option (List ℕ) → RdtResult (List ℕ)
presented none = err ErrorCode.tls
presented (some der) = ok der

-- The session with its task, when all has gone well.
abbrev pub started : RdpTarget → Option (List ℕ) → List ℕ → Started
started target name fingerprint = record {
  handle = record { closing = false; receiving = true; commands = [] };
  desktop = target.desktop;
  fingerprint = some fingerprint;
  server_name = name;
  task = record {
    framebuffer = Framebuffer.new target.desktop.width target.desktop.height;
    counters = no_counts;
    closing = false;
    events = [];
  };
}

-- `white` is `char::is_whitespace` of the standard library.
module _ (white : ℕ → Bool) (lib : Library) where
  -- `connect` up to the negotiation.
  abbrev pub reach : Network → RdpTarget → RdtResult {0} Unit
  reach net target = do
    named ← unless_fails (is_nil (trim white target.host)) ErrorCode.invalid_input
    login ← unless_fails (is_nil (trim white target.username)) ErrorCode.invalid_input
    stream ← reached net.tcp
    undelayed ← unless_fails net.nodelay_fails ErrorCode.network
    peer ← unless_fails net.peer_fails ErrorCode.network
    negotiated net.negotiation

  -- The verification of the certificate, the end of the handshake, and the start of the task.
  abbrev pub secured :
      Network
      → RdpTarget
      → RdtResult (List ℕ) × CertificateVerifier × Option (List ℕ)
      → RdtResult Started × Option (List ℕ)
  secured net target (r, v, file) = (
    (do
      fingerprint ← r
      end ← finalized net.finalizing
      ok (started target net.server_name fingerprint)),
    file,
  )

  abbrev pub with_certificate :
      Faults
      → Network
      → RdpTarget
      → Option (List ℕ)
      → PinnedCertificates
      → RdtResult (List ℕ)
      → RdtResult Started × Option (List ℕ)
  with_certificate faults net target file pins (err code) = (err code, file)
  with_certificate faults net target file pins (ok der) = secured net target (
      Certificates.connect lib faults
        (record { policy = target.cert_policy; pins = pins; host = target.host }) file der)

  -- The certificate that the handshake gives.
  abbrev pub handshake : Network → RdtResult (List ℕ)
  handshake net = do connector ← unless_fails net.tls_fails ErrorCode.tls; presented net.certificate

  abbrev pub with_pins :
      Faults
      → Network
      → RdpTarget
      → Option (List ℕ)
      → RdtResult PinnedCertificates
      → RdtResult Started × Option (List ℕ)
  with_pins faults net target file (err code) = (err code, file)
  with_pins faults net target file (ok pins) =
      with_certificate faults net target file pins (handshake net)

  abbrev pub when_reached :
      Faults
      → Network
      → RdpTarget
      → Option (List ℕ)
      → RdtResult {0} Unit
      → RdtResult Started × Option (List ℕ)
  when_reached faults net target file (err code) = (err code, file)
  when_reached faults net target file (ok u) =
      with_pins faults net target file (open_pins lib target.pin_store net.pins)

  -- `connect`; the text of the file of the pins goes in and out.
  unfoldable pub connect :
      Faults → Network → RdpTarget → Option (List ℕ) → RdtResult Started × Option (List ℕ)
  connect faults net target file = when_reached faults net target file (reach net target)
