-- ===== src/Rdp/Session/Attempt.antt =====
-- Connecting and then running, crates/rdt-rdp/src/session.rs: which failures of an attempt are worth
-- another one, and the picture that an attempt starts with.
use remote_desktop_tool.Prelude.{
  ℕ, ◌*◌, ◌^◌, ◌<◌, ◌≡◌, ◌≢◌, refl, inl, inr, Bool, Bool-cases, true, false, ◌||◌, List, Option,
  none, some, max, All, Ensures,
}
use remote_desktop_tool.Text.{is_nil, same_text, trim}
use remote_desktop_tool.Types.Errors.{ErrorCode, RdtResult, ok, err, and_then, is_retryable}
use remote_desktop_tool.Types.Options.{
  CertPolicy, verify_chain, verify_or_pinned, trust_on_first_use,
}
use remote_desktop_tool.Rdp.Framebuffer.Runs.{new-IsValid}
use remote_desktop_tool.Rdp.Certificates.{
  CertificateDecision, PinnedCertificates, CertificateVerifier, Reading, contents, missing,
  unreadable, Faults, Library, load_parsed, load, open_pins, get, pin, write_text, save_encoded,
  save_at, save, sha256_fingerprint, Verified, record_saved, first_use, against_pin, by_policy,
  verify, rustls_webpki_verified, fingerprint_of,
}
use remote_desktop_tool.Rdp.Certificates
use remote_desktop_tool.Rdp.Session.{Turn, loop}
use remote_desktop_tool.Rdp.Session.Laws.{IsSound, BoundedTurn, loop-IsSound}
use remote_desktop_tool.Rdp.Session.Connect.{
  RdpTarget, StepOutcome, done, timed_out, failed, Network, Started, contains_text, credential_word,
  authentication_word, tls_word, certificate_word, map_connector, negotiated, finalized,
  unless_fails, presented, started, reach, secured, with_certificate, handshake, with_pins,
  when_reached, connect,
}

-- A failure, if it is one, is of a kind that is not tried again.
abbrev pub IsFinal {ℓ} : {A : Type ℓ} → RdtResult A → Type 0
IsFinal (ok a) = Unit
IsFinal (err code) = is_retryable code ≡ false

and_then-IsFinal {ℓ ℓ'} :
    {A : Type ℓ} {B : Type ℓ'} (m : RdtResult A) (f : A → RdtResult B)
    → IsFinal m
    → ((a : A) → IsFinal (f a))
    → IsFinal (and_then m f)
and_then-IsFinal (ok a) f h k = k a
and_then-IsFinal (err code) f h k = h

map_connector-final : (message : List ℕ) → is_retryable (map_connector message) ≡ false
unfolding map_connector
map_connector-final message =
    elim (Bool-cases
      (contains_text credential_word message || contains_text authentication_word message)) [
        | inl login ↦ rw login refl
        | inr other ↦
            elim (Bool-cases
              (contains_text tls_word message || contains_text certificate_word message)) [
                | inl secure ↦ rw (other, secure) refl
                | inr plain ↦ rw (other, plain) refl
              ]
      ]

unless_fails-IsFinal :
    (fails : Bool) (code : ErrorCode)
    → is_retryable code ≡ false
    → IsFinal (unless_fails fails code)
unless_fails-IsFinal true code h = h
unless_fails-IsFinal false code h = tt

write_text-IsFinal :
    (lib : Library) (faults : Faults) (write : Option ℕ) (text : List ℕ)
    → IsFinal (write_text lib faults write text).0
write_text-IsFinal lib faults (some n) text = refl
write_text-IsFinal lib faults none text = elim (Bool-cases faults.restrict) [
  | inl refused ↦ rw refused refl
  | inr restricted ↦ rw restricted tt
]

save_encoded-IsFinal :
    (lib : Library) (faults : Faults) (text file : Option (List ℕ))
    → IsFinal (save_encoded lib faults text file).0
save_encoded-IsFinal lib faults none file = refl
save_encoded-IsFinal lib faults (some text) file = write_text-IsFinal lib faults faults.write text

save_at-IsFinal :
    (lib : Library) (faults : Faults) (path : Option (List ℕ)) (entries : List (List ℕ × List ℕ))
    (file : Option (List ℕ))
    → IsFinal (save_at lib faults path entries file).0
save_at-IsFinal lib faults none entries file = refl
save_at-IsFinal lib faults (some path) entries file = elim (Bool-cases faults.create_dir) [
  | inl refused ↦ rw refused refl
  | inr there ↦ rw there (save_encoded-IsFinal lib faults (lib.encode entries) file)
]

module _ (lib : Library) where
  record_saved-IsFinal :
      (saved : RdtResult {0} Unit × Option (List ℕ)) (v : CertificateVerifier)
      (fingerprint : List ℕ)
      → IsFinal saved.0
      → IsFinal (record_saved lib saved v fingerprint).0
  record_saved-IsFinal (ok u, file) v fingerprint h = tt
  record_saved-IsFinal (err code, file) v fingerprint h = h

  against_pin-IsFinal :
      (found : Option (List ℕ)) (otherwise : Verified lib) (v : CertificateVerifier)
      (file : Option (List ℕ)) (fingerprint : List ℕ)
      → IsFinal otherwise.0
      → IsFinal (against_pin lib found otherwise v file fingerprint).0
  against_pin-IsFinal none otherwise v file fingerprint h = h
  against_pin-IsFinal (some expected) otherwise v file fingerprint h =
      elim (Bool-cases (same_text expected fingerprint)) [
        | inl same ↦ rw same tt
        | inr differs ↦ rw differs refl
      ]

  by_policy-IsFinal :
      (policy : CertPolicy) (faults : Faults) (v : CertificateVerifier) (file : Option (List ℕ))
      (fingerprint : List ℕ)
      → IsFinal (by_policy lib policy faults v file fingerprint).0
  by_policy-IsFinal verify_chain faults v file fingerprint = refl
  by_policy-IsFinal verify_or_pinned faults v file fingerprint =
      against_pin-IsFinal (get lib v.pins v.host) (err ErrorCode.tls, v, file) v file fingerprint
        refl
  by_policy-IsFinal trust_on_first_use faults v file fingerprint =
      let after : CertificateVerifier = record v { pins = pin lib v.pins v.host fingerprint } in
      against_pin-IsFinal (get lib v.pins v.host) (first_use lib faults v file fingerprint) v file
        fingerprint
        (record_saved-IsFinal (save lib faults after.pins file) after fingerprint
          (save_at-IsFinal lib faults v.pins.path after.pins.entries file))

  verify-IsFinal :
      (faults : Faults) (v : CertificateVerifier) (file : Option (List ℕ)) (der : List ℕ)
      (ca_verified : Bool)
      → IsFinal (verify lib faults v file der ca_verified).0
  unfolding verify
  verify-IsFinal faults v file der true = tt
  verify-IsFinal faults v file der false =
      by_policy-IsFinal v.policy faults v file (sha256_fingerprint lib der)

  fingerprint_of-IsFinal :
      (der : List ℕ) (r : RdtResult CertificateDecision)
      → IsFinal r
      → IsFinal (fingerprint_of lib der r)
  fingerprint_of-IsFinal der (ok decision) h = tt
  fingerprint_of-IsFinal der (err code) h = h

  load-IsFinal : (path : List ℕ) (reading : Reading) → IsFinal (load lib path reading)
  load-IsFinal path missing = tt
  load-IsFinal path unreadable = refl
  load-IsFinal path (contents text) = parsed (lib.decode text)
    where
      parsed : (read : Option (List (List ℕ × List ℕ))) → IsFinal (load_parsed lib path read)
      parsed none = refl
      parsed (some entries) = tt

  open_pins-IsFinal :
      (path : Option (List ℕ)) (reading : Reading) → IsFinal (open_pins lib path reading)
  open_pins-IsFinal none reading = tt
  open_pins-IsFinal (some path) reading = load-IsFinal path reading

finalized-IsFinal : (end : Option (List ℕ)) → IsFinal (finalized end)
finalized-IsFinal none = tt
finalized-IsFinal (some text) = map_connector-final text

negotiated-IsFinal : (o : StepOutcome) → o ≢ timed_out → IsFinal (negotiated o)
negotiated-IsFinal done h = tt
negotiated-IsFinal timed_out h = absurd (h refl)
negotiated-IsFinal (failed text) h = map_connector-final text

-- The connection to the host was made, and the negotiation was answered in time.
pub record IsReached (net : Network) : Type 0 where
  pub tcp_done : net.tcp ≡ done
  pub undelayed : net.nodelay_fails ≡ false
  pub peer_known : net.peer_fails ≡ false
  pub answered : net.negotiation ≢ timed_out

module _ (white : ℕ → Bool) (lib : Library) where
  reach-IsFinal :
      (net : Network) (target : RdpTarget) → IsReached net → IsFinal (reach white lib net target)
  reach-IsFinal net target h =
      and_then-IsFinal (unless_fails (is_nil (trim white target.host)) ErrorCode.invalid_input) _
        (unless_fails-IsFinal (is_nil (trim white target.host)) ErrorCode.invalid_input refl)
        (λ named.
          and_then-IsFinal
            (unless_fails (is_nil (trim white target.username)) ErrorCode.invalid_input) _
            (unless_fails-IsFinal (is_nil (trim white target.username)) ErrorCode.invalid_input
              refl)
            (λ login.
              rw (h.tcp_done, h.undelayed, h.peer_known)
                (negotiated-IsFinal net.negotiation h.answered)))

  secured-IsFinal :
      (net : Network) (target : RdpTarget)
      (r : RdtResult (List ℕ) × CertificateVerifier × Option (List ℕ))
      → IsFinal r.0
      → IsFinal (secured white lib net target r).0
  secured-IsFinal net target (r, v, file) h = and_then-IsFinal r _ h (λ fingerprint.
      and_then-IsFinal (finalized net.finalizing) _ (finalized-IsFinal net.finalizing) (λ end. tt))

  with_certificate-IsFinal :
      (faults : Faults) (net : Network) (target : RdpTarget) (file : Option (List ℕ))
      (pins : PinnedCertificates) (r : RdtResult (List ℕ))
      → IsFinal r
      → IsFinal (with_certificate white lib faults net target file pins r).0
  unfolding Certificates.connect
  with_certificate-IsFinal faults net target file pins (err code) h = h
  with_certificate-IsFinal faults net target file pins (ok der) h =
      let v : CertificateVerifier = record {
        policy = target.cert_policy;
        pins = pins;
        host = target.host;
      } in
      let verified = verify lib faults v file der (rustls_webpki_verified lib der) in
      secured-IsFinal net target (fingerprint_of lib der verified.0, verified.1, verified.2)
        (fingerprint_of-IsFinal lib der verified.0
          (verify-IsFinal lib faults v file der (rustls_webpki_verified lib der)))

  handshake-IsFinal : (net : Network) → IsFinal (handshake white lib net)
  handshake-IsFinal net =
      and_then-IsFinal (unless_fails net.tls_fails ErrorCode.tls) _
        (unless_fails-IsFinal net.tls_fails ErrorCode.tls refl)
        (λ connector. of_certificate net.certificate)
    where
      of_certificate : (certificate : Option (List ℕ)) → IsFinal (presented certificate)
      of_certificate none = refl
      of_certificate (some der) = tt

  with_pins-IsFinal :
      (faults : Faults) (net : Network) (target : RdpTarget) (file : Option (List ℕ))
      (r : RdtResult PinnedCertificates)
      → IsFinal r
      → IsFinal (with_pins white lib faults net target file r).0
  with_pins-IsFinal faults net target file (err code) h = h
  with_pins-IsFinal faults net target file (ok pins) h =
      with_certificate-IsFinal faults net target file pins (handshake white lib net)
        (handshake-IsFinal net)

  when_reached-IsFinal :
      (faults : Faults) (net : Network) (target : RdpTarget) (file : Option (List ℕ))
      (r : RdtResult {0} Unit)
      → IsFinal r
      → IsFinal (when_reached white lib faults net target file r).0
  when_reached-IsFinal faults net target file (err code) h = h
  when_reached-IsFinal faults net target file (ok u) h =
      with_pins-IsFinal faults net target file (open_pins lib target.pin_store net.pins)
        (open_pins-IsFinal lib target.pin_store net.pins)

  -- Once the host is reached and the negotiation answered in time, a failure to connect is of a kind that
  -- is not tried again, whatever it is: a refused credential, a certificate, the file of the pins or an
  -- error of the protocol.
  pub connect-IsFinal :
      (faults : Faults) (net : Network) (target : RdpTarget) (file : Option (List ℕ))
      → IsReached net
      → IsFinal (connect white lib faults net target file).0
  unfolding connect
  connect-IsFinal faults net target file h =
      when_reached-IsFinal faults net target file (reach white lib net target)
        (reach-IsFinal net target h)

-- A result, if there is one, satisfies the predicate.
abbrev pub Holds {ℓ} : {A : Type ℓ} → (A → Type 0) → RdtResult A → Type 0
Holds P (ok a) = P a
Holds P (err code) = Unit

and_then-Holds {ℓ ℓ'} :
    {A : Type ℓ} {B : Type ℓ'} (P : B → Type 0) (m : RdtResult A) (f : A → RdtResult B)
    → ((a : A) → Holds P (f a))
    → Holds P (and_then m f)
and_then-Holds P (ok a) f h = h a
and_then-Holds P (err code) f h = tt

module _ (white : ℕ → Bool) (lib : Library) (P : Started → Type 0) where
  secured-Holds :
      (net : Network) (target : RdpTarget)
      (r : RdtResult (List ℕ) × CertificateVerifier × Option (List ℕ))
      → ((fingerprint : List ℕ) → P (started target net.server_name fingerprint))
      → Holds P (secured white lib net target r).0
  secured-Holds net target (r, v, file) h =
      and_then-Holds P r _
        (λ fingerprint. and_then-Holds P (finalized net.finalizing) _ (λ end. h fingerprint))

  with_certificate-Holds :
      (faults : Faults) (net : Network) (target : RdpTarget) (file : Option (List ℕ))
      (pins : PinnedCertificates) (r : RdtResult (List ℕ))
      → ((fingerprint : List ℕ) → P (started target net.server_name fingerprint))
      → Holds P (with_certificate white lib faults net target file pins r).0
  with_certificate-Holds faults net target file pins (err code) h = tt
  with_certificate-Holds faults net target file pins (ok der) h =
      let v : CertificateVerifier = record {
        policy = target.cert_policy;
        pins = pins;
        host = target.host;
      } in
      secured-Holds net target (Certificates.connect lib faults v file der) h

  with_pins-Holds :
      (faults : Faults) (net : Network) (target : RdpTarget) (file : Option (List ℕ))
      (r : RdtResult PinnedCertificates)
      → ((fingerprint : List ℕ) → P (started target net.server_name fingerprint))
      → Holds P (with_pins white lib faults net target file r).0
  with_pins-Holds faults net target file (err code) h = tt
  with_pins-Holds faults net target file (ok pins) h =
      with_certificate-Holds faults net target file pins (handshake white lib net) h

  -- A session that is connected begins as `started` says.
  connect-Holds :
      (faults : Faults) (net : Network) (target : RdpTarget) (file : Option (List ℕ))
      (r : RdtResult {0} Unit)
      → ((fingerprint : List ℕ) → P (started target net.server_name fingerprint))
      → Holds P (when_reached white lib faults net target file r).0
  connect-Holds faults net target file (err code) h = tt
  connect-Holds faults net target file (ok u) h =
      with_pins-Holds faults net target file (open_pins lib target.pin_store net.pins) h

-- A session that is connected, with a desktop of fewer than 2^32 bytes, runs without a panic whatever
-- commands and packets come and however ironrdp answers them, if every new size has fewer than 2^32 bytes
-- too: its picture is valid all the time, and each frame that it reports has its damage inside the size
-- that it reports.
pub connect-loop :
    (white : ℕ → Bool) (lib : Library) (faults : Faults) (net : Network) (target : RdpTarget)
    (file : Option (List ℕ)) (turns : List Turn)
    → max target.desktop.width 1 * max target.desktop.height 1 * 4 < 2 ^ 32
    → All BoundedTurn turns
    → Holds
        (λ s. Ensures (λ r. IsSound r.1) (loop s.task turns))
        (connect white lib faults net target file).0
unfolding connect
connect-loop white lib faults net target file turns small bounded =
    connect-Holds white lib (λ s. Ensures (λ r. IsSound r.1) (loop s.task turns)) faults net target
      file (reach white lib net target)
      (λ fingerprint.
        loop-IsSound turns (started target net.server_name fingerprint).task bounded (record {
          picture = new-IsValid target.desktop.width target.desktop.height small;
          frames_inside = tt;
        }))
