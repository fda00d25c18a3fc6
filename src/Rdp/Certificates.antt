-- ===== src/Rdp/Certificates.antt =====
-- The pinned certificates and the certificate policy of crates/rdt-rdp/src/tls.rs, and what
-- crates/rdt-rdp/src/session.rs makes of them when it connects. The messages of errors are left out.
pub mod Laws
pub mod Trust
mod Tests
use remote_desktop_tool.Prelude.{
  ℕ, Bool, true, false, not, List, [], ◌∷◌, ◌++◌, Option, none, some, if◌then◌else◌, take, length,
}
use remote_desktop_tool.Text.{same_text, is_nil}
use remote_desktop_tool.Types.Errors.{ErrorCode, RdtResult, ok, err}
use remote_desktop_tool.Types.Options.{
  CertPolicy, verify_chain, verify_or_pinned, trust_on_first_use,
}

pub data CertificateDecision : Type 0 where
  verified_by_ca : CertificateDecision
  pinned recorded_on_first_use : List ℕ → CertificateDecision

-- The map, each key once, and the path of its file.
pub record PinnedCertificates : Type 0 where
  pub entries : List (List ℕ × List ℕ)
  pub path : Option (List ℕ)

abbrev pub empty : PinnedCertificates
empty = record { entries = []; path = none }

pub record CertificateVerifier : Type 0 where
  pub policy : CertPolicy
  pub pins : PinnedCertificates
  pub host : List ℕ

-- The lookup, the insertion and the removal of a `HashMap`.
abbrev pub value_of : List (List ℕ × List ℕ) → List ℕ → Option (List ℕ)
value_of [] key = none
value_of (e ∷ entries) key =
    let rest = value_of entries key in if same_text e.0 key then some e.1 else rest

abbrev pub without_key : List (List ℕ × List ℕ) → List ℕ → List (List ℕ × List ℕ)
without_key [] key = []
without_key (e ∷ entries) key =
    let rest = without_key entries key in if same_text e.0 key then rest else e ∷ rest

abbrev pub with_value : List (List ℕ × List ℕ) → List ℕ → List ℕ → List (List ℕ × List ℕ)
with_value entries key value = (key, value) ∷ without_key entries key

abbrev pub is_some : Option (List ℕ) → Bool
is_some none = false
is_some (some text) = true

-- What reading the file of the pins gives.
pub data Reading : Type 0 where
  contents : List ℕ → Reading
  missing unreadable : Reading

-- Which calls of the operating system fail in `save`, and how much of the text is written before the
-- write fails.
pub record Faults : Type 0 where
  pub create_dir : Bool
  pub write : Option ℕ
  pub restrict : Bool

abbrev pub no_faults : Faults
no_faults = record { create_dir = false; write = none; restrict = false }

-- `str::to_lowercase`, the hexadecimal digits of the SHA-256 digest, and the JSON text of the map with
-- what is read back from a text, of other crates.
pub record Library : Type 0 where
  pub lower : List ℕ → List ℕ
  pub digest : List ℕ → List ℕ
  pub encode : List (List ℕ × List ℕ) → Option (List ℕ)
  pub decode : List ℕ → Option (List (List ℕ × List ℕ))

module _ (lib : Library) where
  abbrev pub load_parsed : List ℕ → Option (List (List ℕ × List ℕ)) → RdtResult PinnedCertificates
  load_parsed path none = err ErrorCode.config
  load_parsed path (some entries) = ok (record { entries = entries; path = some path })

  abbrev pub load : List ℕ → Reading → RdtResult PinnedCertificates
  load path (contents text) = load_parsed path (lib.decode text)
  load path missing = ok empty
  load path unreadable = err ErrorCode.io

  -- The pins of a connection: those of the file of the target, if it names one.
  abbrev pub open_pins : Option (List ℕ) → Reading → RdtResult PinnedCertificates
  open_pins none reading = ok empty
  open_pins (some path) reading = load path reading

  abbrev pub get : PinnedCertificates → List ℕ → Option (List ℕ)
  get pins host = value_of pins.entries (lib.lower host)

  abbrev pub pin : PinnedCertificates → List ℕ → List ℕ → PinnedCertificates
  pin pins host fingerprint = record pins {
    entries = with_value pins.entries (lib.lower host) fingerprint;
  }

  unfoldable pub unpin : PinnedCertificates → List ℕ → Bool × PinnedCertificates
  unpin pins host =
      (is_some (get pins host), record pins { entries = without_key pins.entries (lib.lower host) })

  -- `fs::write` and what follows it; the file is emptied before it is written.
  abbrev pub write_text : Faults → Option ℕ → List ℕ → RdtResult {0} Unit × Option (List ℕ)
  write_text faults (some n) text = (err ErrorCode.io, some (take n text))
  write_text faults none text =
      if faults.restrict then (err ErrorCode.permission, some text) else (ok tt, some text)

  abbrev pub save_encoded :
      Faults → Option (List ℕ) → Option (List ℕ) → RdtResult {0} Unit × Option (List ℕ)
  save_encoded faults none file = (err ErrorCode.config, file)
  save_encoded faults (some text) file = write_text faults faults.write text

  abbrev pub save_at :
      Faults
      → Option (List ℕ)
      → List (List ℕ × List ℕ)
      → Option (List ℕ)
      → RdtResult {0} Unit × Option (List ℕ)
  save_at faults none entries file = (err ErrorCode.config, file)
  save_at faults (some path) entries file =
      let saved = save_encoded faults (lib.encode entries) file in
      if faults.create_dir then (err ErrorCode.io, file) else saved

  -- `save`; the text of the file goes in and out.
  abbrev pub save :
      Faults → PinnedCertificates → Option (List ℕ) → RdtResult {0} Unit × Option (List ℕ)
  save faults pins file = save_at faults pins.path pins.entries file

  abbrev pub sha256_fingerprint : List ℕ → List ℕ
  sha256_fingerprint der = b's' ∷ b'h' ∷ b'a' ∷ b'2' ∷ b'5' ∷ b'6' ∷ b':' ∷ lib.digest der

  -- A result with the verifier and the text of the file after it.
  abbrev pub Verified : Type 0
  Verified = RdtResult CertificateDecision × CertificateVerifier × Option (List ℕ)

  -- The end of a first use, once the pins are saved.
  abbrev pub record_saved :
      RdtResult {0} Unit × Option (List ℕ) → CertificateVerifier → List ℕ → Verified
  record_saved (err code, file) v fingerprint = (err code, v, file)
  record_saved (ok u, file) v fingerprint = (ok (recorded_on_first_use fingerprint), v, file)

  abbrev pub first_use : Faults → CertificateVerifier → Option (List ℕ) → List ℕ → Verified
  first_use faults v file fingerprint =
      let after = record v { pins = pin v.pins v.host fingerprint } in
      record_saved (save faults after.pins file) after fingerprint

  -- The outcome for the pin of the host, if it has one.
  abbrev pub against_pin :
      Option (List ℕ) → Verified → CertificateVerifier → Option (List ℕ) → List ℕ → Verified
  against_pin none otherwise v file fingerprint = otherwise
  against_pin (some expected) otherwise v file fingerprint =
      if same_text expected fingerprint
      then (ok (pinned fingerprint), v, file)
      else (err ErrorCode.tls, v, file)

  abbrev pub by_policy :
      CertPolicy → Faults → CertificateVerifier → Option (List ℕ) → List ℕ → Verified
  by_policy verify_chain faults v file fingerprint = (err ErrorCode.tls, v, file)
  by_policy verify_or_pinned faults v file fingerprint =
      against_pin (get v.pins v.host) (err ErrorCode.tls, v, file) v file fingerprint
  by_policy trust_on_first_use faults v file fingerprint =
      against_pin (get v.pins v.host) (first_use faults v file fingerprint) v file fingerprint

  unfoldable pub verify : Faults → CertificateVerifier → Option (List ℕ) → List ℕ → Bool → Verified
  verify faults v file der ca_verified =
      let fingerprint = sha256_fingerprint der in
      if ca_verified
      then (ok verified_by_ca, v, file)
      else by_policy v.policy faults v file fingerprint

  -- `rustls_webpki_verified` of the session: any certificate that is not empty.
  abbrev pub rustls_webpki_verified : List ℕ → Bool
  rustls_webpki_verified der = not (is_nil der)

  -- The fingerprint that the session reports for a decision.
  abbrev pub decided_fingerprint : List ℕ → CertificateDecision → List ℕ
  decided_fingerprint der verified_by_ca = sha256_fingerprint der
  decided_fingerprint der (pinned fingerprint) = fingerprint
  decided_fingerprint der (recorded_on_first_use fingerprint) = fingerprint

  abbrev pub fingerprint_of : List ℕ → RdtResult CertificateDecision → RdtResult (List ℕ)
  fingerprint_of der (err code) = err code
  fingerprint_of der (ok decision) = ok (decided_fingerprint der decision)

  -- `tls::connect` of the session, once the handshake has given the certificate.
  unfoldable pub connect :
      Faults
      → CertificateVerifier
      → Option (List ℕ)
      → List ℕ
      → RdtResult (List ℕ) × CertificateVerifier × Option (List ℕ)
  connect faults v file der =
      let done = verify faults v file der (rustls_webpki_verified der) in
      (fingerprint_of der done.0, done.1, done.2)
