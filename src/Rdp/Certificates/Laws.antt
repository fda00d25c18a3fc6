-- ===== src/Rdp/Certificates/Laws.antt =====
-- What each decision of `verify` is founded on.
use remote_desktop_tool.Prelude.{
  ℕ, ◌≡◌, refl, ap, ◌∙◌, inl, inr, arith, Bool, Bool-cases, true, false, List, Option, none, some,
}
use remote_desktop_tool.Text.{same_text, is_nil}
use remote_desktop_tool.Text.Splits.{same_text_refl, same_text_sound}
use remote_desktop_tool.Types.Errors.{ErrorCode, RdtResult, ok, err}
use remote_desktop_tool.Types.Options.{
  CertPolicy, verify_chain, verify_or_pinned, trust_on_first_use,
}
use remote_desktop_tool.Rdp.Certificates.{
  CertificateDecision, verified_by_ca, pinned, recorded_on_first_use, PinnedCertificates,
  CertificateVerifier, value_of, with_value, Reading, contents, missing, Faults, Library, open_pins,
  get, pin, save, write_text, save_encoded, save_at, sha256_fingerprint, Verified, record_saved,
  first_use, against_pin, by_policy, verify, connect,
}

-- Whether a policy looks at the pins.
abbrev pub uses_pins : CertPolicy → Bool
uses_pins verify_chain = false
uses_pins verify_or_pinned = true
uses_pins trust_on_first_use = true

-- Reading a file that is there, or not.
abbrev pub read_file : Option (List ℕ) → Reading
read_file none = missing
read_file (some text) = contents text

pub value_of-with_value :
    (entries : List (List ℕ × List ℕ)) (key value : List ℕ)
    → value_of (with_value entries key value) key ≡ some value
value_of-with_value entries key value = rw (same_text_refl key) refl

module _ (lib : Library) where
  -- What a decision about a certificate is founded on, in the verifier before and after.
  abbrev pub Founded :
      CertificateVerifier → List ℕ → Bool → Verified lib → CertificateDecision → Type 0
  Founded v der ca_verified done verified_by_ca = ca_verified ≡ true
  Founded v der ca_verified done (pinned fingerprint) =
      (uses_pins v.policy ≡ true)
      × (fingerprint ≡ sha256_fingerprint lib der)
      × (get lib v.pins v.host ≡ some fingerprint)
      × (done.1 ≡ v)
  Founded v der ca_verified done (recorded_on_first_use fingerprint) =
      (v.policy ≡ trust_on_first_use)
      × (fingerprint ≡ sha256_fingerprint lib der)
      × (get lib v.pins v.host ≡ none)
      × (get lib done.1.pins v.host ≡ some fingerprint)
      × (done.2 ≡ lib.encode done.1.pins.entries)

  -- An outcome with an error is founded anyhow.
  abbrev pub IsFounded : CertificateVerifier → List ℕ → Bool → Verified lib → Type 0
  IsFounded v der ca_verified (err code, after, file) = Unit
  IsFounded v der ca_verified (ok decision, after, file) =
      Founded v der ca_verified (ok decision, after, file) decision

  against_pin-IsFounded :
      (v : CertificateVerifier) (file : Option (List ℕ)) (der : List ℕ) (otherwise : Verified lib)
      (expected : Option (List ℕ))
      → uses_pins v.policy ≡ true
      → get lib v.pins v.host ≡ expected
      → (get lib v.pins v.host ≡ none → IsFounded v der false otherwise)
      → IsFounded v der false
          (against_pin lib expected otherwise v file (sha256_fingerprint lib der))
  against_pin-IsFounded v file der otherwise none uses e h = h e
  against_pin-IsFounded v file der otherwise (some expected) uses e h =
      elim (Bool-cases (same_text expected (sha256_fingerprint lib der))) [
        | inl same ↦ rw same (
          uses,
          refl,
          e ∙ ap some (same_text_sound expected (sha256_fingerprint lib der) same),
          refl,
        )
        | inr differs ↦ rw differs tt
      ]

  save_encoded-file :
      (faults : Faults) (text file : Option (List ℕ))
      → (save_encoded lib faults text file).0 ≡ ok tt
      → (save_encoded lib faults text file).1 ≡ text
  save_encoded-file faults none file h = absurd (ground arith)
  save_encoded-file faults (some text) file h = write_text-file faults.write h
    where
      write_text-file :
          (write : Option ℕ)
          → (write_text lib faults write text).0 ≡ ok tt
          → (write_text lib faults write text).1 ≡ some text
      write_text-file (some n) e = absurd (ground arith)
      write_text-file none e = elim (Bool-cases faults.restrict) [
        | inl refused ↦ rw refused refl
        | inr restricted ↦ rw restricted refl
      ]

  -- A save that succeeds has left the encoding of the map in the file.
  save_at-file :
      (faults : Faults) (path : Option (List ℕ)) (entries : List (List ℕ × List ℕ))
      (file : Option (List ℕ))
      → (save_at lib faults path entries file).0 ≡ ok tt
      → (save_at lib faults path entries file).1 ≡ lib.encode entries
  save_at-file faults none entries file h = absurd (ground arith)
  save_at-file faults (some path) entries file h = elim (Bool-cases faults.create_dir) [
    | inl refused ↦ absurd (ground arith)
    | inr there ↦ rw there (save_encoded-file faults (lib.encode entries) file (rw there at h))
  ]

  record_saved-IsFounded :
      (v : CertificateVerifier) (der : List ℕ) (saved : RdtResult {0} Unit × Option (List ℕ))
      → let after = record v { pins = pin lib v.pins v.host (sha256_fingerprint lib der) } in
        v.policy ≡ trust_on_first_use
        → get lib v.pins v.host ≡ none
        → (saved.0 ≡ ok tt → saved.1 ≡ lib.encode after.pins.entries)
        → IsFounded v der false (record_saved lib saved after (sha256_fingerprint lib der))
  record_saved-IsFounded v der (err code, file) p e h = tt
  record_saved-IsFounded v der (ok tt, file) p e h = (
    p,
    refl,
    e,
    value_of-with_value v.pins.entries (lib.lower v.host) (sha256_fingerprint lib der),
    h refl,
  )

  by_policy-IsFounded :
      (policy : CertPolicy) (faults : Faults) (v : CertificateVerifier) (file : Option (List ℕ))
      (der : List ℕ)
      → v.policy ≡ policy
      → IsFounded v der false (by_policy lib policy faults v file (sha256_fingerprint lib der))
  by_policy-IsFounded verify_chain faults v file der p = tt
  by_policy-IsFounded verify_or_pinned faults v file der p =
      against_pin-IsFounded v file der (err ErrorCode.tls, v, file) (get lib v.pins v.host)
        (ap uses_pins p) refl (λ e. tt)
  by_policy-IsFounded trust_on_first_use faults v file der p =
      let after = record v { pins = pin lib v.pins v.host (sha256_fingerprint lib der) } in
      against_pin-IsFounded v file der (first_use lib faults v file (sha256_fingerprint lib der))
        (get lib v.pins v.host) (ap uses_pins p) refl
        (λ e.
          record_saved-IsFounded v der (save lib faults after.pins file) p e
            (save_at-file faults v.pins.path after.pins.entries file))

  -- Whatever `verify` accepts has a foundation: a certificate is verified by an authority only where the
  -- chain was; it is pinned only under a policy that uses the pins, where its fingerprint is the one on
  -- record for the host, and nothing changes; it is recorded only under trust on first use, where the host
  -- had no pin, and then its fingerprint is on record for the host and the map is in the file.
  pub verify-IsFounded :
      (faults : Faults) (v : CertificateVerifier) (file : Option (List ℕ)) (der : List ℕ)
      (ca_verified : Bool)
      → IsFounded v der ca_verified (verify lib faults v file der ca_verified)
  unfolding verify
  verify-IsFounded faults v file der true = refl
  verify-IsFounded faults v file der false = by_policy-IsFounded v.policy faults v file der refl

  -- The session never consults the pins or the policy: whatever certificate the server presents, if it is
  -- not empty, the connection accepts it and reports its fingerprint, and changes neither the pins nor
  -- their file.
  pub connect-accepts :
      (faults : Faults) (v : CertificateVerifier) (file : Option (List ℕ)) (der : List ℕ)
      → is_nil der ≡ false
      → connect lib faults v file der ≡ (ok (sha256_fingerprint lib der), v, file)
  unfolding connect verify
  connect-accepts faults v file der h = rw h refl

  -- The outcome of `verify` with the pins that were opened, and the text of the file then.
  abbrev pub verify_opened :
      RdtResult PinnedCertificates
      → CertPolicy
      → List ℕ
      → Faults
      → Option (List ℕ)
      → List ℕ
      → RdtResult CertificateDecision × Option (List ℕ)
  verify_opened (err code) policy host faults file der = (err code, file)
  verify_opened (ok pins) policy host faults file der =
      let v : CertificateVerifier = record { policy = policy; pins = pins; host = host } in
      let done = verify lib faults v file der false in (done.0, done.2)

  -- With trust on first use and a file of pins that does not exist yet, no certificate whose chain is not
  -- verified is ever accepted, and the file is not created: the pins that are loaded have no path.
  pub open_pins-missing :
      (path host der : List ℕ) (faults : Faults)
      → verify_opened (open_pins lib (some path) missing) trust_on_first_use host faults none der
        ≡ (err ErrorCode.config, none)
  unfolding verify
  open_pins-missing path host der faults = refl
