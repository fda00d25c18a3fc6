-- ===== src/Rdp/Certificates/Trust.antt =====
-- Trust on first use over many connections to a host, and over restarts of the program.
use remote_desktop_tool.Prelude.{
  ℕ, ◌≡◌, refl, sym, ap, ◌∙◌, inl, inr, arith, Bool-cases, true, false, List, [], ◌∷◌, Option, none,
  some, if◌then◌else◌, All,
}
use remote_desktop_tool.Text.{same_text}
use remote_desktop_tool.Text.Splits.{same_text_sound}
use remote_desktop_tool.Types.Errors.{ErrorCode, RdtResult, ok, err}
use remote_desktop_tool.Types.Options.{
  CertPolicy, verify_chain, verify_or_pinned, trust_on_first_use,
}
use remote_desktop_tool.Rdp.Certificates.{
  CertificateDecision, pinned, recorded_on_first_use, PinnedCertificates, CertificateVerifier,
  value_of, with_value, Faults, no_faults, Library, open_pins, get, pin, save, sha256_fingerprint,
  Verified, record_saved, first_use, against_pin, by_policy, verify,
}
use remote_desktop_tool.Rdp.Certificates.Laws.{
  uses_pins, value_of-with_value, read_file, verify_opened,
}

module _ (lib : Library) where
  -- The fingerprints of the certificates that are accepted, of those that are presented one after the other
  -- and whose chains are not verified.
  abbrev pub and_accepted : RdtResult CertificateDecision → List ℕ → List (List ℕ) → List (List ℕ)
  and_accepted (err code) fingerprint rest = rest
  and_accepted (ok decision) fingerprint rest = fingerprint ∷ rest

  abbrev pub accepted :
      CertificateVerifier → Option (List ℕ) → List (Faults × List ℕ) → List (List ℕ)
  accepted v file [] = []
  accepted v file (c ∷ certificates) =
      let done = verify lib c.0 v file c.1 false in
      and_accepted done.0 (sha256_fingerprint lib c.1) (accepted done.1 done.2 certificates)

  -- All texts of the list are the same.
  abbrev pub AllSame : List (List ℕ) → Type 0
  AllSame [] = Unit
  AllSame (text ∷ texts) = All (λ t. t ≡ text) texts

  -- The pin that is on record for the host of the verifier.
  abbrev Pins : CertificateVerifier → List ℕ → Type 0
  Pins v expected = get lib v.pins v.host ≡ some expected

  -- A certificate that is accepted is the one on record, which it stays.
  abbrev Holds : List ℕ → List ℕ → Verified lib → Type 0
  Holds expected fingerprint (err code, after, file) = Pins after expected
  Holds expected fingerprint (ok decision, after, file) =
      Pins after expected × (fingerprint ≡ expected)

  -- A certificate that is accepted is on record from then on.
  abbrev Records : List ℕ → Verified lib → Type 0
  Records fingerprint (err code, after, file) = Unit
  Records fingerprint (ok decision, after, file) = Pins after fingerprint

  against_pin-Holds :
      (v : CertificateVerifier) (file : Option (List ℕ)) (expected fingerprint : List ℕ)
      (otherwise : Verified lib) (found : Option (List ℕ))
      → Pins v expected
      → found ≡ some expected
      → Holds expected fingerprint (against_pin lib found otherwise v file fingerprint)
  against_pin-Holds v file expected fingerprint otherwise none h e = absurd (ground arith)
  against_pin-Holds v file expected fingerprint otherwise (some known) h e =
      elim (Bool-cases (same_text known fingerprint)) [
        | inl same ↦
            let as_known : known ≡ expected = ground arith in
            rw same (h, sym (same_text_sound known fingerprint same) ∙ as_known)
        | inr differs ↦ rw differs h
      ]

  by_policy-Holds :
      (policy : CertPolicy) (faults : Faults) (v : CertificateVerifier) (file : Option (List ℕ))
      (expected fingerprint : List ℕ)
      → Pins v expected
      → Holds expected fingerprint (by_policy lib policy faults v file fingerprint)
  by_policy-Holds verify_chain faults v file expected fingerprint h = h
  by_policy-Holds verify_or_pinned faults v file expected fingerprint h =
      against_pin-Holds v file expected fingerprint _ (get lib v.pins v.host) h h
  by_policy-Holds trust_on_first_use faults v file expected fingerprint h =
      against_pin-Holds v file expected fingerprint _ (get lib v.pins v.host) h h

  against_pin-Records :
      (v : CertificateVerifier) (file : Option (List ℕ)) (fingerprint : List ℕ)
      (otherwise : Verified lib) (found : Option (List ℕ))
      → get lib v.pins v.host ≡ found
      → Records fingerprint otherwise
      → Records fingerprint (against_pin lib found otherwise v file fingerprint)
  against_pin-Records v file fingerprint otherwise none e h = h
  against_pin-Records v file fingerprint otherwise (some known) e h =
      elim (Bool-cases (same_text known fingerprint)) [
        | inl same ↦ rw same (e ∙ ap some (same_text_sound known fingerprint same))
        | inr differs ↦ rw differs tt
      ]

  record_saved-Records :
      (v : CertificateVerifier) (fingerprint : List ℕ)
      (saved : RdtResult {0} Unit × Option (List ℕ))
      → Pins v fingerprint
      → Records fingerprint (record_saved lib saved v fingerprint)
  record_saved-Records v fingerprint (err code, file) h = tt
  record_saved-Records v fingerprint (ok u, file) h = h

  by_policy-Records :
      (policy : CertPolicy) (faults : Faults) (v : CertificateVerifier) (file : Option (List ℕ))
      (fingerprint : List ℕ)
      → Records fingerprint (by_policy lib policy faults v file fingerprint)
  by_policy-Records verify_chain faults v file fingerprint = tt
  by_policy-Records verify_or_pinned faults v file fingerprint =
      against_pin-Records v file fingerprint _ (get lib v.pins v.host) refl tt
  by_policy-Records trust_on_first_use faults v file fingerprint =
      let after : CertificateVerifier = record v { pins = pin lib v.pins v.host fingerprint } in
      against_pin-Records v file fingerprint _ (get lib v.pins v.host) refl (
        record_saved-Records after fingerprint (save lib faults after.pins file)
          (value_of-with_value v.pins.entries (lib.lower v.host) fingerprint))

  and_accepted-All :
      (expected fingerprint : List ℕ) (done : Verified lib) (rest : List (List ℕ))
      → Holds expected fingerprint done
      → All (λ t. t ≡ expected) rest
      → All (λ t. t ≡ expected) (and_accepted done.0 fingerprint rest)
  and_accepted-All expected fingerprint (err code, after, file) rest h rests = rests
  and_accepted-All expected fingerprint (ok decision, after, file) rest h rests = (h.1, rests)

  Holds-Pins :
      (expected fingerprint : List ℕ) (done : Verified lib)
      → Holds expected fingerprint done
      → Pins done.1 expected
  Holds-Pins expected fingerprint (err code, after, file) h = h
  Holds-Pins expected fingerprint (ok decision, after, file) h = h.0

  accepted-All :
      (certificates : List (Faults × List ℕ)) (v : CertificateVerifier) (file : Option (List ℕ))
      (expected : List ℕ)
      → Pins v expected
      → All (λ t. t ≡ expected) (accepted v file certificates)
  unfolding verify
  accepted-All [] v file expected h = tt
  accepted-All (c ∷ certificates) v file expected h =
      let fingerprint = sha256_fingerprint lib c.1 in
      let done = by_policy lib v.policy c.0 v file fingerprint in
      let holds : Holds expected fingerprint done =
        by_policy-Holds v.policy c.0 v file expected fingerprint h in
      and_accepted-All expected fingerprint done (accepted done.1 done.2 certificates) holds (
        accepted-All certificates done.1 done.2 expected
          (Holds-Pins expected fingerprint done holds))

  and_accepted-AllSame :
      (fingerprint : List ℕ) (done : Verified lib) (rest : List (List ℕ))
      → Records fingerprint done
      → AllSame rest
      → (Pins done.1 fingerprint → All (λ t. t ≡ fingerprint) rest)
      → AllSame (and_accepted done.0 fingerprint rest)
  and_accepted-AllSame fingerprint (err code, after, file) rest h same alike = same
  and_accepted-AllSame fingerprint (ok decision, after, file) rest h same alike = alike h

  -- Under every policy, whatever certificates a host presents whose chains are not verified, and whatever
  -- calls fail while the pins are saved, all that the verifier accepts have one and the same fingerprint.
  pub accepted-AllSame :
      (certificates : List (Faults × List ℕ)) (v : CertificateVerifier) (file : Option (List ℕ))
      → AllSame (accepted v file certificates)
  unfolding verify
  accepted-AllSame [] v file = tt
  accepted-AllSame (c ∷ certificates) v file =
      let fingerprint = sha256_fingerprint lib c.1 in
      let done = by_policy lib v.policy c.0 v file fingerprint in
      and_accepted-AllSame fingerprint done (accepted done.1 done.2 certificates)
        (by_policy-Records v.policy c.0 v file fingerprint)
        (accepted-AllSame certificates done.1 done.2)
        (λ h. accepted-All certificates done.1 done.2 fingerprint h)

  -- The JSON text of a map can be read, to a map with the same values.
  abbrev pub Codec : Type 0
  Codec =
      (entries : List (List ℕ × List ℕ)) (text : List ℕ)
      → lib.encode entries ≡ some text
      → (read : List (List ℕ × List ℕ)) × (lib.decode text ≡ some read)
        × ((key : List ℕ) → value_of read key ≡ value_of entries key)

  first_use_saved :
      (v : CertificateVerifier) (file : Option (List ℕ)) (path der text : List ℕ)
      → v.policy ≡ trust_on_first_use
      → v.pins.path ≡ some path
      → get lib v.pins v.host ≡ none
      → lib.encode (with_value v.pins.entries (lib.lower v.host) (sha256_fingerprint lib der))
        ≡ some text
      → let fingerprint = sha256_fingerprint lib der in
        verify lib no_faults v file der false ≡ (
          ok (recorded_on_first_use fingerprint),
          record v { pins = pin lib v.pins v.host fingerprint },
          some text,
        )
  unfolding verify
  first_use_saved v file path der text p at fresh e = rw (p, fresh, at, e) refl

  against_pin-result :
      (known fingerprint : List ℕ) (otherwise : Verified lib) (v : CertificateVerifier)
      (file : Option (List ℕ))
      → (against_pin lib (some known) otherwise v file fingerprint).0
        ≡ (if same_text known fingerprint then ok (pinned fingerprint) else err ErrorCode.tls)
  against_pin-result known fingerprint otherwise v file =
      elim (Bool-cases (same_text known fingerprint)) [
        | inl same ↦ rw same refl
        | inr differs ↦ rw differs refl
      ]

  pinned_opened :
      (policy : CertPolicy) (pins : PinnedCertificates) (faults : Faults) (host der known : List ℕ)
      (file : Option (List ℕ))
      → uses_pins policy ≡ true
      → get lib pins host ≡ some known
      → (verify_opened lib (ok pins) policy host faults file der).0 ≡ (
          if same_text known (sha256_fingerprint lib der)
          then ok (pinned (sha256_fingerprint lib der))
          else err ErrorCode.tls)
  unfolding verify
  pinned_opened verify_chain pins faults host der known file u e = absurd (ground arith)
  pinned_opened verify_or_pinned pins faults host der known file u e =
      let v : CertificateVerifier = record {
        policy = verify_or_pinned;
        pins = pins;
        host = host;
      } in
      rw e
        (against_pin-result known (sha256_fingerprint lib der) (err ErrorCode.tls, v, file) v file)
  pinned_opened trust_on_first_use pins faults host der known file u e =
      let v : CertificateVerifier = record {
        policy = trust_on_first_use;
        pins = pins;
        host = host;
      } in
      let fingerprint = sha256_fingerprint lib der in
      rw e (against_pin-result known fingerprint (first_use lib faults v file fingerprint) v file)

  -- Where a map can be read back from its text: a verifier with trust on first use, a file of pins and no
  -- pin for its host, whose map can be encoded, accepts a first certificate without a verified chain when
  -- no call fails. Once the program is started again and has loaded the file, a verifier for the host with
  -- a policy that uses the pins accepts a certificate without a verified chain if its fingerprint is that
  -- of the first, and refuses every other as a TLS error.
  pub verify-open_pins :
      Codec
      → (v : CertificateVerifier) (file : Option (List ℕ)) (path der text : List ℕ)
      → v.policy ≡ trust_on_first_use
      → v.pins.path ≡ some path
      → get lib v.pins v.host ≡ none
      → lib.encode (with_value v.pins.entries (lib.lower v.host) (sha256_fingerprint lib der))
        ≡ some text
      → (policy : CertPolicy) (faults : Faults) (later : List ℕ) → uses_pins policy ≡ true
      → let first = verify lib no_faults v file der false in
        (first.0 ≡ ok (recorded_on_first_use (sha256_fingerprint lib der)))
        × ((verify_opened lib
              (open_pins lib (some path) (read_file first.2))
              policy
              v.host
              faults
              first.2
              later).0
            ≡ (if same_text (sha256_fingerprint lib der) (sha256_fingerprint lib later)
                then ok (pinned (sha256_fingerprint lib later))
                else err ErrorCode.tls))
  verify-open_pins codec v file path der text p at fresh e policy faults later u =
      let entries = with_value v.pins.entries (lib.lower v.host) (sha256_fingerprint lib der) in
      let back = codec entries text e in
      let known : value_of back.0 (lib.lower v.host) ≡ some (sha256_fingerprint lib der) =
        back.2 (lib.lower v.host)
        ∙ value_of-with_value v.pins.entries (lib.lower v.host) (sha256_fingerprint lib der) in
      rw (first_use_saved v file path der text p at fresh e) (
        refl,
        rw back.1 (
            pinned_opened policy (record { entries = back.0; path = some path }) faults v.host later
              (sha256_fingerprint lib der) (some text) u known),
      )
