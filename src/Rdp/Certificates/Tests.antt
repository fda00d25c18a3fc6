-- ===== src/Rdp/Certificates/Tests.antt =====
-- Certificates and pins at concrete inputs.
use remote_desktop_tool.Prelude.{
  ℕ, ◌≡◌, refl, sym, ap, arith, true, false, List, [], ◌∷◌, Option, none, some, if◌then◌else◌,
}
use remote_desktop_tool.Text.{same_text}
use remote_desktop_tool.Types.Errors.{ErrorCode, ok, err}
use remote_desktop_tool.Types.Options.{verify_chain, verify_or_pinned, trust_on_first_use}
use remote_desktop_tool.Rdp.Certificates.{
  pinned, recorded_on_first_use, CertificateVerifier, Faults, no_faults, Library, open_pins,
  sha256_fingerprint, verify, connect,
}
use remote_desktop_tool.Rdp.Certificates.Laws.{
  IsFounded, verify-IsFounded, connect-accepts, read_file, verify_opened,
}
use remote_desktop_tool.Rdp.Certificates.Trust.{
  accepted, AllSame, accepted-AllSame, Codec, verify-open_pins,
}

-- A map with one entry, whose key has one character, is written as the key and the value.
abbrev encode_one : List (List ℕ × List ℕ) → Option (List ℕ)
encode_one ((c ∷ [], value) ∷ []) = some (c ∷ value)
encode_one _ = none

abbrev decode_one : List ℕ → Option (List (List ℕ × List ℕ))
decode_one [] = none
decode_one (c ∷ value) = some ((c ∷ [], value) ∷ [])

abbrev lib : Library
lib = record { lower = λ text. text; digest = λ der. der; encode = encode_one; decode = decode_one }

abbrev host : List ℕ
host = b'h' ∷ []

-- First use, with a file of pins.
abbrev fresh : CertificateVerifier
fresh = record {
  policy = trust_on_first_use;
  pins = record { entries = []; path = some (b'p' ∷ []) };
  host = host;
}

abbrev no_permission : Faults
no_permission = record no_faults { restrict = true }

verify-IsFounded_example :
    IsFounded lib fresh (1 ∷ 2 ∷ []) false (verify lib no_faults fresh none (1 ∷ 2 ∷ []) false)
verify-IsFounded_example = verify-IsFounded lib no_faults fresh none (1 ∷ 2 ∷ []) false

-- Under the strictest policy, and without a pin.
connect-accepts_example :
    connect lib no_faults (record fresh { policy = verify_chain }) none (1 ∷ 2 ∷ [])
    ≡ (ok (sha256_fingerprint lib (1 ∷ 2 ∷ [])), record fresh { policy = verify_chain }, none)
connect-accepts_example =
    connect-accepts lib no_faults (record fresh { policy = verify_chain }) none (1 ∷ 2 ∷ []) refl

abbrev presented : List (Faults × List ℕ)
presented =
    (no_permission, 1 ∷ 2 ∷ [])
    ∷ (no_faults, 3 ∷ [])
    ∷ (no_faults, 1 ∷ 2 ∷ [])
    ∷ (no_faults, 3 ∷ [])
    ∷ []

accepted-AllSame_example : AllSame lib (accepted lib fresh none presented)
accepted-AllSame_example = accepted-AllSame lib presented fresh none

-- The first is refused since its file cannot be restricted, and yet accepted the next time.
accepted_second : accepted lib fresh none presented ≡ sha256_fingerprint lib (1 ∷ 2 ∷ []) ∷ []
unfolding verify
accepted_second = refl

abbrev or_nil : Option (List ℕ) → List ℕ
or_nil none = []
or_nil (some text) = text

reads_back : Codec lib
reads_back [] text e = absurd (ground arith)
reads_back (([], value) ∷ entries) text e = absurd (ground arith)
reads_back ((c ∷ d ∷ key, value) ∷ entries) text e = absurd (ground arith)
reads_back ((c ∷ [], value) ∷ next ∷ entries) text e = absurd (ground arith)
reads_back ((c ∷ [], value) ∷ []) text e =
    ((c ∷ [], value) ∷ [], ap (λ t. decode_one (or_nil t)) (sym e), λ key. refl)

verify-open_pins_example :
    let first = verify lib no_faults fresh none (1 ∷ 2 ∷ []) false in
    (first.0 ≡ ok (recorded_on_first_use (sha256_fingerprint lib (1 ∷ 2 ∷ []))))
    × ((verify_opened lib
          (open_pins lib (some (b'p' ∷ [])) (read_file first.2))
          verify_or_pinned
          host
          no_faults
          first.2
          (3 ∷ [])).0
        ≡ (if same_text (sha256_fingerprint lib (1 ∷ 2 ∷ [])) (sha256_fingerprint lib (3 ∷ []))
            then ok (pinned (sha256_fingerprint lib (3 ∷ [])))
            else err ErrorCode.tls))
verify-open_pins_example =
    verify-open_pins lib reads_back fresh none (b'p' ∷ []) (1 ∷ 2 ∷ [])
      (b'h' ∷ sha256_fingerprint lib (1 ∷ 2 ∷ [])) refl refl refl refl verify_or_pinned no_faults
      (3 ∷ []) refl
