-- ===== src/Types/Endpoint/Laws.antt =====
-- Printing and parsing an endpoint of crates/rdt-types/src/proto.rs.
use remote_desktop_tool.Prelude.{
  ℕ, ◌≡◌, ◌≢◌, ◌≤◌, refl, ◌∙◌, inl, inr, arith, Bool, Bool-cases, true, false, List, [], ◌∷◌, ◌++◌,
  All, All-append,
}
use remote_desktop_tool.Text.{is_nil, strip_char, split_once, rsplit_once, decimal, has_char}
use remote_desktop_tool.Text.Numbers.{IsDigit, digits-IsDigit, parse_unsigned-decimal}
use remote_desktop_tool.Text.Splits.{Lacks, strip_char-none, split_once-append, rsplit_once-append}
use remote_desktop_tool.Text.Trims.{IsWhiteSpace, IsSolid, trim-IsSolid}
use remote_desktop_tool.Types.Errors.{ok, Protocol}
use remote_desktop_tool.Types.Endpoint.{
  any_white, validate_host, new, parse_port, parse_bracketed, parse_plain, parse_text, parse,
  display,
}

digit-bounds : {P : ℕ → Type 0} (s : List ℕ) → All IsDigit s → ((c : ℕ) → IsDigit c → P c) → All P s
digit-bounds [] h f = tt
digit-bounds (c ∷ s) h f = (f c h.0, digit-bounds s h.1 f)

module _ (white : ℕ → Bool) (printable : IsWhiteSpace white) where
  decimal-IsSolid : (n : ℕ) → IsSolid white (decimal n)
  decimal-IsSolid n =
      digit-bounds (decimal n) (digits-IsDigit 20 n)
        (λ c d. printable c (omega (arith, d)) (omega (arith, d)))

  any_white-IsSolid : (s : List ℕ) → any_white white s ≡ false → IsSolid white s
  any_white-IsSolid [] h = tt
  any_white-IsSolid (c ∷ s) h = elim (Bool-cases (white c)) [
    | inl yes_white ↦ absurd (Bool-clash (rw yes_white at h))
    | inr no_white ↦ (no_white, any_white-IsSolid s (rw no_white at h))
  ]
    where
      Bool-clash : true ≢ false
      Bool-clash e = cc

  validated :
      (host : List ℕ)
      → validate_host white host ≡ ok tt
      → (is_nil host ≡ false) × (any_white white host ≡ false)
  unfolding validate_host
  validated host h = ground arith

  parse_port-decimal : (port : ℕ) → port ≤ 65535 → parse_port white (decimal port) ≡ ok port
  unfolding parse_port
  parse_port-decimal port le =
      rw
        (
          trim-IsSolid white (decimal port) (decimal-IsSolid port),
          parse_unsigned-decimal 65535 port le (omega arith),
        )
        refl

  -- A host without colons, before a colon and digits.
  parse_text-plain :
      (host : List ℕ) (port : ℕ) (protocol : Protocol)
      → validate_host white host ≡ ok tt
      → port ≤ 65535
      → parse_plain white protocol
          (host ++ (b':' ∷ decimal port))
          (rsplit_once b':' (host ++ (b':' ∷ decimal port)))
        ≡ ok (record { host = host; port = port })
  unfolding new
  parse_text-plain host port protocol valid le =
      let no_colon : Lacks b':' (decimal port) =
        digit-bounds (decimal port) (digits-IsDigit 20 port) (λ c d e. omega (arith, d, e)) in
      rw
        (
          rsplit_once-append b':' host (decimal port) no_colon,
          (validated host valid).0,
          parse_port-decimal port le,
          valid,
        )
        refl

  parse_text-bracketed :
      (host : List ℕ) (port : ℕ) (protocol : Protocol)
      → validate_host white host ≡ ok tt
      → port ≤ 65535
      → Lacks b']' host
      → parse_bracketed white protocol (split_once b']' (host ++ (b']' ∷ b':' ∷ decimal port)))
        ≡ ok (record { host = host; port = port })
  unfolding new
  parse_text-bracketed host port protocol valid le no_close =
      rw
        (
          split_once-append b']' host (b':' ∷ decimal port) no_close,
          parse_port-decimal port le,
          valid,
        )
        refl

  parse-solid :
      (text : List ℕ) (protocol : Protocol)
      → IsSolid white text
      → is_nil text ≡ false
      → parse white text protocol ≡ parse_text white protocol text (strip_char b'[' text)
  unfolding parse
  parse-solid text protocol solid something = rw (trim-IsSolid white text solid, something) refl

  is_nil-append : (s t : List ℕ) → is_nil s ≡ false → is_nil (s ++ t) ≡ false
  is_nil-append [] t h = absurd (ground arith)
  is_nil-append (c ∷ s) t h = refl

  -- What is printed for an endpoint with a valid host without brackets and a port of 16 bits is parsed
  -- as that endpoint, whatever the protocol, if printable ASCII characters are not white space.
  pub parse-display :
      (host : List ℕ) (port : ℕ) (protocol : Protocol)
      → validate_host white host ≡ ok tt
      → port ≤ 65535
      → Lacks b'[' host
      → Lacks b']' host
      → parse white (display (record { host = host; port = port })) protocol
        ≡ ok (record { host = host; port = port })
  unfolding display
  parse-display host port protocol valid le no_open no_close =
      let (something, plain_host) = validated host valid in
      let solid_host = any_white-IsSolid host plain_host in
      let solid_port = decimal-IsSolid port in
      elim (Bool-cases (has_char b':' host)) [
        | inl colons ↦
            let solid : IsSolid white (b'[' ∷ (host ++ (b']' ∷ b':' ∷ decimal port))) = (
              printable b'[' (omega arith) (omega arith),
              All-append (λ c. white c ≡ false) host (b']' ∷ b':' ∷ decimal port) solid_host
                  (
                    printable b']' (omega arith) (omega arith),
                    (printable b':' (omega arith) (omega arith), solid_port),
                  ),
            ) in
            rw colons (
              parse-solid _ protocol solid refl
              ∙ parse_text-bracketed host port protocol valid le no_close)
        | inr no_colons ↦
            let solid : IsSolid white (host ++ (b':' ∷ decimal port)) =
              All-append (λ c. white c ≡ false) host (b':' ∷ decimal port) solid_host
                (printable b':' (omega arith) (omega arith), solid_port) in
            let unbracketed : Lacks b'[' (host ++ (b':' ∷ decimal port)) =
              All-append (λ c. c ≢ b'[') host (b':' ∷ decimal port) no_open
                (
                  (λ e. omega (arith, e)),
                  digit-bounds (decimal port) (digits-IsDigit 20 port)
                      (λ c d e. omega (arith, d, e)),
                ) in
            rw no_colons (
              parse-solid _ protocol solid (is_nil-append host _ something)
              ∙ rw (strip_char-none b'[' _ unbracketed)
                  (parse_text-plain host port protocol valid le))
      ]
