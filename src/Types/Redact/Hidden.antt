-- ===== src/Types/Redact/Hidden.antt =====
-- The value of a sensitive key does not show in what crates/rdt-types/src/redact.rs makes of a text.
use remote_desktop_tool.Prelude.{
  ℕ, zero, suc, ◌-◌, ◌≡◌, ◌≤◌, refl, sym, ap, ◌∙◌, inl, inr, arith, Bool, Bool-cases, true, false,
  List, [], ◌∷◌, ◌++◌, some, ◌==◌, length, take, length-append,
}
use remote_desktop_tool.Text.{is_nil}
use remote_desktop_tool.Text.Trims.{IsWhiteSpace}
use remote_desktop_tool.Types.Redact.{
  redacted, sensitive_keys, separator_len, is_key_char, key_before, any_sensitive, behind_of,
  ends_value, scrub_from, scrub_sensitive_pairs,
}
use remote_desktop_tool.Types.Redact.Pieces.{
  Piece, mark, mark_before, mark_char, text_before, behind_pieces, IsValue, IsDelimited, AreRead,
  split_value-append, pieces-Skips, mark_before-length,
}
use remote_desktop_tool.Types.Redact.Same.{SameKey-other, scrub_from-same}
use remote_desktop_tool.Types.Redact.Ends.{scrub-ends}

module _ (white : ℕ → Bool) where
  -- The round at a separator, with a sensitive key.
  scrub_from-pair :
      (header : Bool) (f : ℕ) (b value rest output : List ℕ)
      → any_sensitive sensitive_keys (key_before b []) ≡ true
      → is_nil value ≡ false
      → IsValue white header value
      → IsDelimited white header rest
      → scrub_from white (suc f) b (mark_before header (value ++ rest)) output
        ≡ scrub_from white f (behind_of value (behind_of (mark header) b)) rest (
            take (length output - length (key_before b [])) output
            ++ key_before b []
            ++ mark header
            ++ redacted)
  unfolding scrub_from
  scrub_from-pair false f b value rest output sensitive some_value whole delimited =
      rw (split_value-append white false value rest whole delimited, sensitive, some_value) refl
  scrub_from-pair true f b value rest output sensitive some_value whole delimited =
      rw (split_value-append white true value rest whole delimited, sensitive, some_value) refl

  -- A delimiter is not a character of a key, and no separator.
  delimiter-other :
      IsWhiteSpace white
      → (header : Bool) (d : ℕ) → ends_value white header d ≡ true
      → is_key_char d ≡ false
  delimiter-other printable true d h = ground arith
  delimiter-other printable false d h = elim (Bool-cases (is_key_char d)) [
    | inr other ↦ other
    | inl of_key ↦
        let solid : white d ≡ false = printable d (ground arith) (ground arith) in
        absurd (ground arith)
  ]

  delimiter-separator :
      IsWhiteSpace white
      → (header : Bool) (d : ℕ) (rest : List ℕ) → ends_value white header d ≡ true
      → (separator_len d rest == 0) ≡ true
  delimiter-separator printable true d rest h = ground arith
  delimiter-separator printable false d rest h =
      let equals : white b'=' ≡ false = printable b'=' (omega arith) (omega arith) in
      let colon : white b':' ≡ false = printable b':' (omega arith) (omega arith) in
      elim (Bool-cases (d == b'=')) [
        | inl is_equals ↦
            let same : white d ≡ white b'=' = ap white (ground arith) in absurd (ground arith)
        | inr no_equals ↦ elim (Bool-cases (d == b':')) [
          | inl is_colon ↦
              let same : white d ≡ white b':' = ap white (ground arith) in absurd (ground arith)
          | inr no_colon ↦ rw (no_equals, no_colon) refl
        ]
      ]

  after_value :
      (header : Bool) (f g : ℕ) (b d rest output : List ℕ)
      → IsWhiteSpace white
      → IsDelimited white header rest
      → length rest ≤ f
      → length rest ≤ g
      → scrub_from white f b rest output ≡ scrub_from white g d rest output
  unfolding scrub_from
  after_value header f g b d [] output printable delimited hf hg = refl
  after_value header zero g b d (c ∷ rest) output printable delimited hf hg = absurd (omega arith)
  after_value header (suc f) zero b d (c ∷ rest) output printable delimited hf hg =
      absurd (omega arith)
  after_value header (suc f) (suc g) b d (c ∷ rest) output printable delimited hf hg =
      let none = delimiter-separator printable header c rest delimited in
      rw none (
        scrub_from-same white f g (c ∷ b) (c ∷ d) rest (output ++ (c ∷ [])) (omega arith)
          (omega arith) (SameKey-other c b d (delimiter-other printable header c delimited)))

  -- The pair behind the pieces, on any fuel that is enough.
  hidden_pair :
      (header : Bool) (b value other rest output : List ℕ)
      → IsWhiteSpace white
      → any_sensitive sensitive_keys (key_before b []) ≡ true
      → is_nil value ≡ false
      → is_nil other ≡ false
      → IsValue white header value
      → IsValue white header other
      → IsDelimited white header rest
      → (f g : ℕ) → length (mark_before header (value ++ rest)) ≤ f
      → length (mark_before header (other ++ rest)) ≤ g
      → scrub_from white f b (mark_before header (value ++ rest)) output
        ≡ scrub_from white g b (mark_before header (other ++ rest)) output
  hidden_pair header b value other rest output printable sensitive sv so v o delimited zero g hf
        hg =
      absurd (omega (arith, mark_before-length header (value ++ rest)))
  hidden_pair header b value other rest output printable sensitive sv so v o delimited (suc f) zero
        hf hg =
      absurd (omega (arith, mark_before-length header (other ++ rest)))
  hidden_pair header b value other rest output printable sensitive sv so v o delimited (suc f)
        (suc g) hf hg =
      let enough = mark_before-length header (value ++ rest) in
      let enough' = mark_before-length header (other ++ rest) in
      scrub_from-pair header f b value rest output sensitive sv v delimited
      ∙ after_value header f g _ _ rest _ printable delimited
          (omega (arith, enough, length-append value rest))
          (omega (arith, enough', length-append other rest))
      ∙ sym (scrub_from-pair header g b other rest output sensitive so o delimited)

  -- The scan gets from the start of a text to the pair.
  scan_pieces :
      (header : Bool) (before : List Piece)
      → AreRead white (mark_char header) before
      → (o : List ℕ) × ((f : ℕ) (s : List ℕ)
          → length (text_before before (mark_before header s)) ≤ f
          → (g : ℕ) × (length (mark_before header s) ≤ g)
            × (scrub_from white f [] (text_before before (mark_before header s)) []
                ≡ scrub_from white g (behind_pieces before []) (mark_before header s) o))
  scan_pieces false before read =
      let (o, k) = pieces-Skips white before b'=' [] [] read in (o, λ f s. k f s)
  scan_pieces true before read =
      let (o, k) = pieces-Skips white before b':' [] [] read in (o, λ f s. k f (b' ' ∷ s))

  -- In a text that the scan reads as copied characters and pairs, in which a pair with a sensitive key,
  -- `key=value` or the header `key: value`, follows, and is followed by a delimiter of its value or by
  -- nothing, the output is the same for any two values that are not empty and have no such
  -- delimiter: it does not depend on the value. Printable ASCII characters are not white space. A pair
  -- inside the value of another is not such a pair.
  pub scrub-hides :
      (header : Bool) (before : List Piece) (value other rest : List ℕ)
      → IsWhiteSpace white
      → AreRead white (mark_char header) before
      → any_sensitive sensitive_keys (key_before (behind_pieces before []) []) ≡ true
      → is_nil value ≡ false
      → is_nil other ≡ false
      → IsValue white header value
      → IsValue white header other
      → IsDelimited white header rest
      → (t : List ℕ) × (scrub_sensitive_pairs white
            (text_before before (mark_before header (value ++ rest)))
          ≡ some t)
        × (scrub_sensitive_pairs white (text_before before (mark_before header (other ++ rest)))
            ≡ some t)
  unfolding scrub_sensitive_pairs
  scrub-hides header before value other rest printable read sensitive sv so v o delimited =
      let text = text_before before (mark_before header (value ++ rest)) in
      let text' = text_before before (mark_before header (other ++ rest)) in
      let (out, scan) = scan_pieces header before read in
      let (f, enough, first) = scan (length text) (value ++ rest) (omega arith) in
      let (g, enough', second) = scan (length text') (other ++ rest) (omega arith) in
      let same =
        first
        ∙ hidden_pair header (behind_pieces before []) value other rest out printable sensitive sv
            so v o delimited f g enough enough'
        ∙ sym second in
      let (t, ends) = scrub-ends white text in (t, ends, sym same ∙ ends)
