-- ===== src/Types/Redact/Tests.antt =====
-- Redaction at concrete inputs. White space is the blank.
use remote_desktop_tool.Prelude.{
  ℕ, ◌≡◌, ◌==◌, refl, arith, Bool, true, false, List, [], ◌∷◌, ◌++◌, some,
}
use remote_desktop_tool.Text.{replace_from}
use remote_desktop_tool.Types.Redact.{
  redacted, with_secret, secret_count, redact_all, split_value, scrub_from, scrub_sensitive_pairs,
  redact,
}
use remote_desktop_tool.Types.Redact.Pieces.{Piece, plain, pair, mark_before, text_before}
use remote_desktop_tool.Types.Redact.Hidden.{scrub-hides}

abbrev is_blank : ℕ → Bool
is_blank c = c == b' '

-- "pass=hi u=me".
abbrev one_pair : List ℕ
one_pair = b'p' ∷ b'a' ∷ b's' ∷ b's' ∷ b'=' ∷ b'h' ∷ b'i' ∷ b' ' ∷ b'u' ∷ b'=' ∷ b'm' ∷ b'e' ∷ []

hides_value :
    redact is_blank [] one_pair
    ≡ some (
        b'p' ∷ b'a' ∷ b's' ∷ b's' ∷ b'=' ∷ b'<' ∷ b'r' ∷ b'e' ∷ b'd' ∷ b'a' ∷ b'c' ∷ b't' ∷ b'e'
        ∷ b'd' ∷ b'>' ∷ b' ' ∷ b'u' ∷ b'=' ∷ b'm' ∷ b'e' ∷ [])
unfolding redact redact_all scrub_sensitive_pairs scrub_from split_value
hides_value = refl

-- A name in capitals that only ends with a sensitive word is not recognised.
abbrev capitals : List ℕ
capitals = b'D' ∷ b'B' ∷ b'_' ∷ b'P' ∷ b'A' ∷ b'S' ∷ b'S' ∷ b'=' ∷ b'h' ∷ b'i' ∷ []

keeps_capitals : redact is_blank [] capitals ≡ some capitals
unfolding redact redact_all scrub_sensitive_pairs scrub_from split_value
keeps_capitals = refl

-- A secret that is a part of the marker stays in the text.
abbrev marker_word : List ℕ
marker_word = b'r' ∷ b'e' ∷ b'd' ∷ b'a' ∷ b'c' ∷ b't' ∷ b'e' ∷ b'd' ∷ []

marker_shows_secret :
    redact is_blank (with_secret [] marker_word) (b'x' ∷ marker_word) ≡ some (b'x' ∷ redacted)
unfolding redact with_secret redact_all scrub_sensitive_pairs scrub_from split_value replace_from
marker_shows_secret = refl

short_secrets_are_ignored : secret_count (with_secret [] (b'a' ∷ b'b' ∷ b'c' ∷ [])) ≡ 0
unfolding with_secret
short_secrets_are_ignored = refl

-- "note: a", a line feed, "pass", and a tail " now=a".
abbrev before : List Piece
before =
    plain b'n'
    ∷ pair true (b'a' ∷ [])
    ∷ plain b'\n'
    ∷ plain b'p'
    ∷ plain b'a'
    ∷ plain b's'
    ∷ plain b's'
    ∷ []

abbrev value : List ℕ
value = b'h' ∷ b'i' ∷ []

abbrev other : List ℕ
other = b't' ∷ b'h' ∷ b'e' ∷ b'r' ∷ b'e' ∷ []

abbrev rest : List ℕ
rest = b' ' ∷ b'n' ∷ b'o' ∷ b'w' ∷ b'=' ∷ b'a' ∷ []

scrub-hides_example :
    (t : List ℕ) × (scrub_sensitive_pairs is_blank
        (text_before before (mark_before false (value ++ rest)))
      ≡ some t)
    × (scrub_sensitive_pairs is_blank (text_before before (mark_before false (other ++ rest)))
        ≡ some t)
scrub-hides_example =
    scrub-hides is_blank false before value other rest (λ c low high. ground arith)
      (refl, ((refl, tt), refl, (refl, (refl, (refl, (refl, (refl, tt))))))) refl refl refl
      (refl, (refl, tt)) (refl, (refl, (refl, (refl, (refl, tt))))) refl

-- A defect: "a: pass=hi" is copied, since the value of a header goes up to the end of the line.
abbrev nested : List ℕ
nested = b'a' ∷ b':' ∷ b' ' ∷ b'p' ∷ b'a' ∷ b's' ∷ b's' ∷ b'=' ∷ b'h' ∷ b'i' ∷ []

nested_shows : redact is_blank [] nested ≡ some nested
unfolding redact redact_all scrub_sensitive_pairs scrub_from split_value
nested_shows = refl
