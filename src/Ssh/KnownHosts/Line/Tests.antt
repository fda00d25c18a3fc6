-- ===== src/Ssh/KnownHosts/Line/Tests.antt =====
-- Lines of the database at concrete inputs. A code shifts the characters of a key above the white
-- space here.
use remote_desktop_tool.Prelude.{
  ℕ, ◌+◌, ◌-◌, ◌≡◌, ap, leb, refl, arith, Bool, false, List, [], ◌∷◌, none, some,
}
use remote_desktop_tool.Text.{same_text, split_all, lines, words, is_nil}
use remote_desktop_tool.Text.Trims.{IsSolid}
use remote_desktop_tool.Types.Errors.{ok}
use remote_desktop_tool.Ssh.KnownHosts.Pattern.{Library}
use remote_desktop_tool.Ssh.KnownHosts.Entry.{Marker, KnownHostEntry}
use remote_desktop_tool.Ssh.KnownHosts.Line.{
  malformed, parse_line, parse_lines, parse_database, to_string_lossy,
}
use remote_desktop_tool.Ssh.KnownHosts.Line.Laws.{IsBase64, IsWritable}
use remote_desktop_tool.Ssh.KnownHosts.Line.Database.{numbered, parse_database-to_string_lossy}

abbrev pub is_white : ℕ → Bool
is_white c = leb c 32

-- Each byte is shifted by 33.
abbrev code : List ℕ → List ℕ
code [] = []
code (c ∷ key) = (c + 33) ∷ code key

abbrev decode : List ℕ → List ℕ
decode [] = []
decode (c ∷ s) = (c - 33) ∷ decode s

abbrev pub shifting : Library
shifting = record {
  lower_char = λ c. c;
  lower_text = λ s. s;
  base64_encode = code;
  base64_decode = λ s. some (decode s);
  verify = λ salt. none;
  ct_eq = same_text;
  fingerprint = λ key. key;
}

decode-code : (key : List ℕ) → decode (code key) ≡ key
decode-code [] = refl
decode-code (c ∷ key) = let same : c + 33 - 33 ≡ c = omega arith in rw (same, decode-code key) refl

code-IsSolid : (key : List ℕ) → IsSolid is_white (code key)
code-IsSolid [] = tt
code-IsSolid (c ∷ key) = (ground arith, code-IsSolid key)

some_code : (key : List ℕ) → is_nil key ≡ false → is_nil (code key) ≡ false
some_code [] h = h
some_code (c ∷ key) h = refl

pub shifting-IsBase64 : IsBase64 is_white shifting
shifting-IsBase64 = record {
  decodes = λ key. ap some (decode-code key);
  solid = code-IsSolid;
  some_code = some_code;
}

-- "a,!b" and "k".
abbrev entry : Marker → KnownHostEntry
entry marker = record {
  marker = marker;
  patterns = (b'a' ∷ []) ∷ (b'!' ∷ b'b' ∷ []) ∷ [];
  key_type = b'k' ∷ [];
  key = 1 ∷ 2 ∷ [];
  comment = b'm' ∷ b'y' ∷ b' ' ∷ b'k' ∷ [];
  line = 0;
}

no_entry : parse_line shifting is_white (b' ' ∷ b'#' ∷ b'a' ∷ []) 7 ≡ ok none
unfolding parse_line
no_entry = refl

too_short : parse_line shifting is_white (b'a' ∷ b' ' ∷ b'k' ∷ []) 7 ≡ malformed
unfolding parse_line words
too_short = refl

-- A malformed line is skipped, and the next keeps its number.
skips :
    parse_database shifting is_white
      (b'a' ∷ b'\r' ∷ b'\n' ∷ b'a' ∷ b' ' ∷ b'k' ∷ b' ' ∷ b'"' ∷ b' ' ∷ [])
    ≡ record {
      marker = Marker.plain;
      patterns = (b'a' ∷ []) ∷ [];
      key_type = b'k' ∷ [];
      key = 1 ∷ [];
      comment = [];
      line = 2;
    }
      ∷ []
unfolding parse_database parse_lines parse_line lines words split_all
skips = refl

entry-IsWritable : (marker : Marker) → IsWritable is_white (entry marker)
entry-IsWritable marker = record {
  some_pattern = refl;
  no_comma = (
    ((λ e. omega (arith, e)), tt),
    (((λ e. omega (arith, e)), ((λ e. omega (arith, e)), tt)), tt),
  );
  solid_patterns = ((refl, tt), ((refl, (refl, tt)), tt));
  unmarked = λ e. (refl, refl);
  some_type = refl;
  solid_type = (refl, tt);
  some_key = refl;
  spaced = unfold words in refl;
}

parse_database-to_string_lossy_example :
    parse_database shifting is_white
      (to_string_lossy shifting (entry Marker.plain ∷ entry Marker.revoked ∷ []))
    ≡ numbered 1 (entry Marker.plain ∷ entry Marker.revoked ∷ [])
parse_database-to_string_lossy_example =
    parse_database-to_string_lossy shifting is_white (λ c low high. ground arith) refl refl refl
      (entry Marker.plain ∷ entry Marker.revoked ∷ []) shifting-IsBase64
      (entry-IsWritable Marker.plain, (entry-IsWritable Marker.revoked, tt))
