-- ===== src/Ssh/KnownHosts/Line/Laws.antt =====
-- What crates/rdt-ssh/src/known_hosts.rs writes is read back.
use remote_desktop_tool.Prelude.{
  ℕ, ◌≡◌, refl, ap, ap₂, ◌∙◌, arith, Bool, true, false, List, [], ◌∷◌, ◌++◌, some, All,
}
use remote_desktop_tool.Text.{is_nil, starts_with, split_all, join, words, starts_white}
use remote_desktop_tool.Text.Splits.{Lacks}
use remote_desktop_tool.Text.Trims.{IsWhiteSpace, IsSolid, printable-IsSolid}
use remote_desktop_tool.Text.Words.{
  split_all-join, All-join, words-append, words-blank, words_white, words-trim,
}
use remote_desktop_tool.Types.Errors.{ok}
use remote_desktop_tool.Ssh.KnownHosts.Pattern.{Library}
use remote_desktop_tool.Ssh.KnownHosts.Entry.{Marker, KnownHostEntry}
use remote_desktop_tool.Ssh.KnownHosts.Line.{
  authority_word, revoked_word, marker_of, marker_text, comment_text, with_key, with_patterns,
  parse_fields, parse_line, to_line,
}

-- What the code relies on in the base64 crate: a code is read back, has no white space, and is not
-- empty for a key that is not.
pub record IsBase64 (white : ℕ → Bool) (lib : Library) : Type 0 where
  pub decodes : (key : List ℕ) → lib.base64_decode (lib.base64_encode key) ≡ some key
  pub solid : (key : List ℕ) → IsSolid white (lib.base64_encode key)
  pub some_code : (key : List ℕ) → is_nil key ≡ false → is_nil (lib.base64_encode key) ≡ false

-- An entry that a line can hold: its fields are not empty and have no white space, its patterns no
-- comma, the words of its comment are separated by single blanks, and without a marker the first field
-- begins no comment and is no marker.
pub record IsWritable (white : ℕ → Bool) (e : KnownHostEntry) : Type 0 where
  pub some_pattern : is_nil (join b',' e.patterns) ≡ false
  pub no_comma : All (Lacks b',') e.patterns
  pub solid_patterns : All (IsSolid white) e.patterns
  pub unmarked :
      e.marker ≡ Marker.plain
      → (marker_of (join b',' e.patterns) ≡ Marker.plain)
        × (starts_with (b'#' ∷ []) (join b',' e.patterns) ≡ false)
  pub some_type : is_nil e.key_type ≡ false
  pub solid_type : IsSolid white e.key_type
  pub some_key : is_nil e.key ≡ false
  pub spaced : join b' ' (words white e.comment) ≡ e.comment

module _ (lib : Library) (white : ℕ → Bool) where
  -- A line that begins with a solid character and is no comment.
  parse_line-solid :
      (c : ℕ) (s : List ℕ) (number : ℕ)
      → white c ≡ false
      → starts_with (b'#' ∷ []) (c ∷ s) ≡ false
      → parse_line lib white (c ∷ s) number ≡ parse_fields lib number (words white (c ∷ s))
  unfolding parse_line
  parse_line-solid c s number solid no_comment =
      let (same, (rest, trimmed)) = words-trim white c s solid in
      rw (same, trimmed, no_comment) refl

  comment-starts :
      (comment : List ℕ) → white b' ' ≡ true → starts_white white (comment_text comment) ≡ true
  comment-starts [] blank = refl
  comment-starts (c ∷ comment) blank = blank

  words-comment :
      (comment : List ℕ)
      → white b' ' ≡ true
      → words white (comment_text comment) ≡ words white comment
  words-comment [] blank = refl
  words-comment (c ∷ comment) blank = words_white white b' ' (c ∷ comment) blank

  with_key-some :
      (number : ℕ) (marker : Marker) (patterns key_type comment key : List ℕ)
      → is_nil key ≡ false
      → with_key lib number marker patterns key_type comment (some key)
        ≡ ok (
            some (record {
              marker = marker;
              patterns = split_all b',' patterns;
              key_type = key_type;
              key = key;
              comment = comment;
              line = number;
            }))
  with_key-some number marker patterns key_type comment [] h = absurd (ground arith)
  with_key-some number marker patterns key_type comment (k ∷ key) h = refl

  module _ (printable : IsWhiteSpace white) (blank : white b' ' ≡ true) where
    words-fields :
        (patterns key_type code comment : List ℕ)
        → is_nil patterns ≡ false
        → IsSolid white patterns
        → is_nil key_type ≡ false
        → IsSolid white key_type
        → is_nil code ≡ false
        → IsSolid white code
        → words white (patterns ++ (b' ' ∷ (key_type ++ (b' ' ∷ (code ++ comment_text comment)))))
          ≡ patterns ∷ key_type ∷ code ∷ words white comment
    words-fields patterns key_type code comment np sp nt st nc sc =
        words-blank white b' ' patterns _ blank sp np
        ∙ ap (λ r. patterns ∷ r)
            (words-blank white b' ' key_type _ blank st nt
              ∙ ap (λ r. key_type ∷ r)
                  (words-append white code (comment_text comment) sc nc
                      (comment-starts comment blank)
                    ∙ ap (λ r. code ∷ r) (words-comment comment blank)))

    parse_line-marked :
        (m : Marker) (patterns rest : List ℕ) (fields : List (List ℕ)) (number : ℕ)
        → is_nil patterns ≡ false
        → IsSolid white patterns
        → (m ≡ Marker.plain
            → (marker_of patterns ≡ Marker.plain) × (starts_with (b'#' ∷ []) patterns ≡ false))
        → words white (patterns ++ rest) ≡ patterns ∷ fields
        → parse_line lib white (marker_text m ++ (patterns ++ rest)) number
          ≡ with_patterns lib number m patterns fields
    parse_line-marked Marker.plain [] rest fields number np sp unmarked split =
        absurd (ground arith)
    parse_line-marked Marker.plain (c ∷ patterns) rest fields number np sp unmarked split =
        let (plain, no_comment) = unmarked refl in
        parse_line-solid c (patterns ++ rest) number sp.0 no_comment ∙ rw split (rw plain refl)
    parse_line-marked Marker.cert_authority patterns rest fields number np sp unmarked split =
        let solid = printable-IsSolid white printable authority_word refl in
        parse_line-solid b'@' _ number (printable b'@' (omega arith) (omega arith)) refl
        ∙ ap (parse_fields lib number) (
            words-blank white b' ' authority_word (patterns ++ rest) blank solid refl
            ∙ ap (λ r. authority_word ∷ r) split)
    parse_line-marked Marker.revoked patterns rest fields number np sp unmarked split =
        let solid = printable-IsSolid white printable revoked_word refl in
        parse_line-solid b'@' _ number (printable b'@' (omega arith) (omega arith)) refl
        ∙ ap (parse_fields lib number) (
            words-blank white b' ' revoked_word (patterns ++ rest) blank solid refl
            ∙ ap (λ r. revoked_word ∷ r) split)

    -- The line of an entry is read as that entry.
    pub parse_line-to_line :
        IsBase64 white lib
        → (e : KnownHostEntry) (number : ℕ) → IsWritable white e
        → parse_line lib white (to_line lib e) number ≡ ok (some (record e { line = number }))
    unfolding to_line
    parse_line-to_line base64 e number w =
        let code = lib.base64_encode e.key in
        let solid =
          All-join (λ c. white c ≡ false) b',' e.patterns
            (printable b',' (omega arith) (omega arith)) w.solid_patterns in
        parse_line-marked e.marker (join b',' e.patterns) _
          (e.key_type ∷ code ∷ words white e.comment) number w.some_pattern solid w.unmarked
          (words-fields (join b',' e.patterns) e.key_type code e.comment w.some_pattern solid
            w.some_type w.solid_type (base64.some_code e.key w.some_key) (base64.solid e.key))
        ∙ ap₂ (λ c k. with_key lib number e.marker (join b',' e.patterns) e.key_type c k) w.spaced
            (base64.decodes e.key)
        ∙ with_key-some number e.marker (join b',' e.patterns) e.key_type e.comment e.key w.some_key
        ∙ ap (λ p. ok (some (record e { patterns = p; line = number })))
            (split_again e.patterns w.some_pattern w.no_comma)
      where
        split_again :
            (patterns : List (List ℕ))
            → is_nil (join b',' patterns) ≡ false
            → All (Lacks b',') patterns
            → split_all b',' (join b',' patterns) ≡ patterns
        split_again [] h k = absurd (ground arith)
        split_again (p ∷ patterns) h k = split_all-join b',' p patterns k
