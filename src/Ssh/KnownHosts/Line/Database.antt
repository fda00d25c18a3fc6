-- ===== src/Ssh/KnownHosts/Line/Database.antt =====
-- What `KnownHosts::to_string_lossy` of crates/rdt-ssh/src/known_hosts.rs writes, `KnownHosts::parse`
-- reads.
use remote_desktop_tool.Prelude.{
  ℕ, ◌+◌, ◌≡◌, ◌≢◌, ◌⊎◌, refl, sym, ap, ap₂, ◌∙◌, inl, inr, arith, Bool, true, false, List, [], ◌∷◌,
  All, All-append,
}
use mathlib.Core.Path.{subst}
use remote_desktop_tool.Text.{join, lines, words}
use remote_desktop_tool.Text.Splits.{Lacks}
use remote_desktop_tool.Text.Trims.{IsWhiteSpace, IsSolid, printable-IsSolid}
use remote_desktop_tool.Text.Words.{All-join, lines-append, words-IsSolid}
use remote_desktop_tool.Ssh.KnownHosts.Pattern.{Library}
use remote_desktop_tool.Ssh.KnownHosts.Entry.{Marker, KnownHostEntry}
use remote_desktop_tool.Ssh.KnownHosts.Line.{
  authority_word, revoked_word, marker_text, comment_text, to_line, or_skip, parse_lines,
  parse_database, to_string_lossy,
}
use remote_desktop_tool.Ssh.KnownHosts.Line.Laws.{IsBase64, IsWritable, parse_line-to_line}

-- The entries with the numbers of their lines.
abbrev pub numbered : ℕ → List KnownHostEntry → List KnownHostEntry
numbered number [] = []
numbered number (e ∷ entries) = record e { line = number } ∷ numbered (number + 1) entries

module _ (lib : Library) (white : ℕ → Bool) (printable : IsWhiteSpace white) where
  -- A blank, or no white space.
  abbrev InLine : ℕ → Type 0
  InLine c = (white c ≡ false) ⊎ (c ≡ b' ')

  solid-InLine : (s : List ℕ) → IsSolid white s → All InLine s
  solid-InLine [] h = tt
  solid-InLine (c ∷ s) h = (inl h.0, solid-InLine s h.1)

  solid_words-InLine : (ws : List (List ℕ)) → All (IsSolid white) ws → All (All InLine) ws
  solid_words-InLine [] h = tt
  solid_words-InLine (w ∷ ws) h = (solid-InLine w h.0, solid_words-InLine ws h.1)

  marker-InLine : (m : Marker) → All InLine (marker_text m)
  marker-InLine Marker.plain = tt
  marker-InLine Marker.cert_authority =
      All-append InLine authority_word (b' ' ∷ [])
        (solid-InLine authority_word (printable-IsSolid white printable authority_word refl))
        (inr refl, tt)
  marker-InLine Marker.revoked =
      All-append InLine revoked_word (b' ' ∷ [])
        (solid-InLine revoked_word (printable-IsSolid white printable revoked_word refl))
        (inr refl, tt)

  comment-InLine : (comment : List ℕ) → All InLine comment → All InLine (comment_text comment)
  comment-InLine [] h = tt
  comment-InLine (c ∷ comment) h = (inr refl, h)

  spaced-InLine :
      (comment : List ℕ) → join b' ' (words white comment) ≡ comment → All InLine comment
  spaced-InLine comment spaced = subst (All InLine) spaced (
      All-join InLine b' ' (words white comment) (inr refl)
        (solid_words-InLine (words white comment) (words-IsSolid white comment)))

  to_line-InLine :
      IsBase64 white lib → (e : KnownHostEntry) → IsWritable white e → All InLine (to_line lib e)
  unfolding to_line
  to_line-InLine base64 e w =
      let comma = printable b',' (omega arith) (omega arith) in
      All-append InLine (marker_text e.marker) _ (marker-InLine e.marker) (
        All-append InLine (join b',' e.patterns) _
          (All-join InLine b',' e.patterns (inl comma)
            (solid_words-InLine e.patterns w.solid_patterns))
          (
            inr refl,
            All-append InLine e.key_type _ (solid-InLine e.key_type w.solid_type) (
              inr refl,
              All-append InLine (lib.base64_encode e.key) (comment_text e.comment)
                  (solid-InLine (lib.base64_encode e.key) (base64.solid e.key))
                  (comment-InLine e.comment (spaced-InLine e.comment w.spaced)),
            ),
          ))

  InLine-Lacks : (d : ℕ) (s : List ℕ) → white d ≡ true → d ≢ b' ' → All InLine s → Lacks d s
  InLine-Lacks d [] h other inside = tt
  InLine-Lacks d (c ∷ s) h other (inl solid, inside) =
      ((λ e. let found : white c ≡ true = ap white e ∙ h in cc), InLine-Lacks d s h other inside)
  InLine-Lacks d (c ∷ s) h other (inr blank, inside) =
      ((λ e. absurd (other (sym e ∙ blank))), InLine-Lacks d s h other inside)

  module _ (blank : white b' ' ≡ true) (feed : white b'\n' ≡ true)
      (return : white b'\r' ≡ true) where
    parse_lines-to_string_lossy :
        IsBase64 white lib
        → (entries : List KnownHostEntry) (number : ℕ) → All (IsWritable white) entries
        → parse_lines lib white number (lines (to_string_lossy lib entries))
          ≡ numbered number entries
    unfolding parse_lines to_string_lossy lines
    parse_lines-to_string_lossy base64 [] number w = refl
    parse_lines-to_string_lossy base64 (e ∷ entries) number w =
        let inside = to_line-InLine base64 e w.0 in
        let one_line =
          lines-append (to_line lib e) (to_string_lossy lib entries)
            (InLine-Lacks b'\n' (to_line lib e) feed (λ e. omega (arith, e)) inside)
            (InLine-Lacks b'\r' (to_line lib e) return (λ e. omega (arith, e)) inside) in
        ap (parse_lines lib white number) one_line
        ∙ ap₂ (or_skip lib) (parse_line-to_line lib white printable blank base64 e number w.0)
            (parse_lines-to_string_lossy base64 entries (number + 1) w.1)

    -- What is written for any entries that lines can hold is read as these entries, in their order and
    -- with the numbers of their lines, if base64 codes are read back without white space,
    -- printable ASCII characters are not white space, and blanks, line feeds and carriage returns are.
    pub parse_database-to_string_lossy :
        (entries : List KnownHostEntry)
        → IsBase64 white lib
        → All (IsWritable white) entries
        → parse_database lib white (to_string_lossy lib entries) ≡ numbered 1 entries
    unfolding parse_database
    parse_database-to_string_lossy entries base64 w = parse_lines-to_string_lossy base64 entries 1 w
