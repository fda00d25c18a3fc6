-- ===== src/Types/Redact/Pieces.antt =====
-- A text as the scan of crates/rdt-types/src/redact.rs reads it: characters that are copied, and pairs.
use remote_desktop_tool.Prelude.{
  ℕ, zero, suc, ◌+◌, ◌≡◌, ◌≤◌, refl, ◌∙◌, arith, Bool, true, false, List, [], ◌∷◌, ◌++◌, ◌==◌,
  length, length-append, All,
}
use remote_desktop_tool.Types.Redact.{
  separator_len, key_before, behind_of, ends_value, split_value, emit, scrub_from,
}

-- The separator of a pair, and of a header.
abbrev pub mark : Bool → List ℕ
mark false = b'=' ∷ []
mark true = b':' ∷ b' ' ∷ []

abbrev pub mark_before : Bool → List ℕ → List ℕ
mark_before false s = b'=' ∷ s
mark_before true s = b':' ∷ b' ' ∷ s

abbrev pub mark_char : Bool → ℕ
mark_char false = b'='
mark_char true = b':'

-- A character that begins no separator, or a separator with the value behind it.
pub data Piece : Type 0 where
  plain : ℕ → Piece
  pair : Bool → List ℕ → Piece

-- The text of the pieces, in front of another.
abbrev pub text_before : List Piece → List ℕ → List ℕ
text_before [] s = s
text_before (plain c ∷ ps) s = c ∷ text_before ps s
text_before (pair header value ∷ ps) s = mark_before header (value ++ text_before ps s)

-- What is behind the index after the pieces.
abbrev pub behind_pieces : List Piece → List ℕ → List ℕ
behind_pieces [] b = b
behind_pieces (plain c ∷ ps) b = behind_pieces ps (c ∷ b)
behind_pieces (pair header value ∷ ps) b =
    behind_pieces ps (behind_of value (behind_of (mark header) b))

-- The first character of the pieces, or the one that follows them.
abbrev pub first_char : List Piece → ℕ → ℕ
first_char [] x = x
first_char (plain c ∷ ps) x = c
first_char (pair header value ∷ ps) x = mark_char header

text_before-first :
    (ps : List Piece) (x : ℕ) (s : List ℕ)
    → (tail : List ℕ) × (text_before ps (x ∷ s) ≡ first_char ps x ∷ tail)
text_before-first [] x s = (s, refl)
text_before-first (plain c ∷ ps) x s = (text_before ps (x ∷ s), refl)
text_before-first (pair false value ∷ ps) x s = (value ++ text_before ps (x ∷ s), refl)
text_before-first (pair true value ∷ ps) x s = (b' ' ∷ (value ++ text_before ps (x ∷ s)), refl)

pub mark_before-length : (header : Bool) (s : List ℕ) → length s + 1 ≤ length (mark_before header s)
mark_before-length false s = omega arith
mark_before-length true s = omega arith

module _ (white : ℕ → Bool) where
  -- A value, which has no delimiter, and what follows it: nothing, or a delimiter.
  abbrev pub IsValue : Bool → List ℕ → Type 0
  IsValue header value = All (λ c. ends_value white header c ≡ false) value

  abbrev pub IsDelimited : Bool → List ℕ → Type 0
  IsDelimited header [] = Unit
  IsDelimited header (d ∷ rest) = ends_value white header d ≡ true

  pub split_value-append :
      (header : Bool) (value rest : List ℕ)
      → IsValue header value
      → IsDelimited header rest
      → split_value white header (value ++ rest) ≡ (value, rest)
  unfolding split_value
  split_value-append header [] [] h d = refl
  split_value-append header [] (c ∷ rest) h d = rw d refl
  split_value-append header (c ∷ value) rest h d =
      rw (h.0, split_value-append header value rest h.1 d) refl

  -- The pieces in front of the character `x`: what is copied begins no separator, a value has no
  -- delimiter, and one follows it. A header's value goes up to the end of its line.
  abbrev pub AreRead : ℕ → List Piece → Type 0
  AreRead x [] = Unit
  AreRead x (plain c ∷ ps) = (separator_len c (first_char ps x ∷ []) ≡ 0) × AreRead x ps
  AreRead x (pair header value ∷ ps) =
      IsValue header value × (ends_value white header (first_char ps x) ≡ true) × AreRead x ps

  plain_round :
      (f c : ℕ) (t b output : List ℕ)
      → separator_len c t ≡ 0
      → scrub_from white (suc f) b (c ∷ t) output
        ≡ scrub_from white f (c ∷ b) t (output ++ (c ∷ []))
  unfolding scrub_from
  plain_round f c t b output none =
      let copied : (separator_len c t == 0) ≡ true = rw none refl in rw copied refl

  pair_round :
      (header : Bool) (f : ℕ) (value rest b output : List ℕ)
      → IsValue header value
      → IsDelimited header rest
      → scrub_from white (suc f) b (mark_before header (value ++ rest)) output
        ≡ scrub_from white f
            (behind_of value (behind_of (mark header) b))
            rest
            (emit white output (key_before b []) (mark header) value)
  unfolding scrub_from
  pair_round false f value rest b output whole delimited =
      rw (split_value-append false value rest whole delimited) refl
  pair_round true f value rest b output whole delimited =
      rw (split_value-append true value rest whole delimited) refl

  -- The scan gets behind the pieces with the output `o`, on fuel that is enough for what follows.
  abbrev pub Skips : List Piece → ℕ → List ℕ → List ℕ → List ℕ → ℕ → List ℕ → Type 0
  Skips ps x b output o f s =
      length (text_before ps (x ∷ s)) ≤ f
      → (g : ℕ) × (length (x ∷ s) ≤ g)
        × (scrub_from white f b (text_before ps (x ∷ s)) output
            ≡ scrub_from white g (behind_pieces ps b) (x ∷ s) o)

  plain-Skips :
      (c : ℕ) (ps : List Piece) (x : ℕ) (b output o : List ℕ) (f : ℕ) (s : List ℕ)
      → separator_len c (first_char ps x ∷ []) ≡ 0
      → ((g : ℕ) → Skips ps x (c ∷ b) (output ++ (c ∷ [])) o g s)
      → Skips (plain c ∷ ps) x b output o f s
  plain-Skips c ps x b output o zero s none k enough = absurd (omega arith)
  plain-Skips c ps x b output o (suc f) s none k enough =
      let (tail, starts) = text_before-first ps x s in
      let copied : separator_len c (text_before ps (x ∷ s)) ≡ 0 = rw starts none in
      let (g, le, same) = k f (omega arith) in
      (g, le, plain_round f c (text_before ps (x ∷ s)) b output copied ∙ same)

  pair-Skips :
      (header : Bool) (value : List ℕ) (ps : List Piece) (x : ℕ) (b output o : List ℕ) (f : ℕ)
      (s : List ℕ)
      → IsValue header value
      → ends_value white header (first_char ps x) ≡ true
      → ((g : ℕ)
          → Skips ps x
              (behind_of value (behind_of (mark header) b))
              (emit white output (key_before b []) (mark header) value)
              o
              g
              s)
      → Skips (pair header value ∷ ps) x b output o f s
  pair-Skips header value ps x b output o zero s whole ends k enough =
      absurd (omega (arith, mark_before-length header (value ++ text_before ps (x ∷ s))))
  pair-Skips header value ps x b output o (suc f) s whole ends k enough =
      let t = text_before ps (x ∷ s) in
      let (tail, starts) = text_before-first ps x s in
      let delimited : IsDelimited header t = rw starts ends in
      let (g, le, same) =
        k f (omega (arith, mark_before-length header (value ++ t), length-append value t)) in
      (g, le, pair_round header f value t b output whole delimited ∙ same)

  -- The pieces are read, whatever is behind their next character.
  pub pieces-Skips :
      (ps : List Piece) (x : ℕ) (b output : List ℕ)
      → AreRead x ps
      → (o : List ℕ) × ((f : ℕ) (s : List ℕ) → Skips ps x b output o f s)
  pieces-Skips [] x b output h = (output, λ f s enough. (f, enough, refl))
  pieces-Skips (plain c ∷ ps) x b output (none, h) =
      let (o, k) = pieces-Skips ps x (c ∷ b) (output ++ (c ∷ [])) h in
      (o, λ f s. plain-Skips c ps x b output o f s none (λ g. k g s))
  pieces-Skips (pair header value ∷ ps) x b output (whole, ends, h) =
      let (o, k) =
        pieces-Skips ps x (behind_of value (behind_of (mark header) b))
          (emit white output (key_before b []) (mark header) value) h in
      (o, λ f s. pair-Skips header value ps x b output o f s whole ends (λ g. k g s))
