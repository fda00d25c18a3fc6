-- ===== src/Ssh/KnownHosts/Wildcard/Meaning.antt =====
-- What it means that a host pattern of crates/rdt-ssh/src/known_hosts.rs matches a text, with no
-- search order in it.
use remote_desktop_tool.Prelude.{
  ℕ, ◌≡◌, ◌⊎◌, ◌↔◌, refl, inl, inr, arith, Bool, true, false, Bool-cases, List, [], ◌∷◌, ◌==◌,
  if◌then◌else◌, ◌≢◌,
}
use remote_desktop_tool.Ssh.KnownHosts.Wildcard.{accepts, only_stars}

-- Some end of the text satisfies `P`.
abbrev pub Anywhere : (List ℕ → Type 0) → List ℕ → Type 0
Anywhere P [] = P []
Anywhere P (c ∷ t) = P (c ∷ t) ⊎ Anywhere P t

-- The text begins with a character that is accepted, and the rest satisfies `P`.
abbrev pub Starts : (ℕ → Bool) → (List ℕ → Type 0) → List ℕ → Type 0
Starts accept P [] = ⊥
Starts accept P (c ∷ t) = (accept c ≡ true) × P t

-- A star stands for any run of characters, `?` for any one, and another character for itself in
-- any case.
abbrev pub Matches : (ℕ → ℕ) → List ℕ → List ℕ → Type 0
Matches lower [] t = t ≡ []
Matches lower (x ∷ p) t =
    if x == b'*' then Anywhere (Matches lower p) t else Starts (accepts lower x) (Matches lower p) t

pub Anywhere-here : (P : List ℕ → Type 0) (t : List ℕ) → P t → Anywhere P t
Anywhere-here P [] h = h
Anywhere-here P (c ∷ t) h = inl h

pub Anywhere-map :
    (P Q : List ℕ → Type 0)
    → ((t : List ℕ) → P t → Q t)
    → (t : List ℕ) → Anywhere P t
    → Anywhere Q t
Anywhere-map P Q f [] h = f [] h
Anywhere-map P Q f (c ∷ t) (inl h) = inl (f (c ∷ t) h)
Anywhere-map P Q f (c ∷ t) (inr h) = inr (Anywhere-map P Q f t h)

-- A second star adds nothing.
pub Anywhere-twice : (P : List ℕ → Type 0) (t : List ℕ) → Anywhere (Anywhere P) t → Anywhere P t
Anywhere-twice P [] h = h
Anywhere-twice P (c ∷ t) (inl h) = h
Anywhere-twice P (c ∷ t) (inr h) = inr (Anywhere-twice P t h)

-- Where `accept` and then `P` hold somewhere, `P` holds somewhere after the first character.
pub Anywhere-rest :
    (accept : ℕ → Bool) (P : List ℕ → Type 0) (c : ℕ) (t : List ℕ)
    → Anywhere (Starts accept P) (c ∷ t)
    → Anywhere P t
Anywhere-rest accept P c t (inl h) = Anywhere-here P t h.1
Anywhere-rest accept P c [] (inr h) = absurd h
Anywhere-rest accept P c (d ∷ t) (inr h) = inr (Anywhere-rest accept P d t h)

pub only_stars_iff : (lower : ℕ → ℕ) (p : List ℕ) → (only_stars p ≡ true) ↔ Matches lower p []
unfolding only_stars
only_stars_iff lower [] = (λ e. refl, λ e. refl)
only_stars_iff lower (x ∷ p) = elim (Bool-cases (x == b'*')) [
  | inl star ↦ rw star (only_stars_iff lower p)
  | inr other ↦ rw other (λ e. cc, λ h. absurd h)
]

pub star_out :
    (lower : ℕ → ℕ) (x : ℕ) (p : List ℕ)
    → (x == b'*') ≡ true
    → (t : List ℕ) → Matches lower (x ∷ p) t
    → Anywhere (Matches lower p) t
star_out lower x p star t h = rw star at h

pub byte_out :
    (lower : ℕ → ℕ) (x : ℕ) (p : List ℕ)
    → (x == b'*') ≡ false
    → (t : List ℕ) → Matches lower (x ∷ p) t
    → Starts (accepts lower x) (Matches lower p) t
byte_out lower x p other t h = rw other at h

pub accepts-star :
    (lower : ℕ → ℕ) (x c : ℕ) → (x == b'*') ≡ true → c ≢ lower b'*' → accepts lower x c ≡ false
unfolding accepts
accepts-star lower x c star differs = let same : x ≡ b'*' = ground arith in rw same (ground arith)
