-- ===== src/Secrets/Entries.antt =====
-- The `BTreeMap` of texts that crates/rdt-secrets/src/vault.rs uses: its entries in the order of their keys.
use remote_desktop_tool.Prelude.{
  ℕ, ◌≡◌, refl, sym, ap, ◌∙◌, inl, inr, Bool, Bool-cases, true, false, ◌&&◌, ◌||◌, List, [], ◌∷◌,
  Option, none, some, ◌==◌, ltb, if◌then◌else◌,
}
use remote_desktop_tool.Text.{same_text}
use remote_desktop_tool.Text.Splits.{same_text_sound, same_text_comm}

abbrev pub Entries : Type 0
Entries = List (List ℕ × List ℕ)

-- `<` on strings.
abbrev pub before : List ℕ → List ℕ → Bool
before [] [] = false
before [] (d ∷ t) = true
before (c ∷ s) [] = false
before (c ∷ s) (d ∷ t) = ltb c d || (c == d && before s t)

abbrev pub lookup : Entries → List ℕ → Option (List ℕ)
lookup [] key = none
lookup (e ∷ entries) key =
    let rest = lookup entries key in if same_text e.0 key then some e.1 else rest

abbrev pub insert : Entries → List ℕ → List ℕ → Entries
insert [] key value = (key, value) ∷ []
insert (e ∷ entries) key value =
    let rest = insert entries key value in
    if same_text e.0 key
    then (key, value) ∷ entries
    else if before key e.0
    then (key, value) ∷ e ∷ entries
    else e ∷ rest

abbrev pub remove : Entries → List ℕ → Entries
remove [] key = []
remove (e ∷ entries) key =
    let rest = remove entries key in if same_text e.0 key then rest else e ∷ rest

abbrev pub keys : Entries → List (List ℕ)
keys [] = []
keys (e ∷ entries) = e.0 ∷ keys entries

pub lookup-insert :
    (entries : Entries) (key value other : List ℕ)
    → lookup (insert entries key value) other
      ≡ (if same_text key other then some value else lookup entries other)
lookup-insert [] key value other = refl
lookup-insert (e ∷ entries) key value other = elim (Bool-cases (same_text e.0 key)) [
  | inl same ↦
      let alike : same_text e.0 other ≡ same_text key other =
        ap (λ t. same_text t other) (same_text_sound e.0 key same) in
      rw (same, alike) (again (same_text key other))
  | inr differs ↦ elim (Bool-cases (before key e.0)) [
    | inl first ↦ rw (differs, first) refl
    | inr later ↦ elim (Bool-cases (same_text e.0 other)) [
      | inl here ↦
          let unlike : same_text key other ≡ false =
            ap (λ t. same_text key t) (sym (same_text_sound e.0 other here))
            ∙ same_text_comm key e.0
            ∙ differs in
          rw (differs, later, here, unlike) refl
      | inr elsewhere ↦ rw (differs, later, elsewhere) (lookup-insert entries key value other)
    ]
  ]
]
  where
    again :
        (b : Bool)
        → (if b then some value else lookup entries other)
          ≡ (if b then some value else if b then some e.1 else lookup entries other)
    again true = refl
    again false = refl

pub lookup-remove :
    (entries : Entries) (key other : List ℕ)
    → lookup (remove entries key) other
      ≡ (if same_text key other then none else lookup entries other)
lookup-remove [] key other = elim (Bool-cases (same_text key other)) [
  | inl same ↦ rw same refl
  | inr differs ↦ rw differs refl
]
lookup-remove (e ∷ entries) key other = elim (Bool-cases (same_text e.0 key)) [
  | inl same ↦
      let alike : same_text e.0 other ≡ same_text key other =
        ap (λ t. same_text t other) (same_text_sound e.0 key same) in
      rw (same, alike) (lookup-remove entries key other ∙ again (same_text key other))
  | inr differs ↦ elim (Bool-cases (same_text e.0 other)) [
    | inl here ↦
        let unlike : same_text key other ≡ false =
          ap (λ t. same_text key t) (sym (same_text_sound e.0 other here))
          ∙ same_text_comm key e.0
          ∙ differs in
        rw (differs, here, unlike) refl
    | inr elsewhere ↦ rw (differs, elsewhere) (lookup-remove entries key other)
  ]
]
  where
    again :
        (b : Bool)
        → (if b then none else lookup entries other)
          ≡ (if b then none else if b then some e.1 else lookup entries other)
    again true = refl
    again false = refl
