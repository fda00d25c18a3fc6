-- ===== src/Config/Store/Laws.antt =====
-- Sequences of calls of the store: the document stays sound, and `find` sees a map from identifiers to
-- profiles.
use remote_desktop_tool.Prelude.{
  ℕ, ◌+◌, ◌≡◌, refl, sym, ap, ◌∙◌, inl, inr, arith, Bool, Bool-cases, true, false, List, [], ◌∷◌,
  Option, none, some, ◌==◌, if◌then◌else◌, length, All, All-set, All-append,
}
use remote_desktop_tool.Text.{same_text}
use remote_desktop_tool.Types.Errors.{RdtResult, ok, err}
use remote_desktop_tool.Config.Settings.{Settings}
use remote_desktop_tool.Config.Profile.{ConnectionProfile, validate}
use remote_desktop_tool.Config.Store.{
  ConfigStore, set_settings, find, name_used, position_from, name_used_elsewhere, without_id,
  remove, add_valid, add, update_at, update_valid, update,
}
use remote_desktop_tool.Config.Store.Names.{
  Distinct, Distinct-append, Distinct-set, without_id-All, Distinct-without_id, or_else,
  find_in-append, find_in-without_id, find_in-set,
}

-- The calls that change the store.
pub data Operation : Type 0 where
  adding updating : ConnectionProfile → Operation
  removing : List ℕ → Operation
  setting : Settings → Operation

-- What a caller sees of a result: whether the call succeeded.
abbrev pub succeeded : {A : Type 0} → RdtResult A → Bool
succeeded (ok a) = true
succeeded (err code) = false

add_zero : (i : ℕ) → 0 + i ≡ i
add_zero i = omega arith

-- `white` is `char::is_whitespace` of the standard library.
module _ (white : ℕ → Bool) where
  abbrev pub perform : ConfigStore → Operation → Bool × ConfigStore
  perform s (adding p) = let done = add white s p in (succeeded done.0, done.1)
  perform s (updating p) = let done = update white s p in (succeeded done.0, done.1)
  perform s (removing id) = let done = remove s id in (succeeded done.0, done.1)
  perform s (setting settings) = (true, set_settings s settings)

  abbrev pub perform_all : ConfigStore → List Operation → ConfigStore
  perform_all s [] = s
  perform_all s (op ∷ ops) = perform_all (perform s op).1 ops

  -- The profiles of a store: each passes `validate`, and no two have the same name.
  abbrev pub IsSound : List ConnectionProfile → Type 0
  IsSound profiles = All (λ p. validate white p ≡ ok tt) profiles × Distinct profiles

  -- How a call changes the map from identifiers to profiles, by its success.
  abbrev pub change :
      Operation → (List ℕ → Option ConnectionProfile) → List ℕ → Option ConnectionProfile
  change (adding p) v id = or_else (v id) (if same_text p.id id then some p else none)
  change (updating p) v id = if same_text p.id id then some p else v id
  change (removing gone) v id = if same_text gone id then none else v id
  change (setting settings) v id = v id

  abbrev pub changed :
      Bool → Operation → (List ℕ → Option ConnectionProfile) → List ℕ → Option ConnectionProfile
  changed true op v id = change op v id
  changed false op v id = v id

  add_valid-IsSound :
      (s : ConfigStore) (p : ConnectionProfile) (r : RdtResult {0} Unit)
      → validate white p ≡ r
      → IsSound s.inner.profiles
      → IsSound (add_valid white r s p).1.inner.profiles
  add_valid-IsSound s p (err code) e h = h
  add_valid-IsSound s p (ok tt) e h = elim (Bool-cases (name_used s.inner.profiles p.name)) [
    | inl taken ↦ rw taken h
    | inr fresh ↦ rw fresh (
      All-append (λ q. validate white q ≡ ok tt) s.inner.profiles (p ∷ []) h.0 (e, tt),
      Distinct-append s.inner.profiles p h.1 fresh,
    )
  ]

  update_at-IsSound :
      (s : ConfigStore) (p : ConnectionProfile) (at : Option ℕ)
      → validate white p ≡ ok tt
      → IsSound s.inner.profiles
      → IsSound (update_at white at s p).1.inner.profiles
  update_at-IsSound s p none e h = h
  update_at-IsSound s p (some i) e h =
      elim (Bool-cases (name_used_elsewhere 0 i s.inner.profiles p.name)) [
        | inl taken ↦ rw taken h
        | inr fresh ↦
            let from_start : name_used_elsewhere 0 (0 + i) s.inner.profiles p.name ≡ false =
              ap (λ j. name_used_elsewhere 0 j s.inner.profiles p.name) (add_zero i) ∙ fresh in
            rw fresh (
              All-set (λ q. validate white q ≡ ok tt) s.inner.profiles i p h.0 e,
              Distinct-set 0 i s.inner.profiles p h.1 from_start,
            )
      ]

  update_valid-IsSound :
      (s : ConfigStore) (p : ConnectionProfile) (r : RdtResult {0} Unit)
      → validate white p ≡ r
      → IsSound s.inner.profiles
      → IsSound (update_valid white r s p).1.inner.profiles
  update_valid-IsSound s p (err code) e h = h
  update_valid-IsSound s p (ok tt) e h =
      update_at-IsSound s p (position_from 0 s.inner.profiles p.id) e h

  pub perform-IsSound :
      (s : ConfigStore) (op : Operation)
      → IsSound s.inner.profiles
      → IsSound (perform s op).1.inner.profiles
  unfolding add update remove
  perform-IsSound s (adding p) h = add_valid-IsSound s p (validate white p) refl h
  perform-IsSound s (updating p) h = update_valid-IsSound s p (validate white p) refl h
  perform-IsSound s (setting settings) h = h
  perform-IsSound s (removing id) h =
      elim (Bool-cases (length (without_id s.inner.profiles id) == length s.inner.profiles)) [
        | inl unknown ↦ rw unknown h
        | inr known ↦ rw known (
          without_id-All (λ q. validate white q ≡ ok tt) s.inner.profiles id h.0,
          Distinct-without_id s.inner.profiles id h.1,
        )
      ]

  add_valid-find :
      (s : ConfigStore) (p : ConnectionProfile) (r : RdtResult {0} Unit) (id : List ℕ)
      → find (add_valid white r s p).1 id
        ≡ changed (succeeded (add_valid white r s p).0) (adding p) (find s) id
  add_valid-find s p (err code) id = refl
  add_valid-find s p (ok u) id = elim (Bool-cases (name_used s.inner.profiles p.name)) [
    | inl taken ↦ rw taken refl
    | inr fresh ↦ rw fresh (find_in-append s.inner.profiles p id)
  ]

  update_at-find :
      (s : ConfigStore) (p : ConnectionProfile) (at : Option ℕ) (id : List ℕ)
      → position_from 0 s.inner.profiles p.id ≡ at
      → find (update_at white at s p).1 id
        ≡ changed (succeeded (update_at white at s p).0) (updating p) (find s) id
  update_at-find s p none id e = refl
  update_at-find s p (some i) id e =
      elim (Bool-cases (name_used_elsewhere 0 i s.inner.profiles p.name)) [
        | inl taken ↦ rw taken refl
        | inr fresh ↦
            rw fresh (find_in-set 0 i s.inner.profiles p id (e ∙ ap some (sym (add_zero i))))
      ]

  update_valid-find :
      (s : ConfigStore) (p : ConnectionProfile) (r : RdtResult {0} Unit) (id : List ℕ)
      → find (update_valid white r s p).1 id
        ≡ changed (succeeded (update_valid white r s p).0) (updating p) (find s) id
  update_valid-find s p (err code) id = refl
  update_valid-find s p (ok u) id =
      update_at-find s p (position_from 0 s.inner.profiles p.id) id refl

  -- After any call, `find` gives for every identifier what the map from identifiers to profiles gives: an
  -- added profile is found unless its identifier was known, an updated one replaces the one with its
  -- identifier, a removed identifier is unknown, and all else is as before; a call that fails, and a
  -- change of the settings, leave the map as it is.
  pub find-perform :
      (s : ConfigStore) (op : Operation) (id : List ℕ)
      → find (perform s op).1 id ≡ changed (perform s op).0 op (find s) id
  unfolding add update remove
  find-perform s (adding p) id = add_valid-find s p (validate white p) id
  find-perform s (updating p) id = update_valid-find s p (validate white p) id
  find-perform s (setting settings) id = refl
  find-perform s (removing gone) id =
      elim (Bool-cases (length (without_id s.inner.profiles gone) == length s.inner.profiles)) [
        | inl unknown ↦ rw unknown refl
        | inr known ↦ rw known (find_in-without_id s.inner.profiles gone id)
      ]
