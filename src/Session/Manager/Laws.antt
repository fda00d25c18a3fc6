-- ===== src/Session/Manager/Laws.antt =====
-- What the operations of `SessionManager` do to each session.
use mathlib.Core.Path.{subst}
use remote_desktop_tool.Prelude.{
  ℕ, ◌-◌, ◌≡◌, ◌≢◌, ◌⊎◌, refl, sym, ap, ◌∙◌, inl, inr, arith, Bool-cases, false, List, [], ◌∷◌,
  Option, none, some, ◌>>=◌, bind_assoc, ◌==◌, length, if◌then◌else◌,
}
use remote_desktop_tool.Session.Types.{
  SessionState, SessionSlot, Sessions, SessionManager, lookup, discard, alter, is_terminal,
  count_live, cancelled,
}
use remote_desktop_tool.Session.Manager.{
  active_count, get, set_state, next_attempt, transition, cancel, cancel_ids, cancel_all,
  cancelled_text, keys, unfinished, prune, fire,
}

lookup-alter_self :
    (xs : Sessions) (id : ℕ) (f : SessionSlot → SessionSlot)
    → lookup (alter xs id f) id ≡ (lookup xs id >>= λ s. some (f s))
lookup-alter_self [] id f = refl
lookup-alter_self (x ∷ xs) id f = elim (Bool-cases (x.0 == id)) [
  | inl here ↦ rw (here, here) refl
  | inr there ↦ rw (there, there) (lookup-alter_self xs id f)
]

lookup-alter_ne :
    (xs : Sessions) (id other : ℕ) (f : SessionSlot → SessionSlot)
    → other ≢ id
    → lookup (alter xs id f) other ≡ lookup xs other
lookup-alter_ne [] id other f differs = refl
lookup-alter_ne (x ∷ xs) id other f differs = elim (Bool-cases (x.0 == id)) [
  | inl here ↦ let miss : (x.0 == other) ≡ false = ground arith in rw (here, miss) refl
  | inr there ↦ rw there (
      ap (λ (o : Option SessionSlot). if x.0 == other then some x.1 else o)
        (lookup-alter_ne xs id other f differs))
]

lookup-discard_self : (xs : Sessions) (id : ℕ) → lookup (discard xs id) id ≡ none
lookup-discard_self [] id = refl
lookup-discard_self (x ∷ xs) id = elim (Bool-cases (x.0 == id)) [
  | inl here ↦ rw here (lookup-discard_self xs id)
  | inr there ↦ rw (there, there) (lookup-discard_self xs id)
]

pub lookup-discard_ne :
    (xs : Sessions) (id other : ℕ) → other ≢ id → lookup (discard xs id) other ≡ lookup xs other
lookup-discard_ne [] id other differs = refl
lookup-discard_ne (x ∷ xs) id other differs = elim (Bool-cases (x.0 == id)) [
  | inl here ↦
      let miss : (x.0 == other) ≡ false = ground arith in
      rw (here, miss) (lookup-discard_ne xs id other differs)
  | inr there ↦ rw there (
      ap (λ (o : Option SessionSlot). if x.0 == other then some x.1 else o)
        (lookup-discard_ne xs id other differs))
]

alter_absent :
    (xs : Sessions) (id : ℕ) (f : SessionSlot → SessionSlot)
    → lookup xs id ≡ none
    → alter xs id f ≡ xs
alter_absent [] id f e = refl
alter_absent (x ∷ xs) id f e = elim (Bool-cases (x.0 == id)) [
  | inl here ↦ let found : lookup (x ∷ xs) id ≡ some x.1 = rw here refl in cc
  | inr there ↦
      let skip : lookup (x ∷ xs) id ≡ lookup xs id = rw there refl in
      rw there (ap (λ (r : Sessions). x ∷ r) (alter_absent xs id f (sym skip ∙ e)))
]

-- A transition sets the state and the detail of its session and counts an attempt exactly when the
-- state is `reconnecting`; no other session changes, and no session appears or goes.
pub get-transition :
    (m : SessionManager) (id : ℕ) (state : SessionState) (detail : List ℕ)
    → (get (transition m id state detail) id ≡ (
        get m id >>= λ info. some (record info {
          state = state;
          detail = detail;
          attempt = next_attempt state info.attempt;
        })))
      × ((other : ℕ) → other ≢ id → get (transition m id state detail) other ≡ get m other)
unfolding get transition
get-transition m id state detail =
    let f = set_state state detail in
    (
      rw (lookup-alter_self m.inner id f)
          (bind_assoc (lookup m.inner id) _ _ ∙ sym (bind_assoc (lookup m.inner id) _ _)),
      λ other differs. rw (lookup-alter_ne m.inner id other f differs) refl,
    )

-- Whatever state a session is in, once it was cancelled the manager does not know it any more, and
-- its cancellation token was used, if it was known; every other session is as it was.
pub get-cancel :
    (m : SessionManager) (id : ℕ)
    → (get (cancel m id) id ≡ none)
      × ((cancel m id).fired ≡ fire (lookup m.inner id) m.fired)
      × ((other : ℕ) → other ≢ id → get (cancel m id) other ≡ get m other)
unfolding get cancel transition
get-cancel m id =
    let f = set_state cancelled cancelled_text in
    let gone = alter_absent (discard m.inner id) id f (lookup-discard_self m.inner id) in
    (
      rw (gone, lookup-discard_self m.inner id) refl,
      refl,
      λ other differs. rw (gone, lookup-discard_ne m.inner id other differs) refl,
    )

pub cancel-inner : (m : SessionManager) (id : ℕ) → (cancel m id).inner ≡ discard m.inner id
unfolding cancel transition
cancel-inner m id =
    alter_absent (discard m.inner id) id (set_state cancelled cancelled_text)
      (lookup-discard_self m.inner id)

-- The id is in the list.
abbrev Has : ℕ → List ℕ → Type 0
Has k [] = ⊥
Has k (i ∷ ids) = (k ≡ i) ⊎ Has k ids

-- Every session has its id in the list.
abbrev Covered : List ℕ → Sessions → Type 0
Covered ids [] = Unit
Covered ids (x ∷ xs) = Has x.0 ids × Covered ids xs

Covered-more : (xs : Sessions) (id : ℕ) (ids : List ℕ) → Covered ids xs → Covered (id ∷ ids) xs
Covered-more [] id ids h = tt
Covered-more (x ∷ xs) id ids h = (inr h.0, Covered-more xs id ids h.1)

Covered-keys : (xs : Sessions) → Covered (keys xs) xs
Covered-keys [] = tt
Covered-keys (x ∷ xs) = (inl refl, Covered-more xs x.0 (keys xs) (Covered-keys xs))

Has-other : (k id : ℕ) (ids : List ℕ) → (k == id) ≡ false → Has k (id ∷ ids) → Has k ids
Has-other k id ids differs (inl e) = absurd (ground arith)
Has-other k id ids differs (inr h) = h

Covered-discard :
    (xs : Sessions) (id : ℕ) (ids : List ℕ) → Covered (id ∷ ids) xs → Covered ids (discard xs id)
Covered-discard [] id ids h = tt
Covered-discard (x ∷ xs) id ids h = elim (Bool-cases (x.0 == id)) [
  | inl here ↦ rw here (Covered-discard xs id ids h.1)
  | inr there ↦ rw there (Has-other x.0 id ids there h.0, Covered-discard xs id ids h.1)
]

cancel_ids-empties :
    (ids : List ℕ) (m : SessionManager) → Covered ids m.inner → (cancel_ids m ids).inner ≡ []
unfolding cancel_ids
cancel_ids-empties [] m h = none_left m.inner h
  where
    none_left : (xs : Sessions) → Covered [] xs → xs ≡ []
    none_left [] h = refl
    none_left (x ∷ xs) h = absurd h.0
cancel_ids-empties (id ∷ ids) m h =
    cancel_ids-empties ids (cancel m id)
      (subst (Covered ids) (sym (cancel-inner m id)) (Covered-discard m.inner id ids h))

-- At shutdown, cancelling every session leaves none behind, whatever their states.
pub cancel_all-empties : (m : SessionManager) → (cancel_all m).inner ≡ []
unfolding cancel_all
cancel_all-empties m = cancel_ids-empties (keys m.inner) m (Covered-keys m.inner)

unfinished-live :
    (xs : Sessions)
    → (length (unfinished xs) ≡ count_live xs) × (count_live (unfinished xs) ≡ count_live xs)
unfinished-live [] = (refl, refl)
unfinished-live (x ∷ xs) =
    let (long, same) = unfinished-live xs in
    elim (Bool-cases (is_terminal x.1.info.state)) [
      | inl over ↦ rw over (omega (arith, long), omega (arith, same))
      | inr going ↦ rw (going, going) (omega (arith, long), omega (arith, same))
    ]

-- Pruning keeps exactly as many sessions as are not finished, all of them unfinished, and returns
-- the number of those it took out.
pub prune-live :
    (m : SessionManager)
    → (length (prune m).0.inner ≡ active_count m)
      × (active_count (prune m).0 ≡ active_count m)
      × ((prune m).1 ≡ length m.inner - active_count m)
unfolding prune
prune-live m =
    let (long, same) = unfinished-live m.inner in (long, same, ap (λ n. length m.inner - n) long)
