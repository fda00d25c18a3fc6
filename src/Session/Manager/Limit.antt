-- ===== src/Session/Manager/Limit.antt =====
-- The limit on concurrent sessions of crates/rdt-session/src/lib.rs.
use mathlib.Core.Path.{subst}
use remote_desktop_tool.Prelude.{
  ℕ, ◌≤◌, ◌<◌, ◌≡◌, ◌≢◌, ◌⊎◌, refl, sym, ap, ◌∙◌, inl, inr, arith, Bool-cases, true, false, List,
  [], ◌∷◌, Option, some, ◌==◌, leb,
}
use remote_desktop_tool.Types.Errors.{Protocol, ok, err, session_state, ErrorCode, config}
use remote_desktop_tool.Session.Types.{
  SessionState, SessionSlot, Sessions, SessionManager, ManagerPolicy, lookup, discard, alter, live,
  count_live, connecting,
}
use remote_desktop_tool.Session.Manager.{
  empty, new, get, set_state, transition, cancel, prune, register, active_count, enter, new_slot,
  connecting_text,
}
use remote_desktop_tool.Session.Manager.Laws.{lookup-discard_ne, cancel-inner, prune-live}

ok-err {ℓ} : {A : Type ℓ} {a : A} {c : ErrorCode} → ok a ≢ err c
ok-err e = cc

ok-injective {ℓ} : {A : Type ℓ} {a b : A} → ok a ≡ ok b → a ≡ b
ok-injective e = cc

count-discard : (xs : Sessions) (id : ℕ) → count_live (discard xs id) ≤ count_live xs
count-discard [] id = omega arith
count-discard (x ∷ xs) id = elim (Bool-cases (x.0 == id)) [
  | inl here ↦ rw here (omega (arith, count-discard xs id))
  | inr there ↦ rw there (omega (arith, count-discard xs id))
]

-- The slot with the id, if any, does not become unfinished.
abbrev pub NotRevived : Sessions → ℕ → SessionState → Type 0
NotRevived xs id state = (s : SessionSlot) → lookup xs id ≡ some s → live state ≤ live s.info.state

count-alter :
    (xs : Sessions) (id : ℕ) (state : SessionState) (detail : List ℕ)
    → NotRevived xs id state
    → count_live (alter xs id (set_state state detail)) ≤ count_live xs
count-alter [] id state detail h = omega arith
count-alter (x ∷ xs) id state detail h = elim (Bool-cases (x.0 == id)) [
  | inl here ↦
      let found : lookup (x ∷ xs) id ≡ some x.1 = rw here refl in
      rw here (omega (arith, h x.1 found))
  | inr there ↦
      let skip : lookup (x ∷ xs) id ≡ lookup xs id = rw there refl in
      rw there (omega (arith, count-alter xs id state detail (λ s e. h s (skip ∙ e))))
]

-- A session is registered exactly when the limit leaves room for it. Then it is known, with the
-- given data, as connecting for the first time; every other session is as it was; and the limit
-- still holds. Otherwise the error says so.
pub register-limit :
    (m : SessionManager) (id : ℕ) (profile : Option ℕ) (protocol : Protocol) (address : List ℕ)
    (commands token now : ℕ)
    → let result = register m id profile protocol address commands token now in
      ((m.policy.max_concurrent ≤ active_count m) × (result ≡ err session_state))
      ⊎ ((active_count m < m.policy.max_concurrent)
          × ((m' : SessionManager) × (result ≡ ok (m', id, commands))
              × (m'.policy ≡ m.policy)
              × (active_count m' ≤ m.policy.max_concurrent)
              × (get m' id ≡ some (new_slot id profile protocol address commands token now).info)
              × ((other : ℕ) → other ≢ id → get m' other ≡ get m other)))
unfolding register get transition
register-limit m id profile protocol address commands token now =
    elim (Bool-cases (leb m.policy.max_concurrent (active_count m))) [
      | inl full ↦ inl (ground arith, rw full refl)
      | inr room ↦
          let self : (id == id) ≡ true = ground arith in
          let miss : (other : ℕ) → other ≢ id → (id == other) ≡ false =
            λ other differs. ground arith in
          inr (
            ground arith,
            (
              transition (enter m id (new_slot id profile protocol address commands token now)) id
                  connecting connecting_text,
              rw room refl,
              refl,
              rw self (ground (arith, count-discard m.inner id)),
              rw (self, self) refl,
              λ other differs.
                  rw (self, miss other differs, lookup-discard_ne m.inner id other differs) refl,
            ),
          )
    ]

-- The managers that a policy and sequences of operations lead to, in which no transition takes a
-- finished session back.
pub data Reachable (policy : ManagerPolicy) : SessionManager → Type 0 where
  created : (m : SessionManager) → new policy ≡ ok m → Reachable policy m
  registered :
      (m m' : SessionManager) (id : ℕ) (profile : Option ℕ) (protocol : Protocol) (address : List ℕ)
      (commands token now : ℕ)
      → Reachable policy m
      → register m id profile protocol address commands token now ≡ ok (m', id, commands)
      → Reachable policy m'
  moved :
      (m : SessionManager) (id : ℕ) (state : SessionState) (detail : List ℕ)
      → Reachable policy m
      → NotRevived m.inner id state
      → Reachable policy (transition m id state detail)
  stopped : (m : SessionManager) (id : ℕ) → Reachable policy m → Reachable policy (cancel m id)
  pruned : (m : SessionManager) → Reachable policy m → Reachable policy (prune m).0

abbrev pub InLimit : ManagerPolicy → SessionManager → Type 0
InLimit policy m = (m.policy ≡ policy) × (active_count m ≤ policy.max_concurrent)

new-InLimit : (policy : ManagerPolicy) (m : SessionManager) → new policy ≡ ok m → InLimit policy m
unfolding new
new-InLimit policy m e = elim (Bool-cases (policy.max_concurrent == 0)) [
  | inl zero_limit ↦
      let refused : new policy ≡ err config = rw zero_limit refl in
      absurd (ok-err (sym e ∙ refused))
  | inr allowed ↦
      let made : new policy ≡ ok (empty policy) = rw allowed refl in
      subst (InLimit policy) (ok-injective (sym made ∙ e)) (refl, omega arith)
]

transition-InLimit :
    (policy : ManagerPolicy) (m : SessionManager) (id : ℕ) (state : SessionState) (detail : List ℕ)
    → NotRevived m.inner id state
    → InLimit policy m
    → InLimit policy (transition m id state detail)
unfolding transition
transition-InLimit policy m id state detail h (same, low) =
    (same, omega (arith, low, count-alter m.inner id state detail h))

cancel-policy : (m : SessionManager) (id : ℕ) → (cancel m id).policy ≡ m.policy
unfolding cancel transition
cancel-policy m id = refl

cancel-InLimit :
    (policy : ManagerPolicy) (m : SessionManager) (id : ℕ)
    → InLimit policy m
    → InLimit policy (cancel m id)
cancel-InLimit policy m id (same, low) = (
  cancel-policy m id ∙ same,
  subst (λ (xs : Sessions). count_live xs ≤ policy.max_concurrent) (sym (cancel-inner m id))
      (omega (arith, low, count-discard m.inner id)),
)

prune-InLimit :
    (policy : ManagerPolicy) (m : SessionManager) → InLimit policy m → InLimit policy (prune m).0
unfolding prune
prune-InLimit policy m (same, low) = (same, omega (arith, low, (prune-live m).1))

register-InLimit :
    (policy : ManagerPolicy) (m m' : SessionManager) (id : ℕ) (profile : Option ℕ)
    (protocol : Protocol) (address : List ℕ) (commands token now : ℕ)
    → register m id profile protocol address commands token now ≡ ok (m', id, commands)
    → InLimit policy m
    → InLimit policy m'
register-InLimit policy m m' id profile protocol address commands token now e (same, low) =
    elim (register-limit m id profile protocol address commands token now) [
      | inl (full, refused) ↦ absurd (ok-err (sym e ∙ refused))
      | inr (room, (u, made, kept, bound, entered, others)) ↦
          subst (InLimit policy) (ap (λ p. p.0) (ok-injective (sym made ∙ e)))
            (kept ∙ same, subst (λ p. active_count u ≤ p.max_concurrent) same bound)
    ]

-- In every manager that a policy and any sequence of registrations, transitions, cancellations and
-- prunings lead to, of which no transition takes a finished session back, at most as many sessions
-- are unfinished as the policy allows.
pub Reachable-InLimit :
    (policy : ManagerPolicy) (m : SessionManager) → Reachable policy m → InLimit policy m
Reachable-InLimit policy m (created n e) = new-InLimit policy m e
Reachable-InLimit policy m (registered n n' id profile protocol address commands token now r e) =
    register-InLimit policy n n' id profile protocol address commands token now e
      (Reachable-InLimit policy n r)
Reachable-InLimit policy m (moved n id state detail r h) =
    transition-InLimit policy n id state detail h (Reachable-InLimit policy n r)
Reachable-InLimit policy m (stopped n id r) =
    cancel-InLimit policy n id (Reachable-InLimit policy n r)
Reachable-InLimit policy m (pruned n r) = prune-InLimit policy n (Reachable-InLimit policy n r)
