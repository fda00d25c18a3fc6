-- ===== src/Config/Store/Names.antt =====
-- Names and identifiers in a list of profiles.
use remote_desktop_tool.Prelude.{
  ℕ, zero, suc, ◌+◌, ◌≡◌, ◌≤◌, ◌<◌, refl, sym, ap, ◌∙◌, inl, inr, arith, Bool, Bool-cases, true,
  false, List, [], ◌∷◌, ◌++◌, Option, none, some, ◌==◌, if◌then◌else◌, set, All, All-set,
  All-append,
}
use remote_desktop_tool.Text.{same_text, lower_ascii}
use remote_desktop_tool.Text.Splits.{same_text_comm, same_text_sound}
use remote_desktop_tool.Config.Profile.{ConnectionProfile}
use remote_desktop_tool.Config.Store.{
  find_in, same_name, name_used, position_from, name_used_elsewhere, without_id,
}

-- No two profiles have the same name, up to the case of ASCII letters.
abbrev pub Distinct : List ConnectionProfile → Type 0
Distinct [] = Unit
Distinct (p ∷ profiles) = All (λ q. same_name p.name q.name ≡ false) profiles × Distinct profiles

name_used-All :
    (profiles : List ConnectionProfile) (name : List ℕ)
    → name_used profiles name ≡ false
    → All (λ q. same_name q.name name ≡ false) profiles
name_used-All [] name h = tt
name_used-All (q ∷ profiles) name h = (ground arith, name_used-All profiles name (ground arith))

pub Distinct-append :
    (profiles : List ConnectionProfile) (p : ConnectionProfile)
    → Distinct profiles
    → name_used profiles p.name ≡ false
    → Distinct (profiles ++ (p ∷ []))
Distinct-append [] p d h = (tt, tt)
Distinct-append (q ∷ profiles) p d h = (
  All-append (λ r. same_name q.name r.name ≡ false) profiles (p ∷ []) d.0 (ground arith, tt),
  Distinct-append profiles p d.1 (ground arith),
)

-- Behind the position that is left out, no profile has the name.
elsewhere-All :
    (at index : ℕ) (profiles : List ConnectionProfile) (p : ConnectionProfile)
    → index < at
    → name_used_elsewhere at index profiles p.name ≡ false
    → All (λ q. same_name p.name q.name ≡ false) profiles
elsewhere-All at index [] p lt h = tt
elsewhere-All at index (q ∷ profiles) p lt h =
    let other : (at == index) ≡ false = ground arith in
    let none_here : same_name q.name p.name ≡ false = ground arith in
    (
      same_text_comm (lower_ascii p.name) (lower_ascii q.name) ∙ none_here,
      elsewhere-All (at + 1) index profiles p (omega arith) (ground arith),
    )

pub Distinct-set :
    (at i : ℕ) (profiles : List ConnectionProfile) (p : ConnectionProfile)
    → Distinct profiles
    → name_used_elsewhere at (at + i) profiles p.name ≡ false
    → Distinct (set profiles i p)
Distinct-set at i [] p d h = tt
Distinct-set at zero (q ∷ profiles) p d h =
    (elsewhere-All (at + 1) (at + 0) profiles p (omega arith) (ground arith), d.1)
Distinct-set at (suc i) (q ∷ profiles) p d h =
    let other : (at == at + suc i) ≡ false = ground arith in
    let shift : at + 1 + i ≡ at + suc i = omega arith in
    let elsewhere : name_used_elsewhere (at + 1) (at + 1 + i) profiles p.name ≡ false =
      rw shift (ground arith) in
    (
      All-set (λ r. same_name q.name r.name ≡ false) profiles i p d.0 (ground arith),
      Distinct-set (at + 1) i profiles p d.1 elsewhere,
    )

pub without_id-All :
    (P : ConnectionProfile → Type 0) (profiles : List ConnectionProfile) (id : List ℕ)
    → All P profiles
    → All P (without_id profiles id)
without_id-All P [] id h = tt
without_id-All P (p ∷ profiles) id h = elim (Bool-cases (same_text p.id id)) [
  | inl same ↦ rw same (without_id-All P profiles id h.1)
  | inr other ↦ rw other (h.0, without_id-All P profiles id h.1)
]

pub Distinct-without_id :
    (profiles : List ConnectionProfile) (id : List ℕ)
    → Distinct profiles
    → Distinct (without_id profiles id)
Distinct-without_id [] id d = tt
Distinct-without_id (p ∷ profiles) id d = elim (Bool-cases (same_text p.id id)) [
  | inl same ↦ rw same (Distinct-without_id profiles id d.1)
  | inr other ↦ rw other (
    without_id-All (λ q. same_name p.name q.name ≡ false) profiles id d.0,
    Distinct-without_id profiles id d.1,
  )
]

abbrev pub or_else : Option ConnectionProfile → Option ConnectionProfile → Option ConnectionProfile
or_else none other = other
or_else (some p) other = some p

pub find_in-append :
    (profiles : List ConnectionProfile) (p : ConnectionProfile) (id : List ℕ)
    → find_in (profiles ++ (p ∷ [])) id
      ≡ or_else (find_in profiles id) (if same_text p.id id then some p else none)
find_in-append [] p id = refl
find_in-append (q ∷ profiles) p id = elim (Bool-cases (same_text q.id id)) [
  | inl same ↦ rw same refl
  | inr other ↦ rw other (find_in-append profiles p id)
]

pub find_in-without_id :
    (profiles : List ConnectionProfile) (gone id : List ℕ)
    → find_in (without_id profiles gone) id
      ≡ (if same_text gone id then none else find_in profiles id)
find_in-without_id [] gone id = elim (Bool-cases (same_text gone id)) [
  | inl same ↦ rw same refl
  | inr other ↦ rw other refl
]
find_in-without_id (p ∷ profiles) gone id = elim (Bool-cases (same_text p.id gone)) [
  | inl dropped ↦
      let alike : same_text p.id id ≡ same_text gone id =
        ap (λ t. same_text t id) (same_text_sound p.id gone dropped) in
      rw (dropped, alike) (find_in-without_id profiles gone id ∙ again (same_text gone id))
  | inr kept ↦ elim (Bool-cases (same_text p.id id)) [
    | inl here ↦
        let unlike : same_text gone id ≡ false =
          ap (λ t. same_text gone t) (sym (same_text_sound p.id id here))
          ∙ same_text_comm gone p.id
          ∙ kept in
        rw (kept, here, unlike) refl
    | inr elsewhere ↦ rw (kept, elsewhere) (find_in-without_id profiles gone id)
  ]
]
  where
    again :
        (b : Bool)
        → (if b then none else find_in profiles id)
          ≡ (if b then none else if b then some p else find_in profiles id)
    again true = refl
    again false = refl

position_from-at :
    (at index : ℕ) (profiles : List ConnectionProfile) (id : List ℕ)
    → position_from at profiles id ≡ some index
    → at ≤ index
position_from-at at index [] id h = absurd (ground arith)
position_from-at at index (q ∷ profiles) id h = elim (Bool-cases (same_text q.id id)) [
  | inl here ↦ ground arith
  | inr later ↦
      let behind : position_from (at + 1) profiles id ≡ some index = ground arith in
      let bound : at + 1 ≤ index = position_from-at (at + 1) index profiles id behind in omega arith
]

-- The profile at the position of its identifier takes the place of the one that is found.
pub find_in-set :
    (at i : ℕ) (profiles : List ConnectionProfile) (p : ConnectionProfile) (id : List ℕ)
    → position_from at profiles p.id ≡ some (at + i)
    → find_in (set profiles i p) id ≡ (if same_text p.id id then some p else find_in profiles id)
find_in-set at i [] p id h = absurd (ground arith)
find_in-set at zero (q ∷ profiles) p id h = elim (Bool-cases (same_text q.id p.id)) [
  | inl here ↦
      let alike : same_text q.id id ≡ same_text p.id id =
        ap (λ t. same_text t id) (same_text_sound q.id p.id here) in
      rw alike (again (same_text p.id id))
  | inr later ↦
      let behind : position_from (at + 1) profiles p.id ≡ some (at + 0) = ground arith in
      let bound : at + 1 ≤ at + 0 = position_from-at (at + 1) (at + 0) profiles p.id behind in
      absurd (omega arith)
]
  where
    again :
        (b : Bool)
        → (if b then some p else find_in profiles id)
          ≡ (if b then some p else if b then some q else find_in profiles id)
    again true = refl
    again false = refl
find_in-set at (suc i) (q ∷ profiles) p id h = elim (Bool-cases (same_text q.id p.id)) [
  | inl here ↦ absurd (ground arith)
  | inr later ↦
      let shift : at + suc i ≡ at + 1 + i = omega arith in
      let behind : position_from (at + 1) profiles p.id ≡ some (at + 1 + i) =
        rw (sym shift) (ground arith) in
      let rest = find_in-set (at + 1) i profiles p id behind in
      elim (Bool-cases (same_text q.id id)) [
        | inl found ↦
            let unlike : same_text p.id id ≡ false =
              ap (λ t. same_text p.id t) (sym (same_text_sound q.id id found))
              ∙ same_text_comm p.id q.id
              ∙ later in
            rw (found, unlike) refl
        | inr beyond ↦ rw beyond rest
      ]
]
