-- ===== src/Prelude/Vectors.antt =====
-- Rust's `Vec` with its panics: `none` stands for an index out of range.
use Prim.Native.Nat.{ℕ, zero, suc, ◌≤◌, ◌<◌}
use mathlib.Core.Path.{◌≡◌, refl, ap}
use mathlib.Core.List.{List, [], ◌∷◌, ◌++◌}
use mathlib.Core.Option.{Option, none, some}
use native.Mathlib.Omega.{arith}
use remote_desktop_tool.Prelude.Lists.{length, All, get_elem?, set}

-- A chain of steps that may panic.
infixl 5 ◌>>=◌
abbrev pub ◌>>=◌ {ℓ κ} : {A : Type ℓ} {B : Type κ} → Option A → (A → Option B) → Option B
none >>= f = none
some a >>= f = f a

module _ {ℓ} {A : Type ℓ} where
  -- `vec.remove(i)`: the element and what is left.
  unfoldable pub remove : List A → ℕ → Option (A × List A)
  remove [] i = none
  remove (x ∷ xs) zero = some (x, xs)
  remove (x ∷ xs) (suc i) = remove xs i >>= λ r. some (r.0, x ∷ r.1)

  -- `vec.insert(i, v)`: allowed up to the length.
  unfoldable pub insert : List A → ℕ → A → Option (List A)
  insert xs zero v = some (v ∷ xs)
  insert [] (suc i) v = none
  insert (x ∷ xs) (suc i) v = insert xs i v >>= λ r. some (x ∷ r)

  -- `vec[i] = f(vec[i])`, where `f` may panic.
  unfoldable pub modify : List A → ℕ → (A → Option A) → Option (List A)
  modify [] i f = none
  modify (x ∷ xs) zero f = f x >>= λ y. some (y ∷ xs)
  modify (x ∷ xs) (suc i) f = modify xs i f >>= λ r. some (x ∷ r)

-- `for _ in 0..n`, where a round may panic.
unfoldable pub repeat {ℓ} : {S : Type ℓ} → ℕ → (S → Option S) → S → Option S
repeat zero f s = some s
repeat (suc n) f s = f s >>= repeat n f

pub bind_assoc {ℓ κ μ} :
    {A : Type ℓ} {B : Type κ} {C : Type μ} (m : Option A) (f : A → Option B) (g : B → Option C)
    → ((m >>= f) >>= g) ≡ (m >>= λ a. f a >>= g)
bind_assoc none f g = refl
bind_assoc (some a) f g = refl

-- The step does not panic, and its result satisfies `P`.
abbrev pub Ensures {ℓ} : {A : Type ℓ} → (A → Type 0) → Option A → Type 0
Ensures P none = ⊥
Ensures P (some a) = P a

-- A vector of `n` elements that all satisfy `P`.
abbrev pub Sized {ℓ} : {A : Type ℓ} → (A → Type 0) → ℕ → List A → Type 0
Sized P n xs = (length xs ≡ n) × All P xs

pub Ensures-bind {ℓ κ} :
    {A : Type ℓ} {B : Type κ} (P : A → Type 0) (Q : B → Type 0) (m : Option A) (f : A → Option B)
    → Ensures P m
    → ((a : A) → P a → Ensures Q (f a))
    → Ensures Q (m >>= f)
Ensures-bind P Q none f h k = h
Ensures-bind P Q (some a) f h k = k a h

pub weaken-Ensures {ℓ} :
    {A : Type ℓ} (P Q : A → Type 0) (m : Option A)
    → ((a : A) → P a → Q a)
    → Ensures P m
    → Ensures Q m
weaken-Ensures P Q none f h = h
weaken-Ensures P Q (some a) f h = f a h

pub Ensures-some {ℓ} :
    {A : Type ℓ} (P : A → Type 0) (m : Option A) → Ensures P m → (a : A) × (m ≡ some a) × P a
Ensures-some P none h = absurd h
Ensures-some P (some a) h = (a, refl, h)

pub repeat-Ensures {ℓ} :
    {S : Type ℓ} (P : S → Type 0) (f : S → Option S)
    → ((s : S) → P s → Ensures P (f s))
    → (n : ℕ) (s : S) → P s
    → Ensures P (repeat n f s)
unfolding repeat
repeat-Ensures P f keep zero s h = h
repeat-Ensures P f keep (suc n) s h =
    Ensures-bind P P (f s) (repeat n f) (keep s h) (repeat-Ensures P f keep n)

module _ {ℓ} {A : Type ℓ} (P : A → Type 0) where
  pub remove-Sized :
      (xs : List A) (i n : ℕ)
      → Sized P (suc n) xs
      → i < suc n
      → Ensures (λ r. P r.0 × Sized P n r.1) (remove xs i)
  unfolding remove
  remove-Sized [] i n h lt = absurd (omega (arith, h.0))
  remove-Sized (x ∷ xs) zero n h lt = (h.1.0, (omega (arith, h.0), h.1.1))
  remove-Sized (x ∷ xs) (suc i) zero h lt = absurd (omega arith)
  remove-Sized (x ∷ xs) (suc i) (suc n) h lt =
      Ensures-bind _ _ (remove xs i) _
        (remove-Sized xs i n (omega (arith, h.0), h.1.1) (omega arith))
        (λ r k. (k.0, (ap suc k.1.0, (h.1.0, k.1.1))))

  pub insert-Sized :
      (xs : List A) (i n : ℕ) (v : A)
      → Sized P n xs
      → i ≤ n
      → P v
      → Ensures (Sized P (suc n)) (insert xs i v)
  unfolding insert
  insert-Sized xs zero n v h le p = (ap suc h.0, (p, h.1))
  insert-Sized [] (suc i) n v h le p = absurd (omega (arith, h.0))
  insert-Sized (x ∷ xs) (suc i) zero v h le p = absurd (omega arith)
  insert-Sized (x ∷ xs) (suc i) (suc n) v h le p =
      Ensures-bind _ _ (insert xs i v) _
        (insert-Sized xs i n v (omega (arith, h.0), h.1.1) (omega arith) p)
        (λ r k. (ap suc k.0, (h.1.0, k.1)))

  pub modify-Sized :
      (xs : List A) (i n : ℕ) (f : A → Option A)
      → ((x : A) → P x → Ensures P (f x))
      → Sized P n xs
      → i < n
      → Ensures (Sized P n) (modify xs i f)
  unfolding modify
  modify-Sized [] i n f keep h lt = absurd (omega (arith, h.0))
  modify-Sized (x ∷ xs) zero n f keep h lt =
      Ensures-bind P _ (f x) _ (keep x h.1.0) (λ y k. (h.0, (k, h.1.1)))
  modify-Sized (x ∷ xs) (suc i) zero f keep h lt = absurd (omega arith)
  modify-Sized (x ∷ xs) (suc i) (suc n) f keep h lt =
      Ensures-bind _ _ (modify xs i f) _
        (modify-Sized xs i n f keep (omega (arith, h.0), h.1.1) (omega arith))
        (λ r k. (ap suc k.0, (h.1.0, k.1)))

-- The same of the lengths alone.
module _ {ℓ} {A : Type ℓ} where
  -- In range the change is made.
  pub modify-set :
      (xs : List A) (i : ℕ) (f : A → Option A) {x y : A}
      → get_elem? xs i ≡ some x
      → f x ≡ some y
      → modify xs i f ≡ some (set xs i y)
  unfolding modify
  modify-set [] i f e h = cc
  modify-set (z ∷ xs) zero f {x} {y} e h = let same : f z ≡ some y = cc in rw same
  modify-set (z ∷ xs) (suc i) f e h = rw (modify-set xs i f e h)

  pub insert_end : (xs : List A) (v : A) → insert xs (length xs) v ≡ some (xs ++ (v ∷ []))
  unfolding insert
  insert_end [] v = refl
  insert_end (x ∷ xs) v = rw (insert_end xs v)

  -- Past the end there is no element to change.
  pub modify-none :
      (xs : List A) (i : ℕ) → length xs ≤ i → (f : A → Option A) → modify xs i f ≡ none
  unfolding modify
  modify-none [] i h f = refl
  modify-none (x ∷ xs) zero h f = absurd (omega arith)
  modify-none (x ∷ xs) (suc i) h f = rw (modify-none xs i (omega arith) f)

  abbrev HasLength : ℕ → List A → Type 0
  HasLength n = Sized (λ x. Unit {0}) n

  All-Unit : (xs : List A) → All (λ x. Unit {0}) xs
  All-Unit [] = tt
  All-Unit (x ∷ xs) = (tt, All-Unit xs)

  pub remove-length :
      (xs : List A) (i : ℕ)
      → i < length xs
      → Ensures (λ r. suc (length r.1) ≡ length xs) (remove xs i)
  remove-length [] i h = absurd (omega arith)
  remove-length (x ∷ xs) i h =
      weaken-Ensures _ _ (remove (x ∷ xs) i) (λ r k. ap suc k.1.0)
        (remove-Sized (λ y. Unit {0}) (x ∷ xs) i (length xs) (refl, All-Unit (x ∷ xs)) h)

  pub insert-length :
      (xs : List A) (i : ℕ) (v : A)
      → i ≤ length xs
      → Ensures (λ ys. length ys ≡ suc (length xs)) (insert xs i v)
  insert-length xs i v h =
      weaken-Ensures _ _ (insert xs i v) (λ ys k. k.0)
        (insert-Sized (λ y. Unit {0}) xs i (length xs) v (refl, All-Unit xs) h tt)

  pub modify-length :
      (xs : List A) (i : ℕ) (v : A)
      → i < length xs
      → Ensures (λ ys. length ys ≡ length xs) (modify xs i (λ old. some v))
  modify-length xs i v h =
      weaken-Ensures _ _ (modify xs i (λ old. some v)) (λ ys k. k.0)
        (modify-Sized (λ y. Unit {0}) xs i (length xs) _ (λ x k. tt) (refl, All-Unit xs) h)
