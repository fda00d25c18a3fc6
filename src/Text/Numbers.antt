-- ===== src/Text/Numbers.antt =====
-- Numbers as text: what is printed is read back.
use remote_desktop_tool.Prelude.{
  ℕ, zero, suc, ◌+◌, ◌-◌, ◌*◌, ◌/◌, ◌%◌, ◌^◌, ◌≤◌, ◌<◌, ◌≡◌, refl, ◌∙◌, inl, inr, arith, Bool-cases,
  true, false, List, [], ◌∷◌, ◌++◌, Option, none, some, ◌>>=◌, ◌==◌, ltb, length, length-append,
  All, All-append, ◌&&◌, within,
}
use remote_desktop_tool.Text.{digits, decimal, push_digit, read_digits, parse_unsigned}

module _ {A : Type 0} where
  bind_step : (o : Option ℕ) (f g : ℕ → Option A) → ((n : ℕ) → f n ≡ g n) → (o >>= f) ≡ (o >>= g)
  bind_step none f g h = refl
  bind_step (some n) f g h = h n

bind_twice : (o : Option ℕ) (f g : ℕ → Option ℕ) → (o >>= λ n. f n >>= g) ≡ ((o >>= f) >>= g)
bind_twice none f g = refl
bind_twice (some n) f g = refl

read_digits-append :
    (top : ℕ) (s : List ℕ) (n : ℕ) (t : List ℕ)
    → read_digits top n (s ++ t) ≡ (read_digits top n s >>= λ m. read_digits top m t)
unfolding read_digits
read_digits-append top [] n t = refl
read_digits-append top (c ∷ s) n t =
    bind_step (push_digit top n c) _ _ (λ m. read_digits-append top s m t)
    ∙ bind_twice (push_digit top n c) (λ m. read_digits top m s) (λ m. read_digits top m t)

push_digit-some :
    (top n d : ℕ) → d < 10 → n * 10 + d ≤ top → push_digit top n (b'0' + d) ≡ some (n * 10 + d)
push_digit-some top n d h le =
    let fits : (within b'0' b'9' (b'0' + d) && ltb (n * 10 + (b'0' + d - b'0')) (top + 1)) ≡ true =
      ground arith in
    let same : b'0' + d - b'0' ≡ d = omega arith in rw (fits, same) refl

read_one : (top d : ℕ) → d < 10 → d ≤ top → read_digits top 0 ((b'0' + d) ∷ []) ≡ some d
unfolding read_digits
read_one top d h le = rw (push_digit-some top 0 d h (omega arith)) (ground arith)

read_last : (top n : ℕ) → n ≤ top → read_digits top (n / 10) ((b'0' + n % 10) ∷ []) ≡ some n
unfolding read_digits
read_last top n le =
    let whole : n / 10 * 10 + n % 10 ≡ n = omega arith in
    rw (push_digit-some top (n / 10) (n % 10) (omega arith) (omega arith), whole) refl

-- Enough fuel prints a number whose digits read as the number.
pub read_digits-digits :
    (f top n : ℕ) → n < 10 ^ f → n ≤ top → read_digits top 0 (digits f n) ≡ some n
unfolding digits read_digits
read_digits-digits zero top n h le = let none_left : n ≡ 0 = omega arith in rw none_left refl
read_digits-digits (suc f) top n h le = elim (Bool-cases (ltb n 10)) [
  | inl small ↦ rw small (read_one top n (ground arith) le)
  | inr large ↦ rw large (
      read_digits-append top (digits f (n / 10)) 0 ((b'0' + n % 10) ∷ [])
      ∙ rw (read_digits-digits f top (n / 10) (omega arith) (omega arith)) (read_last top n le))
]

abbrev pub IsDigit : ℕ → Type 0
IsDigit c = (b'0' ≤ c) × (c ≤ b'9')

pub digits-IsDigit : (f n : ℕ) → All IsDigit (digits f n)
unfolding digits
digits-IsDigit zero n = tt
digits-IsDigit (suc f) n = elim (Bool-cases (ltb n 10)) [
  | inl small ↦ rw small ((omega arith, ground arith), tt)
  | inr large ↦ rw large (
      All-append IsDigit (digits f (n / 10)) ((b'0' + n % 10) ∷ []) (digits-IsDigit f (n / 10))
        ((omega arith, omega arith), tt))
]

pub some_digits : (f n : ℕ) → 1 ≤ length (digits (suc f) n)
unfolding digits
some_digits f n = elim (Bool-cases (ltb n 10)) [
  | inl small ↦ rw small (omega arith)
  | inr large ↦ rw large (omega (arith, length-append (digits f (n / 10)) ((b'0' + n % 10) ∷ [])))
]

-- A text of digits does not begin with a sign.
parse_unsigned-digits :
    (top : ℕ) (s : List ℕ)
    → All IsDigit s
    → 1 ≤ length s
    → parse_unsigned top s ≡ read_digits top 0 s
unfolding parse_unsigned
parse_unsigned-digits top [] h some_digit = absurd (omega arith)
parse_unsigned-digits top (c ∷ []) h some_digit = refl
parse_unsigned-digits top (c ∷ d ∷ s) h some_digit =
    let unsigned : (c == b'+') ≡ false = ground (arith, h.0) in rw unsigned refl

pub parse_unsigned-decimal :
    (top n : ℕ) → n ≤ top → top < 10 ^ 20 → parse_unsigned top (decimal n) ≡ some n
parse_unsigned-decimal top n le small =
    parse_unsigned-digits top (decimal n) (digits-IsDigit 20 n) (some_digits 19 n)
    ∙ read_digits-digits 20 top n (omega arith) le
