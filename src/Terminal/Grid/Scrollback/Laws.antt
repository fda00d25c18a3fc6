-- ===== src/Terminal/Grid/Scrollback/Laws.antt =====
-- The scrollback of crates/rdt-terminal/src/grid.rs against the list of all lines ever pushed.
use remote_desktop_tool.Prelude.{
  ℕ, zero, suc, ◌+◌, ◌-◌, ◌≤◌, ◌<◌, ◌≡◌, refl, sym, ap, ◌∙◌, List, [], ◌∷◌, ◌++◌, inl, inr, arith,
  Bool-cases, ◌==◌, ltb, if◌then◌else◌, min, length, drop, length-append, length-drop,
  drop-append_left, drop-drop, append_assoc, append-nil,
}
use mathlib.Core.Path.{subst}
use remote_desktop_tool.Terminal.Grid.Scrollback.{
  Scrollback, new, pop_front, push, trim, set_limit, push_all,
}

module _ {ℓ} {A : Type ℓ} where
  pop_front-drop : (xs : List A) → pop_front xs ≡ drop 1 xs
  pop_front-drop [] = refl
  pop_front-drop (x ∷ xs) = refl

  drop_all : (xs : List A) (n : ℕ) → length xs ≤ n → drop n xs ≡ []
  drop_all [] zero h = refl
  drop_all [] (suc n) h = refl
  drop_all (x ∷ xs) zero h = absurd (omega arith)
  drop_all (x ∷ xs) (suc n) h = drop_all xs n (omega arith)

  -- The list keeps the last `limit` of the lines.
  abbrev pub IsLast : Scrollback A → List A → Type ℓ
  IsLast s xs = s.lines ≡ drop (length xs - s.limit) xs

  limit-push : (s : Scrollback A) (x : A) → (push s x).limit ≡ s.limit
  unfolding push
  limit-push s x = ground arith

  kept_lines :
      (limit : ℕ) (lines : List A) (x : A)
      → 0 < limit
      → length lines ≤ limit
      → (if length lines == limit then pop_front lines else lines) ++ (x ∷ [])
        ≡ drop (suc (length lines) - limit) (lines ++ (x ∷ []))
  kept_lines limit lines x pos h = elim (Bool-cases (length lines == limit)) [
    | inl full ↦
        let one : suc (length lines) - limit ≡ 1 = ground arith in
        rw (full, one, pop_front-drop) (sym (drop-append_left 1 lines (x ∷ []) (ground arith)))
    | inr free ↦ let none_out : suc (length lines) - limit ≡ 0 = ground arith in rw (free, none_out)
  ]

  push-drop :
      (s : Scrollback A) (x : A)
      → length s.lines ≤ s.limit
      → (push s x).lines ≡ drop (suc (length s.lines) - s.limit) (s.lines ++ (x ∷ []))
  unfolding push
  push-drop s x h = elim (Bool-cases (s.limit == 0)) [
    | inl none_kept ↦ rw none_kept (
        drop_all s.lines 0 (ground arith)
        ∙ sym (drop_all (s.lines ++ (x ∷ [])) _ (ground (arith, length-append s.lines (x ∷ [])))))
    | inr some_kept ↦ rw some_kept (kept_lines s.limit s.lines x (ground arith) h)
  ]

  length-IsLast : (s : Scrollback A) (xs : List A) → IsLast s xs → length s.lines ≤ s.limit
  length-IsLast s xs h = rw h (omega (arith, length-drop (length xs - s.limit) xs))

  push-IsLast :
      (s : Scrollback A) (x : A) (xs : List A) → IsLast s xs → IsLast (push s x) (xs ++ (x ∷ []))
  push-IsLast s x xs h =
      let k : ℕ = length xs - s.limit in
      push-drop s x (length-IsLast s xs h)
      ∙ rw (h, limit-push)
          (ap (drop (suc (length (drop k xs)) - s.limit))
              (sym (drop-append_left k xs (x ∷ []) (omega arith)))
            ∙ drop-drop _ k (xs ++ (x ∷ []))
            ∙ ap (λ j. drop j (xs ++ (x ∷ []))) {x = k + (suc (length (drop k xs)) - s.limit)}
                (omega (arith, length-drop k xs, length-append xs (x ∷ []))))

  push_all-IsLast :
      (ys : List A) (s : Scrollback A) (xs : List A)
      → IsLast s xs
      → IsLast (push_all s ys) (xs ++ ys)
  unfolding push_all
  push_all-IsLast [] s xs h = rw append-nil h
  push_all-IsLast (y ∷ ys) s xs h =
      subst (IsLast (push_all (push s y) ys)) (append_assoc xs (y ∷ []) ys)
        (push_all-IsLast ys (push s y) (xs ++ (y ∷ [])) (push-IsLast s y xs h))

  limit-push_all : (ys : List A) (s : Scrollback A) → (push_all s ys).limit ≡ s.limit
  unfolding push_all
  limit-push_all [] s = refl
  limit-push_all (y ∷ ys) s = limit-push_all ys (push s y) ∙ limit-push s y

  -- A scrollback that has been given the lines `xs` one by one holds the last `limit` of them, in
  -- order; a limit of zero keeps nothing.
  pub push_all-last :
      (limit : ℕ) (xs : List A) → (push_all (new limit) xs).lines ≡ drop (length xs - limit) xs
  push_all-last limit xs =
      push_all-IsLast xs (new limit) [] (sym (drop_all [] (0 - limit) (omega arith)))
      ∙ ap (λ n. drop (length xs - n) xs) (limit-push_all xs (new limit))

  trim-drop :
      (fuel limit : ℕ) (xs : List A)
      → length xs ≤ fuel
      → trim fuel limit xs ≡ drop (length xs - limit) xs
  unfolding trim
  trim-drop zero limit [] h = sym (drop_all [] _ (omega arith))
  trim-drop zero limit (x ∷ xs) h = absurd (omega arith)
  trim-drop (suc fuel) limit [] h =
      rw (drop_all [] (0 - limit) (omega arith), trim-drop fuel limit [] (omega arith))
        (ground arith)
  trim-drop (suc fuel) limit (x ∷ xs) h = elim (Bool-cases (ltb limit (suc (length xs)))) [
    | inl over ↦
        let more : suc (length xs) - limit ≡ suc (length xs - limit) = ground arith in
        rw (over, more) (trim-drop fuel limit xs (omega arith))
    | inr fits ↦ let enough : suc (length xs) - limit ≡ 0 = ground arith in rw (fits, enough)
  ]

  -- Changing the limit drops lines from the oldest end, and exactly as many as are over the limit.
  pub set_limit-drop :
      (s : Scrollback A) (limit : ℕ)
      → ((set_limit s limit).lines ≡ drop (length s.lines - limit) s.lines)
        × (length (set_limit s limit).lines ≡ min limit (length s.lines))
  unfolding set_limit
  set_limit-drop s limit =
      let e = trim-drop (length s.lines) limit s.lines (omega arith) in
      (e, rw e (omega (arith, length-drop (length s.lines - limit) s.lines)))
