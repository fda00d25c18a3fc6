-- ===== src/Rdp/Framebuffer/Rect/Laws.antt =====
-- Bounds of `clamped` and `union` of crates/rdt-rdp/src/framebuffer.rs.
use remote_desktop_tool.Prelude.{
  ℕ, ◌+◌, ◌-◌, ◌≤◌, ◌<◌, ◌^◌, ◌≡◌, ◌⊎◌, refl, inl, inr, arith, Bool-cases, true, false, min,
}
use remote_desktop_tool.Rdp.Framebuffer.Rect.{DamageRect, is_empty, clamped, union}

-- The rectangle lies in a picture of the size.
pub record Inside (width height : ℕ) (r : DamageRect) : Type 0 where
  pub right : r.left + r.width ≤ width
  pub bottom : r.top + r.height ≤ height

-- The pixel lies in the rectangle.
abbrev pub Covers : DamageRect → ℕ → ℕ → Type 0
Covers r x y = (r.left ≤ x) × (x < r.left + r.width) × (r.top ≤ y) × (y < r.top + r.height)

pub clamped-Inside :
    (r : DamageRect) (width height : ℕ)
    → 1 ≤ width
    → 1 ≤ height
    → Inside width height (clamped r width height)
unfolding clamped
clamped-Inside r width height w h = record { right = omega arith; bottom = omega arith }

pub clamped-same :
    (r : DamageRect) (width height : ℕ)
    → Inside width height r
    → is_empty r ≡ false
    → clamped r width height ≡ r
unfolding clamped is_empty
clamped-same r width height h full =
    let l : min r.left (width - 1) ≡ r.left = ground (arith, h.right) in
    let t : min r.top (height - 1) ≡ r.top = ground (arith, h.bottom) in
    let w : min r.width (width - r.left) ≡ r.width = omega (arith, h.right) in
    let k : min r.height (height - r.top) ≡ r.height = omega (arith, h.bottom) in
    rw (l, t) (rw (w, k) refl)

pub union-Inside :
    (a b : DamageRect) (width height : ℕ)
    → width < 2 ^ 32
    → height < 2 ^ 32
    → Inside width height a
    → Inside width height b
    → Inside width height (union a b)
unfolding union
union-Inside a b width height sw sh ha hb = elim (Bool-cases (is_empty a)) [
  | inl none_a ↦ rw none_a hb
  | inr some_a ↦ elim (Bool-cases (is_empty b)) [
    | inl none_b ↦ rw (some_a, none_b) ha
    | inr some_b ↦
        rw (some_a, some_b)
          (record {
            right = omega (arith, ha.right, hb.right);
            bottom = omega (arith, ha.bottom, hb.bottom);
          })
  ]
]

is_empty-Covers : (r : DamageRect) (x y : ℕ) → is_empty r ≡ true → ¬ Covers r x y
unfolding is_empty
is_empty-Covers r x y e = λ c. ground arith

-- The union of two rectangles that lie in one picture, whose sides are below 2^32, covers every
-- pixel that one of them covers.
pub union-Covers :
    (a b : DamageRect) (width height x y : ℕ)
    → width < 2 ^ 32
    → height < 2 ^ 32
    → Inside width height a
    → Inside width height b
    → Covers a x y ⊎ Covers b x y
    → Covers (union a b) x y
unfolding union
union-Covers a b width height x y sw sh ha hb c = elim (Bool-cases (is_empty a)) [
  | inl none_a ↦
      rw none_a (elim c [ inl in_a ↦ absurd (is_empty-Covers a x y none_a in_a) | inr in_b ↦ in_b ])
  | inr some_a ↦ elim (Bool-cases (is_empty b)) [
    | inl none_b ↦
        rw (some_a, none_b)
          (elim c [ inl in_a ↦ in_a | inr in_b ↦ absurd (is_empty-Covers b x y none_b in_b) ])
    | inr some_b ↦ rw (some_a, some_b) (ground (arith, ha.right, ha.bottom, hb.right, hb.bottom))
  ]
]
