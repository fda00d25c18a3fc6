-- ===== src/Terminal/Screen/Styles.antt =====
-- Graphic renditions (`sgr` of crates/rdt-terminal/src/term.rs) against a list of styles.
use remote_desktop_tool.Prelude.{
  ℕ, zero, suc, ◌%◌, ◌≤◌, ◌<◌, ◌≡◌, ◌≢◌, refl, ◌∙◌, ap, inl, inr, arith, false, List, [], ◌∷◌, ◌++◌,
  ◌==◌, Bool-cases, length, length-append, All,
}
use remote_desktop_tool.Terminal.Grid.{Color, Attrs}
use remote_desktop_tool.Terminal.Screen.Types.{Terminal, set_attrs}
use remote_desktop_tool.Terminal.Screen.Attributes.{
  take_indexed, take_rgb, take_extended_color, sgr_simple, sgr_step, sgr_loop, sgr,
}

-- A code that stands alone, or a colour of the text or behind it.
pub data Style : Type 0 where
  simple : ℕ → Style
  foreground background : Color → Style

-- What follows 38 or 48.
abbrev color_codes : Color → List ℕ
color_codes Color.default = []
color_codes (Color.indexed v) = 5 ∷ v ∷ []
color_codes (Color.rgb r g b) = 2 ∷ r ∷ g ∷ b ∷ []

abbrev pub style_codes : Style → List ℕ
style_codes (simple code) = code ∷ []
style_codes (foreground Color.default) = 39 ∷ []
style_codes (foreground color) = 38 ∷ color_codes color
style_codes (background Color.default) = 49 ∷ []
style_codes (background color) = 48 ∷ color_codes color

abbrev pub codes : List Style → List ℕ
codes [] = []
codes (s ∷ styles) = style_codes s ++ codes styles

-- The parts of a colour are bytes.
abbrev pub IsColor : Color → Type 0
IsColor Color.default = Unit
IsColor (Color.indexed v) = v < 256
IsColor (Color.rgb r g b) = (r < 256) × (g < 256) × (b < 256)

abbrev pub IsStyle : Style → Type 0
IsStyle (simple code) = (code ≢ 38) × (code ≢ 48)
IsStyle (foreground color) = IsColor color
IsStyle (background color) = IsColor color

abbrev pub apply_style : Style → Attrs → Attrs
apply_style (simple code) a = sgr_simple code a
apply_style (foreground color) a = record a { fg = color }
apply_style (background color) a = record a { bg = color }

-- The styles, first to last.
abbrev pub apply_styles : List Style → Attrs → Attrs
apply_styles [] a = a
apply_styles (s ∷ styles) a = apply_styles styles (apply_style s a)

-- A style takes one round, whatever follows.
style_round :
    (s : Style) (fuel : ℕ) (rest : List ℕ) (a : Attrs)
    → IsStyle s
    → sgr_loop (suc fuel) (style_codes s ++ rest) a ≡ sgr_loop fuel rest (apply_style s a)
unfolding sgr_loop sgr_step take_extended_color sgr_simple
style_round (simple code) fuel rest a h =
    let no_fg : (code == 38) ≡ false = ground arith in
    let no_bg : (code == 48) ≡ false = ground arith in rw (no_fg, no_bg) refl
style_round (foreground Color.default) fuel rest a h = refl
style_round (foreground (Color.indexed v)) fuel rest a h =
    let byte : v % 256 ≡ v = omega arith in rw byte refl
style_round (foreground (Color.rgb r g b)) fuel rest a h =
    let red : r % 256 ≡ r = omega arith in
    let green : g % 256 ≡ g = omega arith in
    let blue : b % 256 ≡ b = omega arith in rw (red, green, blue) refl
style_round (background Color.default) fuel rest a h = refl
style_round (background (Color.indexed v)) fuel rest a h =
    let byte : v % 256 ≡ v = omega arith in rw byte refl
style_round (background (Color.rgb r g b)) fuel rest a h =
    let red : r % 256 ≡ r = omega arith in
    let green : g % 256 ≡ g = omega arith in
    let blue : b % 256 ≡ b = omega arith in rw (red, green, blue) refl

some_codes : (s : Style) → 1 ≤ length (style_codes s)
some_codes (simple code) = omega arith
some_codes (foreground Color.default) = omega arith
some_codes (foreground (Color.indexed v)) = omega arith
some_codes (foreground (Color.rgb r g b)) = omega arith
some_codes (background Color.default) = omega arith
some_codes (background (Color.indexed v)) = omega arith
some_codes (background (Color.rgb r g b)) = omega arith

sgr_loop-codes :
    (styles : List Style) (fuel : ℕ) (a : Attrs)
    → All IsStyle styles
    → length (codes styles) ≤ fuel
    → sgr_loop fuel (codes styles) a ≡ apply_styles styles a
sgr_loop-codes [] zero a h enough = unfold sgr_loop in refl
sgr_loop-codes [] (suc fuel) a h enough = unfold sgr_loop in refl
sgr_loop-codes (s ∷ styles) zero a h enough =
    absurd (omega (arith, some_codes s, length-append (style_codes s) (codes styles)))
sgr_loop-codes (s ∷ styles) (suc fuel) a h enough =
    style_round s fuel (codes styles) a h.0
    ∙ sgr_loop-codes styles fuel (apply_style s a) h.1
        (omega (arith, some_codes s, length-append (style_codes s) (codes styles)))

sgr-loop :
    (params : List ℕ) (t : Terminal)
    → 1 ≤ length params
    → sgr t params ≡ set_attrs t (sgr_loop (length params) params t.cursor.attrs)
unfolding sgr
sgr-loop [] t h = absurd (omega arith)
sgr-loop (code ∷ rest) t h = refl

-- A control sequence with the codes of any styles, at least one, gives the cursor exactly these
-- styles, one after the other, if the codes that stand alone are not 38 or 48 and the parts of the
-- colours are bytes: a palette or RGB colour takes its own parameters and no others, and nothing but
-- the cursor's attributes changes.
pub sgr-styles :
    (t : Terminal) (styles : List Style)
    → 1 ≤ length styles
    → All IsStyle styles
    → sgr t (codes styles) ≡ set_attrs t (apply_styles styles t.cursor.attrs)
sgr-styles t [] some_styles h = absurd (omega arith)
sgr-styles t (s ∷ styles) some_styles h =
    let longer = length-append (style_codes s) (codes styles) in
    sgr-loop (codes (s ∷ styles)) t (omega (arith, some_codes s, longer))
    ∙ ap (set_attrs t) (sgr_loop-codes (s ∷ styles) _ t.cursor.attrs h (omega arith))

take_rgb-shrinks : (params : List ℕ) → length (take_rgb params).1 ≤ length params
take_rgb-shrinks [] = omega arith
take_rgb-shrinks (r ∷ []) = omega arith
take_rgb-shrinks (r ∷ g ∷ []) = omega arith
take_rgb-shrinks (r ∷ g ∷ b ∷ rest) = omega arith

take_indexed-shrinks : (params : List ℕ) → length (take_indexed params).1 ≤ length params
take_indexed-shrinks [] = omega arith
take_indexed-shrinks (v ∷ rest) = omega arith

take_extended_color-shrinks :
    (params : List ℕ) → length (take_extended_color params).1 ≤ length params
unfolding take_extended_color
take_extended_color-shrinks [] = omega arith
take_extended_color-shrinks (kind ∷ rest) = elim (Bool-cases (kind == 5)) [
  | inl palette ↦ rw palette (omega (arith, take_indexed-shrinks rest))
  | inr other ↦ elim (Bool-cases (kind == 2)) [
    | inl direct ↦ rw (other, direct) (omega (arith, take_rgb-shrinks rest))
    | inr unknown ↦ rw (other, unknown) (omega arith)
  ]
]

sgr_step-shrinks :
    (code : ℕ) (rest : List ℕ) (a : Attrs) → length (sgr_step code rest a).1 ≤ length rest
unfolding sgr_step
sgr_step-shrinks code rest a = elim (Bool-cases (code == 38)) [
  | inl text ↦ rw text (take_extended_color-shrinks rest)
  | inr other ↦ elim (Bool-cases (code == 48)) [
    | inl behind ↦ rw (other, behind) (take_extended_color-shrinks rest)
    | inr alone ↦ rw (other, alone) (omega arith)
  ]
]

-- As many rounds as there are parameters are enough for the loop of `sgr`, whatever the parameters:
-- any two numbers of rounds that are at least that give the same attributes.
pub sgr_loop-enough :
    (fuel more : ℕ) (params : List ℕ) (a : Attrs)
    → length params ≤ fuel
    → length params ≤ more
    → sgr_loop fuel params a ≡ sgr_loop more params a
unfolding sgr_loop
sgr_loop-enough zero zero params a h k = refl
sgr_loop-enough zero (suc more) [] a h k = refl
sgr_loop-enough zero (suc more) (code ∷ rest) a h k = absurd (omega arith)
sgr_loop-enough (suc fuel) zero [] a h k = refl
sgr_loop-enough (suc fuel) zero (code ∷ rest) a h k = absurd (omega arith)
sgr_loop-enough (suc fuel) (suc more) [] a h k = refl
sgr_loop-enough (suc fuel) (suc more) (code ∷ rest) a h k =
    let shorter = sgr_step-shrinks code rest a in
    sgr_loop-enough fuel more (sgr_step code rest a).1 (sgr_step code rest a).0
      (omega (arith, shorter)) (omega (arith, shorter))
