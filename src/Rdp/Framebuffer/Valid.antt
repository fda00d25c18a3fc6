-- ===== src/Rdp/Framebuffer/Valid.antt =====
-- No operation of crates/rdt-rdp/src/framebuffer.rs panics, and each keeps the picture's size.
use remote_desktop_tool.Prelude.{
  ℕ, zero, suc, ◌+◌, ◌*◌, ◌%◌, ◌^◌, ◌≤◌, ◌<◌, ◌≡◌, refl, ◌∙◌, inl, inr, arith, Bool-cases, false,
  ◌==◌, List, [], ◌∷◌, some, ltb, length, take, drop, All, Ensures, Ensures-bind, weaken-Ensures,
}
use remote_desktop_tool.Rdp.Framebuffer.Rect.{DamageRect, is_empty}
use remote_desktop_tool.Rdp.Framebuffer.Rect.Laws.{Inside, union-Inside}
use remote_desktop_tool.Rdp.Framebuffer.Bytes.{overlay_at, copy_into, for_rows_from}
use remote_desktop_tool.Rdp.Framebuffer.Bytes.Laws.{
  slice-some, length-slice, copy_into-some, copy_into-length, length-overlay_at,
  for_rows_from-Ensures,
}
use remote_desktop_tool.Rdp.Framebuffer.{
  Framebuffer, area, merge_last, mark_dirty, row_start, blit_row, blit_clamped, fill_columns,
  fill_row, fill_clamped,
}

-- The pixels fill the size, which a `u32` can count in bytes, and the damage lies inside.
pub record IsValid (b : Framebuffer) : Type 0 where
  pub width_pos : 1 ≤ b.width
  pub height_pos : 1 ≤ b.height
  pub small : b.width * b.height * 4 < 2 ^ 32
  pub full : length b.pixels ≡ b.width * b.height * 4
  pub damage_inside : All (Inside b.width b.height) b.damage

pub mul_mono : (a b w : ℕ) → a ≤ b → w * a ≤ w * b
mul_mono zero b w h = omega arith
mul_mono (suc a) zero w h = absurd (omega arith)
mul_mono (suc a) (suc b) w h = omega (arith, mul_mono a b w (omega arith))

-- The columns of a row end before the picture does.
pub row_inside :
    (width height y x count : ℕ)
    → y < height
    → x + count ≤ width
    → y * width + x + count ≤ width * height
row_inside width height y x count hy hx = omega (arith, mul_mono (suc y) height width (omega arith))

pub row_start-small :
    (width height : ℕ) (rect : DamageRect) (row : ℕ)
    → width * height * 4 < 2 ^ 32
    → Inside width height rect
    → row < rect.height
    → 1 ≤ rect.width
    → row_start width rect row ≡ ((rect.top + row) * width + rect.left) * 4
row_start-small width height rect row small inside lt some_width = omega (
  arith,
  inside.right,
  inside.bottom,
  row_inside width height (rect.top + row) rect.left rect.width (omega (arith, inside.bottom))
      inside.right,
)

merge_last-Inside :
    (width height : ℕ) (damage : List DamageRect) (rect : DamageRect)
    → width < 2 ^ 32
    → height < 2 ^ 32
    → Inside width height rect
    → All (Inside width height) damage
    → All (Inside width height) (merge_last damage rect)
merge_last-Inside width height [] rect sw sh h all = (h, tt)
merge_last-Inside width height (d ∷ []) rect sw sh h all =
    (union-Inside d rect width height sw sh all.0 h, tt)
merge_last-Inside width height (d ∷ e ∷ rest) rect sw sh h all =
    (all.0, merge_last-Inside width height (e ∷ rest) rect sw sh h all.1)

-- A side is no longer than the picture has bytes.
side_small : (width height : ℕ) → 1 ≤ height → width * height * 4 < 2 ^ 32 → width < 2 ^ 32
side_small width height some_height small = omega (arith, mul_mono 1 height width some_height)

other_small : (width height : ℕ) → 1 ≤ width → width * height * 4 < 2 ^ 32 → height < 2 ^ 32
other_small zero height some_width small = absurd (omega arith)
other_small (suc width) height some_width small = omega arith

-- New pixels of the same size and damage inside keep a picture valid.
repainted-IsValid :
    (b : Framebuffer) (pixels : List ℕ) (rect : DamageRect)
    → IsValid b
    → length pixels ≡ length b.pixels
    → Inside b.width b.height rect
    → IsValid (mark_dirty (record b { pixels = pixels }) rect)
unfolding mark_dirty
repainted-IsValid b pixels rect v e h = record {
  width_pos = v.width_pos;
  height_pos = v.height_pos;
  small = v.small;
  full = e ∙ v.full;
  damage_inside =
      merge_last-Inside b.width b.height b.damage rect
        (side_small b.width b.height v.height_pos v.small)
        (other_small b.width b.height v.width_pos v.small) h v.damage_inside;
}

-- A rectangle of the picture has no more pixels than the picture.
rect_small :
    (width height : ℕ) (rect : DamageRect)
    → Inside width height rect
    → rect.width * rect.height ≤ width * height
rect_small width height rect h = omega (
  arith,
  mul_mono rect.height height rect.width (omega (arith, h.bottom)),
  mul_mono rect.width width height (omega (arith, h.right)),
)

-- The bytes of a row of the bitmap, and where they go.
abbrev pub row_bytes : DamageRect → List ℕ → ℕ → List ℕ
row_bytes rect bitmap row = take (rect.width * 4) (drop (row * rect.width * 4) bitmap)

abbrev pub row_at : ℕ → DamageRect → ℕ → ℕ
row_at width rect row = ((rect.top + row) * width + rect.left) * 4

pub row_end :
    (rect : DamageRect) (row : ℕ)
    → row < rect.height
    → row * rect.width * 4 + rect.width * 4 ≤ rect.width * rect.height * 4
row_end rect row lt =
    omega (arith, row_inside rect.width rect.height row 0 rect.width lt (omega arith))

pub row_at-end :
    (width height : ℕ) (rect : DamageRect) (row : ℕ)
    → Inside width height rect
    → row < rect.height
    → row_at width rect row + rect.width * 4 ≤ width * height * 4
row_at-end width height rect row h lt = omega (
  arith,
  row_inside width height (rect.top + row) rect.left rect.width (omega (arith, h.bottom)) h.right,
)

-- A row of `blit` copies the bitmap's row to its place.
pub blit_row-copy :
    (b : Framebuffer) (rect : DamageRect) (bitmap : List ℕ) (row : ℕ) (pixels : List ℕ)
    → IsValid b
    → Inside b.width b.height rect
    → 1 ≤ rect.width
    → rect.width * rect.height * 4 ≤ length bitmap
    → row < rect.height
    → length pixels ≡ length b.pixels
    → blit_row b.width rect bitmap row pixels
      ≡ some (overlay_at (row_at b.width rect row) pixels (row_bytes rect bitmap row))
unfolding blit_row
blit_row-copy b rect bitmap row pixels v inside some_width enough lt same =
    let from : row * rect.width % 2 ^ 32 * 4 ≡ row * rect.width * 4 =
      omega (arith, row_end rect row lt, rect_small b.width b.height rect inside, v.small) in
    let at = row_start-small b.width b.height rect row v.small inside lt some_width in
    let fits : row * rect.width * 4 + rect.width * 4 ≤ length bitmap =
      omega (arith, row_end rect row lt) in
    rw (from, at, slice-some bitmap (row * rect.width * 4) (rect.width * 4) fits)
      (copy_into-some pixels (row_at b.width rect row) (row_bytes rect bitmap row) (
        omega (
          arith,
          length-slice bitmap (row * rect.width * 4) (rect.width * 4) fits,
          row_at-end b.width b.height rect row inside lt,
          v.full,
        )))

pub some_width : (rect : DamageRect) → is_empty rect ≡ false → 1 ≤ rect.width
unfolding is_empty
some_width rect something = ground arith

-- The bytes of a rectangle inside do not wrap.
pub area-same :
    (b : Framebuffer) (rect : DamageRect)
    → IsValid b
    → Inside b.width b.height rect
    → area rect.width rect.height ≡ rect.width * rect.height * 4
area-same b rect v inside = omega (arith, rect_small b.width b.height rect inside, v.small)

pub enough_bytes :
    (b : Framebuffer) (rect : DamageRect) (bitmap : List ℕ)
    → IsValid b
    → Inside b.width b.height rect
    → ltb (length bitmap) (area rect.width rect.height) ≡ false
    → rect.width * rect.height * 4 ≤ length bitmap
enough_bytes b rect bitmap v inside enough =
    let le : area rect.width rect.height ≤ length bitmap = ground arith in
    omega (arith, le, area-same b rect v inside)

-- The picture after an operation is valid, and has the size.
abbrev pub Keeps : ℕ → ℕ → Framebuffer → Type 0
Keeps width height c = IsValid c × (c.width ≡ width) × (c.height ≡ height)

pub blit_clamped-IsValid :
    (b : Framebuffer) (rect : DamageRect) (bitmap : List ℕ)
    → IsValid b
    → Inside b.width b.height rect
    → Ensures (Keeps b.width b.height) (blit_clamped b rect bitmap)
unfolding mark_dirty
blit_clamped-IsValid b rect bitmap v inside = elim (Bool-cases (is_empty rect)) [
  | inl nothing ↦ rw nothing (v, refl, refl)
  | inr something ↦ elim (Bool-cases (ltb (length bitmap) (area rect.width rect.height))) [
    | inl short ↦ rw (something, short) (v, refl, refl)
    | inr enough ↦
        rw (something, enough)
          (Ensures-bind (λ q. length q ≡ length b.pixels) _
            (for_rows_from 0 rect.height (blit_row b.width rect bitmap) b.pixels) _
            (for_rows_from-Ensures (λ r q. length q ≡ length b.pixels)
              (blit_row b.width rect bitmap) rect.height rect.height 0 b.pixels (omega arith)
              (λ r p lt e.
                rw
                  (blit_row-copy b rect bitmap r p v inside (some_width rect something)
                    (enough_bytes b rect bitmap v inside enough) lt e)
                  (length-overlay_at _ p _ ∙ e))
              refl)
            (λ q e. (repainted-IsValid b q rect v e inside, refl, refl)))
  ]
]

fill_columns-length :
    (start : ℕ) (bgra : List ℕ) (count : ℕ) (pixels : List ℕ)
    → length bgra ≡ 4
    → start + count * 4 ≤ length pixels
    → Ensures (λ q. length q ≡ length pixels) (fill_columns start bgra 0 count pixels)
unfolding fill_columns
fill_columns-length start bgra count pixels four fits =
    for_rows_from-Ensures (λ c q. length q ≡ length pixels)
      (λ c p. copy_into p (start + c * 4) bgra) count count 0 pixels (omega arith)
      (λ c p lt e.
        weaken-Ensures (λ q. length q ≡ length p) (λ q. length q ≡ length pixels)
          (copy_into p (start + c * 4) bgra) (λ q k. k ∙ e)
          (copy_into-length p (start + c * 4) bgra (omega (arith, four, fits, e, lt))))
      refl

fill_row-length :
    (b : Framebuffer) (rect : DamageRect) (bgra : List ℕ) (row : ℕ) (pixels : List ℕ)
    → IsValid b
    → Inside b.width b.height rect
    → length bgra ≡ 4
    → row < rect.height
    → length pixels ≡ length b.pixels
    → Ensures (λ q. length q ≡ length b.pixels) (fill_row b.width rect bgra row pixels)
unfolding fill_row
fill_row-length b rect bgra row pixels v inside four lt same = elim (Bool-cases (rect.width == 0)) [
  | inl none_there ↦
      let nothing : rect.width ≡ 0 = ground arith in
      rw nothing (unfold fill_columns for_rows_from in same)
  | inr some_there ↦
      let pos : 1 ≤ rect.width = ground arith in
      rw (row_start-small b.width b.height rect row v.small inside lt pos) (
        weaken-Ensures (λ q. length q ≡ length pixels) (λ q. length q ≡ length b.pixels) _
          (λ q k. k ∙ same)
          (fill_columns-length (row_at b.width rect row) bgra rect.width pixels four
            (omega (arith, row_at-end b.width b.height rect row inside lt, v.full, same))))
]

pub fill_clamped-IsValid :
    (b : Framebuffer) (rect : DamageRect) (bgra : List ℕ)
    → IsValid b
    → Inside b.width b.height rect
    → length bgra ≡ 4
    → Ensures (Keeps b.width b.height) (fill_clamped b rect bgra)
unfolding mark_dirty
fill_clamped-IsValid b rect bgra v inside four =
    Ensures-bind (λ q. length q ≡ length b.pixels) _
      (for_rows_from 0 rect.height (fill_row b.width rect bgra) b.pixels) _
      (for_rows_from-Ensures (λ r q. length q ≡ length b.pixels) (fill_row b.width rect bgra)
        rect.height rect.height 0 b.pixels (omega arith)
        (λ r p lt e. fill_row-length b rect bgra r p v inside four lt e) refl)
      (λ q e. (repainted-IsValid b q rect v e inside, refl, refl))
