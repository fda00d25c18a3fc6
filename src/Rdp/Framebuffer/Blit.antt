-- ===== src/Rdp/Framebuffer/Blit.antt =====
-- Which bytes of the picture `blit` of crates/rdt-rdp/src/framebuffer.rs changes, and to what.
use remote_desktop_tool.Prelude.{
  ℕ, suc, ◌+◌, ◌*◌, ◌≤◌, ◌<◌, ◌≡◌, ◌⊎◌, refl, ◌∙◌, inl, inr, arith, Bool-cases, false, List, some,
  ltb, length, get_elem?, Ensures-some,
}
use remote_desktop_tool.Rdp.Framebuffer.Rect.{DamageRect, is_empty}
use remote_desktop_tool.Rdp.Framebuffer.Rect.Laws.{Inside, clamped-same}
use remote_desktop_tool.Rdp.Framebuffer.Bytes.{overlay_at}
use remote_desktop_tool.Rdp.Framebuffer.Bytes.Laws.{
  length-slice, length-overlay_at, get_elem?-slice, overlay_at-in, overlay_at-out,
  for_rows_from-Ensures,
}
use remote_desktop_tool.Rdp.Framebuffer.{Framebuffer, area, mark_dirty, blit_row, blit}
use remote_desktop_tool.Rdp.Framebuffer.Valid.{
  IsValid, mul_mono, row_bytes, row_at, row_end, row_at-end, blit_row-copy, some_width, area-same,
}

module _ (b : Framebuffer) (rect : DamageRect) (bitmap : List ℕ) where
  -- The byte is in none of the first rows of the rectangle.
  abbrev pub Outside : ℕ → ℕ → Type 0
  Outside rows j =
      (row : ℕ)
      → row < rows
      → (j < row_at b.width rect row) ⊎ (row_at b.width rect row + rect.width * 4 ≤ j)

  -- The first rows of the rectangle have the bitmap's bytes, and all else is as it was.
  abbrev pub Painted : ℕ → List ℕ → Type 0
  Painted rows pixels =
      (length pixels ≡ length b.pixels)
      × ((row i : ℕ)
          → row < rows
          → i < rect.width * 4
          → get_elem? pixels (row_at b.width rect row + i)
            ≡ get_elem? bitmap (row * rect.width * 4 + i))
      × ((j : ℕ) → Outside rows j → get_elem? pixels j ≡ get_elem? b.pixels j)

  -- An earlier row ends before a later one begins.
  rows_apart :
      (row later i : ℕ)
      → Inside b.width b.height rect
      → row < later
      → i < rect.width * 4
      → row_at b.width rect row + i < row_at b.width rect later
  rows_apart row later i inside lt hi = omega (
    arith,
    mul_mono (suc (rect.top + row)) (rect.top + later) b.width (omega arith),
    inside.right,
  )

  paint_row :
      (r : ℕ) (pixels : List ℕ)
      → IsValid b
      → Inside b.width b.height rect
      → rect.width * rect.height * 4 ≤ length bitmap
      → r < rect.height
      → Painted r pixels
      → Painted (suc r) (overlay_at (row_at b.width rect r) pixels (row_bytes rect bitmap r))
  paint_row r pixels v inside enough lt (same, before, outside) =
      let source = row_bytes rect bitmap r in
      let at = row_at b.width rect r in
      let fits : r * rect.width * 4 + rect.width * 4 ≤ length bitmap =
        omega (arith, row_end rect r lt) in
      let long = length-slice bitmap (r * rect.width * 4) (rect.width * 4) fits in
      let room : at + length source ≤ length pixels =
        omega (arith, row_at-end b.width b.height rect r inside lt, v.full) in
      (
        length-overlay_at at pixels source ∙ same,
        λ row i below hi. elim (Bool-cases (ltb row r)) [
          | inl earlier ↦
              overlay_at-out at pixels source (row_at b.width rect row + i)
                (inl (rows_apart row r i inside (ground arith) hi))
              ∙ before row i (ground arith) hi
          | inr last ↦
              let this : row ≡ r = ground arith in
              rw this (
                overlay_at-in at pixels source (at + i) i refl (omega (arith, long)) room
                ∙ get_elem?-slice bitmap (r * rect.width * 4) (rect.width * 4) i hi)
        ],
        λ j out.
            overlay_at-out at pixels source j (away (out r (omega arith)) long)
            ∙ outside j (λ row below. out row (omega arith)),
      )
    where
      away :
          {at size count j : ℕ}
          → (j < at) ⊎ (at + size ≤ j)
          → count ≡ size
          → (j < at) ⊎ (at + count ≤ j)
      away (inl h) e = inl h
      away (inr h) e = inr (omega arith)

  -- A bitmap with all the bytes of a rectangle that is not empty and lies in a valid picture is copied there: the bytes
  -- of the rectangle's rows are then those of the bitmap, row by row, and every other byte of the
  -- picture is as it was.
  pub blit-Painted :
      IsValid b
      → Inside b.width b.height rect
      → is_empty rect ≡ false
      → rect.width * rect.height * 4 ≤ length bitmap
      → (c : Framebuffer) × (blit b rect bitmap ≡ some c) × Painted rect.height c.pixels
  unfolding blit mark_dirty
  blit-Painted v inside something enough =
      let enough_area : ltb (length bitmap) (area rect.width rect.height) ≡ false =
        ground (arith, area-same b rect v inside) in
      let (pixels, done, painted) = Ensures-some (Painted rect.height) _ (
        for_rows_from-Ensures Painted (blit_row b.width rect bitmap) rect.height rect.height 0
          b.pixels (omega arith)
          (λ r p lt h.
            rw (blit_row-copy b rect bitmap r p v inside (some_width rect something) enough lt h.0)
              (paint_row r p v inside enough lt h))
          (refl, λ row i lt hi. absurd (omega arith), λ j out. refl)) in
      (
        mark_dirty (record b { pixels = pixels }) rect,
        rw (clamped-same rect b.width b.height inside something)
            (rw (something, enough_area) (rw done refl)),
        painted,
      )
