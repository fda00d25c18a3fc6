-- ===== src/Rdp/Framebuffer/Tests.antt =====
-- The picture at concrete inputs.
use remote_desktop_tool.Prelude.{ℕ, ◌≡◌, refl, arith, List, [], ◌∷◌, some}
use remote_desktop_tool.Rdp.Framebuffer.Rect.{DamageRect, is_empty, clamped}
use remote_desktop_tool.Rdp.Framebuffer.{Framebuffer, new, blit}
use remote_desktop_tool.Rdp.Framebuffer.Valid.{IsValid}
use remote_desktop_tool.Rdp.Framebuffer.Runs.{
  resized, blitted, filled, taken, perform_all, new-IsValid, perform_all-IsValid,
}
use remote_desktop_tool.Rdp.Framebuffer.Blit.{Painted, blit-Painted}

abbrev tiny : Framebuffer
tiny = new 2 1

abbrev corner : DamageRect
corner = record { left = 1; top = 0; width = 1; height = 1 }

-- A rectangle to the right of the picture.
abbrev beyond : DamageRect
beyond = record { left = 5; top = 0; width = 3; height = 1 }

abbrev pixel : List ℕ
pixel = 1 ∷ 2 ∷ 3 ∷ 4 ∷ []

blit-Painted_example :
    (c : Framebuffer) × (blit tiny corner pixel ≡ some c) × Painted tiny corner pixel 1 c.pixels
unfolding new is_empty
blit-Painted_example =
    blit-Painted tiny corner pixel (new-IsValid 2 1 (omega arith))
      (record { right = omega arith; bottom = omega arith }) refl (omega arith)

-- A rectangle that lies wholly outside is not dropped: it is moved to the last column.
moved_inside : clamped beyond 2 1 ≡ corner
unfolding clamped
moved_inside = refl

perform_all-IsValid_example :
    (c : Framebuffer) × (perform_all tiny
        (blitted beyond pixel ∷ resized 3 3 ∷ filled corner pixel ∷ taken ∷ [])
      ≡ some c)
    × IsValid c
perform_all-IsValid_example =
    perform_all-IsValid (blitted beyond pixel ∷ resized 3 3 ∷ filled corner pixel ∷ taken ∷ []) tiny
      (new-IsValid 2 1 (omega arith)) (tt, (omega arith, (refl, (tt, tt))))
