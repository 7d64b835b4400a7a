-- ===== src/Vga/Tests.antt =====
-- vga_graphics.c on concrete pictures: its theorems applied.
use os.Base.{◌≡◌, true, false, [], ◌∷◌, arith}
use os.Vga.{ℤ, Vga, vga_draw_rect, vga_draw_rect_buf}
use os.Vga.Paint.{at}
use os.Vga.Outline.{vga_draw_rect_buf_lem}
use os.Vga.Sprites.{vga_render, vga_blit, vga_draw_string}
use os.Vga.Sprites.Shown.{vga_render-vga_draw_rect_buf, vga_blit_lem, drawing_stays_inside}

abbrev dark : Vga
dark = record { screen = λ b. 0; back = λ b. 1 }

-- The outline of 5 by 4 at -2, 3 goes through the pixel 2, 4.
vga_draw_rect_buf_lem_example :
    ((vga_draw_rect_buf (ℤ.negsuc 1) (ℤ.pos 3) (ℤ.pos 5) (ℤ.pos 4) 9 false dark).back (at 2 4) ≡ 9)
    × ((vga_draw_rect_buf (ℤ.negsuc 1) (ℤ.pos 3) (ℤ.pos 5) (ℤ.pos 4) 9 false dark).screen
        ≡ dark.screen)
vga_draw_rect_buf_lem_example =
    vga_draw_rect_buf_lem 2 4 (ℤ.negsuc 1) (ℤ.pos 3) (ℤ.pos 5) (ℤ.pos 4) 9 false dark (omega arith)
      (omega arith)

vga_render-vga_draw_rect_buf_example :
    (vga_render (vga_draw_rect_buf (ℤ.negsuc 1) (ℤ.pos 3) (ℤ.pos 5) (ℤ.pos 4) 9 true dark)).screen
      (at 2 4)
    ≡ (vga_draw_rect (ℤ.negsuc 1) (ℤ.pos 3) (ℤ.pos 5) (ℤ.pos 4) 9 true (vga_render dark)).screen
        (at 2 4)
vga_render-vga_draw_rect_buf_example =
    vga_render-vga_draw_rect_buf 2 4 (ℤ.negsuc 1) (ℤ.pos 3) (ℤ.pos 5) (ℤ.pos 4) 9 true dark
      (omega arith) (omega arith)

-- Of a sprite of 3 by 2 at -1, 0, whose pixels are 0 to 5, the pixel 1, 1 of the screen shows 5.
vga_blit_lem_example :
    (vga_blit (λ i. i) (ℤ.pos 3) (ℤ.pos 2) (ℤ.negsuc 0) (ℤ.pos 0) 0 dark).back (at 1 1) ≡ 5
vga_blit_lem_example =
    vga_blit_lem 1 1 (λ i. i) (ℤ.pos 3) (ℤ.pos 2) (ℤ.negsuc 0) (ℤ.pos 0) 0 dark (omega arith)
      (omega arith)

drawing_stays_inside_example :
    ((vga_blit (λ i. i) (ℤ.pos 3) (ℤ.pos 2) (ℤ.pos 319) (ℤ.pos 199) 0 dark).back 64000 ≡ 1)
    × ((vga_draw_string (ℤ.pos 319) (ℤ.pos 199) (65 ∷ []) 7 dark).back 64000 ≡ 1)
    × ((vga_blit (λ i. i) (ℤ.pos 3) (ℤ.pos 2) (ℤ.pos 319) (ℤ.pos 199) 0 dark).screen ≡ dark.screen)
    × ((vga_draw_string (ℤ.pos 319) (ℤ.pos 199) (65 ∷ []) 7 dark).screen ≡ dark.screen)
drawing_stays_inside_example =
    drawing_stays_inside (λ i. i) (ℤ.pos 3) (ℤ.pos 2) (ℤ.pos 319) (ℤ.pos 199) 0 (65 ∷ []) 7 dark
      64000 (omega arith)
