-- ===== src/Vga/Sprites/Shown.antt =====
-- From the back buffer to the screen, sprites and text.
use os.Base.{
  ℕ, zero, suc, ◌+◌, ◌*◌, ◌≤◌, ◌<◌, ◌≡◌, refl, sym, ap, ◌∙◌, Bool, true, false, ◌&&◌, Option, none,
  some, List, [], ◌∷◌, arith, ltb, leb, ◌==◌, if◌then◌else◌, Bool-cases, inl, inr,
}
use os.Vga.{
  ℤ, inc, width, height, vram_size, Buffer, Vga, store, put_pixel, draw_pixel, paint_row, paint,
  rounds, vga_draw_rect, vga_draw_rect_buf,
}
use os.Vga.Sprites.{
  clear_from, umemcpy, vga_render, vga_blit, sprite_pixel, draw_char, draw_text, vga_draw_string,
  glyph_pixel, font8x8_get, next_position,
}
use os.Vga.Paint.{covers, distance, pick, at, paint_lem}
use os.Vga.Outline.{in_rect, rect_lem, vga_draw_rect_buf_lem}

pub umemcpy_lem :
    (len i : ℕ) (source dest : Buffer) (b : ℕ)
    → umemcpy len i source dest b ≡ (if leb i b && ltb b (i + len) then source b else dest b)
unfolding umemcpy
umemcpy_lem zero i source dest b = ground arith
umemcpy_lem (suc len) i source dest b =
    umemcpy_lem len (i + 1) source (store dest i (source i)) b ∙ ground arith

pub clear_from_lem :
    (n i c : ℕ) (buf : Buffer) (b : ℕ)
    → clear_from n i c buf b ≡ (if leb i b && ltb b (i + n) then c else buf b)
unfolding clear_from
clear_from_lem zero i c buf b = ground arith
clear_from_lem (suc n) i c buf b = clear_from_lem n (i + 1) c (store buf i c) b ∙ ground arith

pub vga_render_lem : (v : Vga) (b : ℕ) → b < vram_size → (vga_render v).screen b ≡ v.back b
unfolding vga_render
vga_render_lem v b lt = umemcpy_lem vram_size 0 v.back v.screen b ∙ ground arith

-- Drawing a rectangle in the back buffer and then showing the buffer with vga_render is the same,
-- in each pixel of the screen, as showing the buffer and then drawing the rectangle on the screen
-- with vga_draw_rect.
pub vga_render-vga_draw_rect_buf :
    (qx qy : ℕ) (x y w h : ℤ) (c : ℕ) (filled : Bool) (v : Vga)
    → qx < width
    → qy < height
    → (vga_render (vga_draw_rect_buf x y w h c filled v)).screen (at qx qy)
      ≡ (vga_draw_rect x y w h c filled (vga_render v)).screen (at qx qy)
unfolding vga_draw_rect
vga_render-vga_draw_rect_buf qx qy x y w h c filled v right low =
    vga_render_lem (vga_draw_rect_buf x y w h c filled v) (at qx qy) (omega arith)
    ∙ (vga_draw_rect_buf_lem qx qy x y w h c filled v right low).0
    ∙ ap (λ old. if in_rect qx qy x y w h filled then c else old)
        (sym (vga_render_lem v (at qx qy) (omega arith)))
    ∙ sym (rect_lem qx qy right low x y w h c filled (vga_render v).screen)

-- After vga_blit of a sprite of `w` by `h` pixels at `x0`, `y0`, each pixel of the screen's 320 by
-- 200 has, in the back buffer, the color of the sprite's pixel at that place, if there is one and it
-- is not the transparent color, and else the color it had; a sprite that is partly off the screen
-- is clipped at each of its sides.
pub vga_blit_lem :
    (qx qy : ℕ) (sprite : ℕ → ℕ) (w h x0 y0 : ℤ) (transparent : ℕ) (v : Vga)
    → qx < width
    → qy < height
    → (vga_blit sprite w h x0 y0 transparent v).back (at qx qy) ≡ (
        if covers x0 (rounds w) qx && covers y0 (rounds h) qy
        then pick
            (sprite_pixel sprite (rounds w) transparent (distance y0 qy) (distance x0 qx))
            (v.back (at qx qy))
        else v.back (at qx qy))
unfolding vga_blit
vga_blit_lem qx qy sprite w h x0 y0 transparent v right low =
    paint_lem qx qy right low (sprite_pixel sprite (rounds w) transparent) (rounds h) (rounds w) 0
      x0 y0 v.back
    ∙ ap
        (λ k.
          if covers x0 (rounds w) qx && covers y0 (rounds h) qy
          then pick (sprite_pixel sprite (rounds w) transparent k (distance x0 qx))
              (v.back (at qx qy))
          else v.back (at qx qy))
        (omega arith)

-- Memory behind the screen's 64,000 pixels.
abbrev Behind : ℕ → Type 0
Behind b = width * height ≤ b

put_pixel-Behind :
    (x y : ℤ) (c : ℕ) (buf : Buffer) (b : ℕ) → Behind b → put_pixel x y c buf b ≡ buf b
unfolding put_pixel
put_pixel-Behind (ℤ.negsuc a) y c buf b far = refl
put_pixel-Behind (ℤ.pos a) (ℤ.negsuc d) c buf b far = elim (Bool-cases (ltb a width)) [
  | inl e ↦ rw e
  | inr e ↦ rw e
]
put_pixel-Behind (ℤ.pos a) (ℤ.pos d) c buf b far = elim (Bool-cases (ltb a width)) [
  | inr e ↦ rw e
  | inl e ↦ elim (Bool-cases (ltb d height)) [
    | inl f ↦ rw (e, f) (ground arith)
    | inr f ↦ rw (e, f)
  ]
]

draw_pixel-Behind :
    (p : Option ℕ) (x y : ℤ) (buf : Buffer) (b : ℕ) → Behind b → draw_pixel p x y buf b ≡ buf b
unfolding draw_pixel
draw_pixel-Behind none x y buf b far = refl
draw_pixel-Behind (some c) x y buf b far = put_pixel-Behind x y c buf b far

paint_row-Behind :
    (picture : ℕ → Option ℕ) (n i : ℕ) (x y : ℤ) (buf : Buffer) (b : ℕ)
    → Behind b
    → paint_row picture n i x y buf b ≡ buf b
unfolding paint_row
paint_row-Behind picture zero i x y buf b far = refl
paint_row-Behind picture (suc n) i x y buf b far =
    paint_row-Behind picture n (i + 1) (inc x) y _ b far
    ∙ draw_pixel-Behind (picture i) x y buf b far

paint-Behind :
    (picture : ℕ → ℕ → Option ℕ) (h w j : ℕ) (x y : ℤ) (buf : Buffer) (b : ℕ)
    → Behind b
    → paint picture h w j x y buf b ≡ buf b
unfolding paint
paint-Behind picture zero w j x y buf b far = refl
paint-Behind picture (suc h) w j x y buf b far =
    paint-Behind picture h w (j + 1) x (inc y) _ b far
    ∙ paint_row-Behind (picture j) w 0 x y buf b far

char_Behind :
    (newline : Bool) (x y : ℤ) (ch c : ℕ) (buf : Buffer) (b : ℕ)
    → Behind b
    → (if newline then buf else draw_char x y ch c buf) b ≡ buf b
unfolding draw_char
char_Behind true x y ch c buf b far = refl
char_Behind false x y ch c buf b far =
    paint-Behind (glyph_pixel (font8x8_get ch) c) 8 8 0 x y buf b far

draw_text-Behind :
    (x cx cy : ℤ) (str : List ℕ) (c : ℕ) (buf : Buffer) (b : ℕ)
    → Behind b
    → draw_text x cx cy str c buf b ≡ buf b
unfolding draw_text
draw_text-Behind x cx cy [] c buf b far = refl
draw_text-Behind x cx cy (ch ∷ str) c buf b far =
    draw_text-Behind x (next_position x cx cy ch).0 (next_position x cx cy ch).1 str c _ b far
    ∙ char_Behind (ch == 10) cx cy ch c buf b far

-- Whatever their coordinates and sizes are, vga_blit and vga_draw_string write to nothing behind the
-- 64,000 pixels of the back buffer, and leave the screen as it is.
pub drawing_stays_inside :
    (sprite : ℕ → ℕ) (w h x y : ℤ) (transparent : ℕ) (str : List ℕ) (c : ℕ) (v : Vga) (b : ℕ)
    → width * height ≤ b
    → ((vga_blit sprite w h x y transparent v).back b ≡ v.back b)
      × ((vga_draw_string x y str c v).back b ≡ v.back b)
      × ((vga_blit sprite w h x y transparent v).screen ≡ v.screen)
      × ((vga_draw_string x y str c v).screen ≡ v.screen)
unfolding vga_blit vga_draw_string
drawing_stays_inside sprite w h x y transparent str c v b far = (
  paint-Behind (sprite_pixel sprite (rounds w) transparent) (rounds h) (rounds w) 0 x y v.back b
      far,
  draw_text-Behind x x y str c v.back b far,
  refl,
  refl,
)
