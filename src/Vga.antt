-- ===== src/Vga.antt =====
-- vga_graphics.c: drawing on the 320 by 200 screen and in the back buffer.
--
-- A buffer is an array of bytes; the screen's memory is one, the back buffer another. A coordinate
-- is an int of either sign, without overflow, and a loop runs as often as its bounds are apart.
mod Tests
pub mod Outline
pub mod Paint
pub mod Sprites
use os.Base.{
  ℕ, zero, suc, ◌+◌, ◌-◌, ◌*◌, ◌/◌, ◌%◌, ◌^◌, Bool, true, false, not, ◌||◌, Option, none, some,
  List, [], ◌∷◌, ltb, leb, ◌==◌, if◌then◌else◌,
}

-- An int.
pub data ℤ : Type 0 where
  pos : ℕ → ℤ
  negsuc : ℕ → ℤ

-- `z + 1`, `z - 1` and `z + n`
abbrev pub inc : ℤ → ℤ
inc (ℤ.pos n) = ℤ.pos (n + 1)
inc (ℤ.negsuc zero) = ℤ.pos 0
inc (ℤ.negsuc (suc n)) = ℤ.negsuc n

abbrev pub dec : ℤ → ℤ
dec (ℤ.pos zero) = ℤ.negsuc 0
dec (ℤ.pos (suc n)) = ℤ.pos n
dec (ℤ.negsuc n) = ℤ.negsuc (n + 1)

abbrev pub add : ℕ → ℤ → ℤ
add zero z = z
add (suc n) z = add n (inc z)

abbrev pub width : ℕ
width = 320

abbrev pub height : ℕ
height = 200

abbrev pub vram_size : ℕ
vram_size = 0x1_0000

abbrev pub Buffer : Type 0
Buffer = ℕ → ℕ

-- VGA_ADDRESS and vga_backbuffer
pub record Vga : Type 0 where
  pub screen : Buffer
  pub back : Buffer

abbrev pub store : Buffer → ℕ → ℕ → Buffer
store buf a color b = if b == a then color else buf b

-- The coordinate, if `0 <= z && z < limit`.
abbrev pub inside : ℕ → ℤ → Option ℕ
inside limit (ℤ.pos n) = if ltb n limit then some n else none
inside limit (ℤ.negsuc n) = none

abbrev pub store_at : Option ℕ → Option ℕ → ℕ → Buffer → Buffer
store_at none y color buf = buf
store_at (some x) none color buf = buf
store_at (some x) (some y) color buf = store buf (y * width + x) color

-- What vga_put_pixel does to the screen, and vga_put_pixel_buf to the back buffer.
unfoldable pub put_pixel : ℤ → ℤ → ℕ → Buffer → Buffer
put_pixel x y color buf = store_at (inside width x) (inside height y) color buf

unfoldable pub vga_put_pixel : ℤ → ℤ → ℕ → Vga → Vga
unfolding put_pixel
vga_put_pixel x y color v = record v { screen = put_pixel x y color v.screen }

unfoldable pub vga_put_pixel_buf : ℤ → ℤ → ℕ → Vga → Vga
unfolding put_pixel
vga_put_pixel_buf x y color v = record v { back = put_pixel x y color v.back }

-- A pixel of a picture, if it is drawn.
pub draw_pixel : Option ℕ → ℤ → ℤ → Buffer → Buffer
unfolding put_pixel
draw_pixel none x y buf = buf
draw_pixel (some c) x y buf = put_pixel x y c buf

-- A row of `n` pixels from column `i` of a picture on, at `x` and `y`: `picture` gives the color of
-- a pixel that is drawn.
pub paint_row : (ℕ → Option ℕ) → ℕ → ℕ → ℤ → ℤ → Buffer → Buffer
unfolding draw_pixel
paint_row picture zero i x y buf = buf
paint_row picture (suc n) i x y buf =
    paint_row picture n (i + 1) (inc x) y (draw_pixel (picture i) x y buf)

-- Rows of `w` pixels, from row `j` of the picture on.
pub paint : (ℕ → ℕ → Option ℕ) → ℕ → ℕ → ℕ → ℤ → ℤ → Buffer → Buffer
unfolding paint_row
paint picture zero w j x y buf = buf
paint picture (suc h) w j x y buf =
    paint picture h w (j + 1) x (inc y) (paint_row (picture j) w 0 x y buf)

-- How often `for( i = 0; i < n; ++i )` runs.
abbrev pub rounds : ℤ → ℕ
rounds (ℤ.pos n) = n
rounds (ℤ.negsuc n) = 0

pub vga_clear : ℕ → Vga → Vga
unfolding paint
vga_clear color v = record v {
  screen = paint (λ j i. some color) height width 0 (ℤ.pos 0) (ℤ.pos 0) v.screen;
}

-- The loops that draw the top and bottom edges, and the left and right ones.
pub across : ℕ → ℤ → ℤ → ℤ → ℕ → Buffer → Buffer
unfolding put_pixel
across zero x top bottom color buf = buf
across (suc n) x top bottom color buf =
    across n (inc x) top bottom color (put_pixel x bottom color (put_pixel x top color buf))

pub downward : ℕ → ℤ → ℤ → ℤ → ℕ → Buffer → Buffer
unfolding put_pixel
downward zero y left right color buf = buf
downward (suc n) y left right color buf =
    downward n (inc y) left right color (put_pixel right y color (put_pixel left y color buf))

abbrev sub : ℕ → ℤ → ℤ
sub zero z = z
sub (suc n) z = sub n (dec z)

-- `z + n - 1`, for an int `n`.
abbrev pub far_edge : ℤ → ℤ → ℤ
far_edge z (ℤ.pos n) = dec (add n z)
far_edge z (ℤ.negsuc n) = sub (n + 2) z

pub rect : ℤ → ℤ → ℤ → ℤ → ℕ → Bool → Buffer → Buffer
unfolding paint across downward
rect x y w h color true buf = paint (λ j i. some color) (rounds h) (rounds w) 0 x y buf
rect x y w h color false buf =
    downward (rounds h) y x (far_edge x w) color (across (rounds w) x y (far_edge y h) color buf)

pub vga_draw_rect : ℤ → ℤ → ℤ → ℤ → ℕ → Bool → Vga → Vga
unfolding rect
vga_draw_rect x y w h color filled v = record v { screen = rect x y w h color filled v.screen }

-- vga_draw_rect_buf's loops, which test the coordinates themselves and skip what is off the screen.
pub fill_row : ℕ → ℤ → ℕ → ℕ → Buffer → Buffer
fill_row zero x y color buf = buf
fill_row (suc n) x y color buf =
    fill_row n (inc x) y color
      (elim (inside width x) [ none ↦ buf | some px ↦ store buf (y * width + px) color ])

pub fill : ℕ → ℕ → ℤ → ℤ → ℕ → Buffer → Buffer
unfolding fill_row
fill zero w x y color buf = buf
fill (suc h) w x y color buf =
    fill h w x (inc y) color
      (elim (inside height y) [ none ↦ buf | some py ↦ fill_row w x py color buf ])

-- One of the two pixels of a round.
abbrev pub in_row : ℕ → ℤ → ℕ → Buffer → Buffer
in_row px y color buf = store_at (some px) (inside height y) color buf

abbrev pub in_column : ℕ → ℤ → ℕ → Buffer → Buffer
in_column py x color buf = store_at (inside width x) (some py) color buf

pub across_buf : ℕ → ℤ → ℤ → ℤ → ℕ → Buffer → Buffer
across_buf zero x top bottom color buf = buf
across_buf (suc n) x top bottom color buf =
    across_buf n (inc x) top bottom color (elim (inside width x) [
      | none ↦ buf
      | some px ↦ in_row px bottom color (in_row px top color buf)
    ])

pub downward_buf : ℕ → ℤ → ℤ → ℤ → ℕ → Buffer → Buffer
downward_buf zero y left right color buf = buf
downward_buf (suc n) y left right color buf =
    downward_buf n (inc y) left right color (elim (inside height y) [
      | none ↦ buf
      | some py ↦ in_column py right color (in_column py left color buf)
    ])

pub rect_buf : ℤ → ℤ → ℤ → ℤ → ℕ → Bool → Buffer → Buffer
unfolding fill across_buf downward_buf
rect_buf x y w h color true buf = fill (rounds h) (rounds w) x y color buf
rect_buf x y w h color false buf =
    downward_buf (rounds h) y x (far_edge x w) color
      (across_buf (rounds w) x y (far_edge y h) color buf)

pub vga_draw_rect_buf : ℤ → ℤ → ℤ → ℤ → ℕ → Bool → Vga → Vga
unfolding rect_buf
vga_draw_rect_buf x y w h color filled v = record v { back = rect_buf x y w h color filled v.back }
