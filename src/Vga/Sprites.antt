-- ===== src/Vga/Sprites.antt =====
-- vga_graphics.c: the back buffer as a whole, sprites and text; include/vga/font8x8.h and the user
-- library's umemcpy.
pub mod Shown
use os.Base.{
  ℕ, zero, suc, ◌+◌, ◌-◌, ◌*◌, ◌/◌, ◌%◌, ◌^◌, Bool, false, Option, none, some, List, [], ◌∷◌, ltb,
  leb, ◌==◌, if◌then◌else◌,
}
use os.Vga.{ℤ, Vga, Buffer, add, store, paint, rounds, width, vram_size}

-- The loop of vga_clear_buf from index `i`, for the rounds that are left.
pub clear_from : ℕ → ℕ → ℕ → Buffer → Buffer
clear_from zero i color buf = buf
clear_from (suc n) i color buf = clear_from n (i + 1) color (store buf i color)

pub vga_clear_buf : ℕ → Vga → Vga
unfolding clear_from
vga_clear_buf color v = record v { back = clear_from vram_size 0 color v.back }

-- The loop of umemcpy between two arrays, from index `i` for the bytes that are left.
pub umemcpy : ℕ → ℕ → Buffer → Buffer → Buffer
umemcpy zero i source dest = dest
umemcpy (suc len) i source dest = umemcpy len (i + 1) source (store dest i (source i))

pub vga_render : Vga → Vga
unfolding umemcpy
vga_render v = record v { screen = umemcpy vram_size 0 v.back v.screen }

-- The sprite's pixels but the transparent ones.
abbrev pub sprite_pixel : (ℕ → ℕ) → ℕ → ℕ → ℕ → ℕ → Option ℕ
sprite_pixel sprite w transparent j i =
    if sprite (j * w + i) == transparent then none else some (sprite (j * w + i))

pub vga_blit : (ℕ → ℕ) → ℤ → ℤ → ℤ → ℤ → ℕ → Vga → Vga
unfolding paint
vga_blit sprite w h x0 y0 transparent v = record v {
  back = paint (sprite_pixel sprite (rounds w) transparent) (rounds h) (rounds w) 0 x0 y0 v.back;
}

abbrev nth : ℕ → List (List ℕ) → List ℕ
nth n [] = []
nth zero (x ∷ xs) = x
nth (suc n) (x ∷ xs) = nth n xs

abbrev byte : ℕ → List ℕ → ℕ
byte n [] = 0
byte zero (x ∷ xs) = x
byte (suc n) (x ∷ xs) = byte n xs

-- The rows of '0' to '9', and of 'A' to 'Z'.
abbrev digits : List (List ℕ)
digits =
    (60 ∷ 102 ∷ 110 ∷ 118 ∷ 102 ∷ 102 ∷ 60 ∷ 0 ∷ [])
    ∷ (24 ∷ 56 ∷ 24 ∷ 24 ∷ 24 ∷ 24 ∷ 126 ∷ 0 ∷ [])
    ∷ (60 ∷ 102 ∷ 6 ∷ 28 ∷ 48 ∷ 96 ∷ 126 ∷ 0 ∷ [])
    ∷ (60 ∷ 102 ∷ 6 ∷ 28 ∷ 6 ∷ 102 ∷ 60 ∷ 0 ∷ [])
    ∷ (12 ∷ 28 ∷ 44 ∷ 76 ∷ 126 ∷ 12 ∷ 30 ∷ 0 ∷ [])
    ∷ (126 ∷ 96 ∷ 124 ∷ 6 ∷ 6 ∷ 102 ∷ 60 ∷ 0 ∷ [])
    ∷ (60 ∷ 96 ∷ 124 ∷ 102 ∷ 102 ∷ 102 ∷ 60 ∷ 0 ∷ [])
    ∷ (126 ∷ 6 ∷ 12 ∷ 24 ∷ 48 ∷ 48 ∷ 48 ∷ 0 ∷ [])
    ∷ (60 ∷ 102 ∷ 60 ∷ 102 ∷ 102 ∷ 102 ∷ 60 ∷ 0 ∷ [])
    ∷ (60 ∷ 102 ∷ 102 ∷ 62 ∷ 6 ∷ 12 ∷ 56 ∷ 0 ∷ [])
    ∷ []

abbrev letters : List (List ℕ)
letters =
    (60 ∷ 102 ∷ 102 ∷ 126 ∷ 102 ∷ 102 ∷ 102 ∷ 0 ∷ [])
    ∷ (124 ∷ 102 ∷ 102 ∷ 124 ∷ 102 ∷ 102 ∷ 124 ∷ 0 ∷ [])
    ∷ (60 ∷ 102 ∷ 96 ∷ 96 ∷ 96 ∷ 102 ∷ 60 ∷ 0 ∷ [])
    ∷ (120 ∷ 108 ∷ 102 ∷ 102 ∷ 102 ∷ 108 ∷ 120 ∷ 0 ∷ [])
    ∷ (126 ∷ 96 ∷ 96 ∷ 124 ∷ 96 ∷ 96 ∷ 126 ∷ 0 ∷ [])
    ∷ (126 ∷ 96 ∷ 96 ∷ 124 ∷ 96 ∷ 96 ∷ 96 ∷ 0 ∷ [])
    ∷ (60 ∷ 102 ∷ 96 ∷ 110 ∷ 102 ∷ 102 ∷ 60 ∷ 0 ∷ [])
    ∷ (102 ∷ 102 ∷ 102 ∷ 126 ∷ 102 ∷ 102 ∷ 102 ∷ 0 ∷ [])
    ∷ (60 ∷ 24 ∷ 24 ∷ 24 ∷ 24 ∷ 24 ∷ 60 ∷ 0 ∷ [])
    ∷ (30 ∷ 12 ∷ 12 ∷ 12 ∷ 12 ∷ 108 ∷ 56 ∷ 0 ∷ [])
    ∷ (102 ∷ 108 ∷ 120 ∷ 112 ∷ 120 ∷ 108 ∷ 102 ∷ 0 ∷ [])
    ∷ (96 ∷ 96 ∷ 96 ∷ 96 ∷ 96 ∷ 96 ∷ 126 ∷ 0 ∷ [])
    ∷ (99 ∷ 119 ∷ 127 ∷ 107 ∷ 99 ∷ 99 ∷ 99 ∷ 0 ∷ [])
    ∷ (102 ∷ 118 ∷ 126 ∷ 110 ∷ 102 ∷ 102 ∷ 102 ∷ 0 ∷ [])
    ∷ (60 ∷ 102 ∷ 102 ∷ 102 ∷ 102 ∷ 102 ∷ 60 ∷ 0 ∷ [])
    ∷ (124 ∷ 102 ∷ 102 ∷ 124 ∷ 96 ∷ 96 ∷ 96 ∷ 0 ∷ [])
    ∷ (60 ∷ 102 ∷ 102 ∷ 102 ∷ 110 ∷ 108 ∷ 54 ∷ 0 ∷ [])
    ∷ (124 ∷ 102 ∷ 102 ∷ 124 ∷ 120 ∷ 108 ∷ 102 ∷ 0 ∷ [])
    ∷ (60 ∷ 102 ∷ 48 ∷ 28 ∷ 6 ∷ 102 ∷ 60 ∷ 0 ∷ [])
    ∷ (126 ∷ 90 ∷ 24 ∷ 24 ∷ 24 ∷ 24 ∷ 60 ∷ 0 ∷ [])
    ∷ (102 ∷ 102 ∷ 102 ∷ 102 ∷ 102 ∷ 102 ∷ 60 ∷ 0 ∷ [])
    ∷ (102 ∷ 102 ∷ 102 ∷ 102 ∷ 102 ∷ 60 ∷ 24 ∷ 0 ∷ [])
    ∷ (99 ∷ 99 ∷ 99 ∷ 107 ∷ 127 ∷ 119 ∷ 99 ∷ 0 ∷ [])
    ∷ (99 ∷ 99 ∷ 54 ∷ 28 ∷ 28 ∷ 54 ∷ 99 ∷ 0 ∷ [])
    ∷ (102 ∷ 102 ∷ 102 ∷ 60 ∷ 24 ∷ 24 ∷ 60 ∷ 0 ∷ [])
    ∷ (126 ∷ 6 ∷ 12 ∷ 24 ∷ 48 ∷ 96 ∷ 126 ∷ 0 ∷ [])
    ∷ []

-- font8x8_basic; a character that is not filled in has zeros only.
abbrev font8x8_basic : ℕ → List ℕ
font8x8_basic c =
    if ltb c 48
    then []
    else if ltb c 58
    then nth (c - 48) digits
    else if ltb c 65
    then []
    else nth (c - 65) letters

abbrev pub font8x8_get : ℕ → List ℕ
font8x8_get c =
    let uc = if leb 97 c then if leb c 122 then c - 32 else c else c in
    if ltb uc 128 then font8x8_basic uc else font8x8_basic 0

-- The most significant bit of a row is its leftmost pixel.
abbrev pub glyph_pixel : List ℕ → ℕ → ℕ → ℕ → Option ℕ
glyph_pixel glyph color row col =
    if byte row glyph / 2 ^ (7 - col) % 2 == 1 then some color else none

pub draw_char : ℤ → ℤ → ℕ → ℕ → Buffer → Buffer
unfolding paint
draw_char x y c color buf = paint (glyph_pixel (font8x8_get c) color) 8 8 0 x y buf

pub vga_draw_char : ℤ → ℤ → ℕ → ℕ → Vga → Vga
unfolding draw_char
vga_draw_char x y c color v = record v { back = draw_char x y c color v.back }

-- `z + 8 > VGA_WIDTH`
abbrev over_right : ℤ → Bool
over_right (ℤ.pos n) = ltb width (n + 8)
over_right (ℤ.negsuc n) = false

-- The position behind a character; a newline leads to the next line's start.
abbrev pub next_position : ℤ → ℤ → ℤ → ℕ → ℤ × ℤ
next_position x cx cy c =
    if c == 10
    then (x, add 8 cy)
    else if over_right (add 8 cx)
    then (x, add 8 cy)
    else (add 8 cx, cy)

-- The loop of vga_draw_string over the characters before the NUL, from the position `cx`, `cy`.
pub draw_text : ℤ → ℤ → ℤ → List ℕ → ℕ → Buffer → Buffer
unfolding draw_char
draw_text x cx cy [] color buf = buf
draw_text x cx cy (c ∷ cs) color buf =
    let (nx, ny) = next_position x cx cy c in
    draw_text x nx ny cs color (if c == 10 then buf else draw_char cx cy c color buf)

pub vga_draw_string : ℤ → ℤ → List ℕ → ℕ → Vga → Vga
unfolding draw_text
vga_draw_string x y str color v = record v { back = draw_text x x y str color v.back }
