-- ===== src/Cio/Screen.antt =====
-- cio.c: output to the screen, which is copied to the serial line (CIO_DUP2_SIO).
--
-- Video memory is a function from the number of a cell, VIDEO_ADDR's y * 80 + x, to its 16 bits.
pub mod Cursor
pub mod Printf
pub mod Region
pub mod Room
pub mod Scrolling
use Prim.Native.Nat.{bit_and, bit_or}
use os.Base.{
  ℕ, zero, suc, ◌+◌, ◌-◌, ◌*◌, ◌%◌, Bool, true, false, not, ◌&&◌, ◌||◌, List, [], ◌∷◌, ltb, leb,
  ◌==◌, if◌then◌else◌,
}
use os.Klib.Blocks.{bound}
use os.Klib.Numbers.{u32_mod, cvthex}
use os.Klib.Strings.{padstr}
use os.Sio.{Sio, sio_writec, sio_write}

abbrev pub screen_x_size : ℕ
screen_x_size = 80

abbrev pub screen_y_size : ℕ
screen_y_size = 25

abbrev pub vga_default : ℕ
vga_default = 0x0700

pub record Screen : Type 0 where
  pub scroll_min_x : ℕ
  pub scroll_min_y : ℕ
  pub scroll_max_x : ℕ
  pub scroll_max_y : ℕ
  pub curr_x : ℕ
  pub curr_y : ℕ
  pub min_x : ℕ
  pub min_y : ℕ
  pub max_x : ℕ
  pub max_y : ℕ
  pub video : ℕ → ℕ
  pub sio : Sio

-- VIDEO_ADDR, as the number of the cell.
abbrev pub video_addr : ℕ → ℕ → ℕ
video_addr x y = y * screen_x_size + x

abbrev pub poke : (ℕ → ℕ) → ℕ → ℕ → ℕ → ℕ
poke video a v b = if b == a then v else video b

-- The screen part of putchar_at, and the character that its second part sees.
pub show : ℕ → ℕ → ℕ → Screen → ℕ × Screen
show x y c s =
    let low = c % 0x1_0000 in
    if leb x s.max_x && leb y s.max_y
    then (
      low,
      record s {
        video =
            poke s.video (video_addr x y) (if ltb 0xff low then low else bit_or low vga_default);
      },
    )
    else (c, s)

-- ISPRINT
pub is_print : ℕ → Bool
is_print c = (leb b' ' c && ltb c 0x7f) || ((c == b'\n') || (c == b'\t'))

abbrev element : List ℕ → ℕ → ℕ
element [] i = 0
element (c ∷ cs) zero = c
element (c ∷ cs) (suc i) = element cs i

-- The copy to the serial line: the character, or "\x" and two hexadecimal digits.
pub duplicate : ℕ → Sio → Sio
unfolding is_print
duplicate c sio =
    if is_print c
    then sio_writec (c % 256) sio
    else (sio_write (element (b'\\' ∷ b'x' ∷ padstr (cvthex (c % 256)) 2 false b'0')) 4 sio).1

pub putchar_at : ℕ → ℕ → ℕ → Screen → Screen
unfolding show duplicate
putchar_at x y c s =
    let (c', s') = show x y c s in
    if ltb x s'.scroll_min_x
      || (ltb s'.scroll_max_x x || (ltb y s'.scroll_min_y || ltb s'.scroll_max_y y))
    then s'
    else record s' { sio = duplicate c' s'.sio }

pub cio_setscroll : ℕ → ℕ → ℕ → ℕ → Screen → Screen
cio_setscroll s_min_x s_min_y s_max_x s_max_y s =
    let low_x = bound s.min_x s_min_x s.max_x in
    let low_y = bound s.min_y s_min_y s.max_y in
    record s {
      scroll_min_x = low_x;
      scroll_min_y = low_y;
      scroll_max_x = bound low_x s_max_x s.max_x;
      scroll_max_y = bound low_y s_max_y s.max_y;
      curr_x = low_x;
      curr_y = low_y;
    }

pub cio_moveto : ℕ → ℕ → Screen → Screen
cio_moveto x y s = record s {
  curr_x = bound s.scroll_min_x ((x + s.scroll_min_x) % u32_mod) s.scroll_max_x;
  curr_y = bound s.scroll_min_y ((y + s.scroll_min_y) % u32_mod) s.scroll_max_y;
}

-- `putchar_at( x, y, ' ' ); x += 1;` so many times.
pub blank_from : ℕ → ℕ → ℕ → Screen → Screen
unfolding putchar_at
blank_from zero x y s = s
blank_from (suc n) x y s = blank_from n (x + 1) y (putchar_at x y b' ' s)

-- The limit is the last column that is blanked.
pub cio_putchar_at : ℕ → ℕ → ℕ → Screen → Screen
unfolding blank_from putchar_at
cio_putchar_at x y c s =
    let limit =
      if ltb s.scroll_max_x x
      then s.max_x
      else if leb s.scroll_min_x x
      then s.scroll_max_x
      else s.scroll_min_x - 1 in
    if bit_and c 0x7f == b'\n' then blank_from (limit + 1 - x) x y s else putchar_at x y c s

-- One row of cio_clearscroll and of cio_scroll's second loop.
pub clear_row : ℕ → ℕ → (ℕ → ℕ) → ℕ → ℕ
clear_row zero to video = video
clear_row (suc n) to video = clear_row n (to + 1) (poke video to (bit_or b' ' vga_default))

-- `rows` rows from the row `l` on.
pub clear_rows : ℕ → ℕ → Screen → Screen
unfolding clear_row
clear_rows zero l s = s
clear_rows (suc rows) l s = clear_rows rows (l + 1) (record s {
  video = clear_row (s.scroll_max_x + 1 - s.scroll_min_x) (video_addr s.scroll_min_x l) s.video;
})

pub cio_clearscroll : Screen → Screen
unfolding clear_rows
cio_clearscroll s = clear_rows (s.scroll_max_y + 1 - s.scroll_min_y) s.scroll_min_y s

pub cio_clearscreen : Screen → Screen
unfolding clear_row
cio_clearscreen s = record s {
  video =
      clear_row ((s.max_y + 1 - s.min_y) * (s.max_x + 1 - s.min_x)) (video_addr s.min_x s.min_y)
        s.video;
}

-- `*to++ = *from++` so many times.
pub copy_row : ℕ → ℕ → ℕ → (ℕ → ℕ) → ℕ → ℕ
copy_row zero from to video = video
copy_row (suc n) from to video = copy_row n (from + 1) (to + 1) (poke video to (video from))

pub copy_rows : ℕ → ℕ → ℕ → Screen → Screen
unfolding copy_row
copy_rows zero lines line s = s
copy_rows (suc rows) lines line s = copy_rows rows lines (line + 1) (record s {
  video =
      copy_row (s.scroll_max_x + 1 - s.scroll_min_x) (video_addr s.scroll_min_x (line + lines))
        (video_addr s.scroll_min_x line) s.video;
})

pub cio_scroll : ℕ → Screen → Screen
unfolding cio_clearscroll copy_rows clear_rows
cio_scroll lines s =
    if ltb (s.scroll_max_y - s.scroll_min_y) lines
    then (let s' = cio_clearscroll s in
        record s' { curr_x = s'.scroll_min_x; curr_y = s'.scroll_min_y })
    else (let kept = s.scroll_max_y - lines + 1 - s.scroll_min_y in
        clear_rows lines (s.scroll_min_y + kept) (copy_rows kept lines s.scroll_min_y s))

-- The first part of cio_putchar.
pub make_room : Screen → Screen
unfolding cio_scroll
make_room s =
    if ltb s.scroll_max_y s.curr_y
    then record (cio_scroll (s.curr_y - s.scroll_max_y) s) { curr_y = s.scroll_max_y }
    else s

-- The cursor after a character.
pub advance : Screen → Screen
advance s =
    if ltb s.scroll_max_x (s.curr_x + 1)
    then record s { curr_x = s.scroll_min_x; curr_y = s.curr_y + 1 }
    else record s { curr_x = s.curr_x + 1 }

-- cio_putchar when there is room.
pub put : ℕ → Screen → Screen
unfolding blank_from advance putchar_at
put c s =
    if c % 256 == b'\n'
    then record (blank_from (s.scroll_max_x + 1 - s.curr_x) s.curr_x s.curr_y s) {
      curr_x = s.scroll_min_x;
      curr_y = s.curr_y + 1;
    }
    else if c % 256 == b'\r'
    then record s { curr_x = s.scroll_min_x }
    else advance (putchar_at s.curr_x s.curr_y c s)

pub cio_putchar : ℕ → Screen → Screen
unfolding make_room put
cio_putchar c s = put c (make_room s)

-- The characters of a text. A char with its top bit set is an unsigned int that is extended.
abbrev pub extend : ℕ → ℕ
extend c = if ltb c 128 then c else u32_mod - 256 + c

pub cio_puts : List ℕ → Screen → Screen
unfolding cio_putchar
cio_puts [] s = s
cio_puts (ch ∷ str) s = cio_puts str (cio_putchar (extend ch) s)

-- `buf` holds `length` characters.
pub cio_write : List ℕ → Screen → Screen
unfolding cio_puts
cio_write buf s = cio_puts buf s

pub cio_puts_at : ℕ → ℕ → List ℕ → Screen → Screen
unfolding cio_putchar_at
cio_puts_at x y [] s = s
cio_puts_at x y (ch ∷ str) s =
    let rest = cio_puts_at (x + 1) y str (cio_putchar_at x y (extend ch) s) in
    if leb x s.max_x then rest else s

-- The variables that cio_init sets.
pub cio_init : (ℕ → ℕ) → Sio → Screen
cio_init video sio = record {
  scroll_min_x = 0;
  scroll_min_y = 0;
  scroll_max_x = screen_x_size - 1;
  scroll_max_y = screen_y_size - 1;
  curr_x = 0;
  curr_y = 0;
  min_x = 0;
  min_y = 0;
  max_x = screen_x_size - 1;
  max_y = screen_y_size - 1;
  video = video;
  sio = sio;
}
