-- ===== src/Cio/Tests.antt =====
-- cio.c on concrete states: the console's theorems applied.
use os.Klib.Strings.{sprint}
use os.Klib.Strings.Formats.{Piece, print, render}
use os.Cio.Screen.Printf.{cio_printf}
use os.Cio.Screen.Printf.Agrees.{cio_printf-print}
use os.Base.{
  ℕ, List, some, ◌+◌, ◌≡◌, ◌%◌, ◌↔◌, true, refl, false, [], ◌∷◌, arith, length, leb, if◌then◌else◌,
}
use os.Cio.Keyboard.{Keyboard, Console, key, input_scan_code, cio_input_queue, cio_kbhit, cio_gets}
use os.Cio.Keyboard.Lines.{IsValid, queue, enter, input_scan_code-queue}
use os.Cio.Keyboard.Reads.{GotLine, first_line, stream, cio_gets_lem}
use os.Cio.Screen.{Screen, video_addr, cio_puts, cio_scroll}
use os.Cio.Screen.Region.{Within}
use os.Cio.Screen.Room.{IsInside}
use os.Cio.Screen.Cursor.{cio_puts-IsInside}
use os.Cio.Screen.Scrolling.{blank, cio_scroll_lem}

-- A region of ten columns and four rows, with the cursor below its last row.
abbrev small : Screen
small = record {
  scroll_min_x = 10;
  scroll_min_y = 20;
  scroll_max_x = 19;
  scroll_max_y = 23;
  curr_x = 12;
  curr_y = 24;
  min_x = 0;
  min_y = 0;
  max_x = 79;
  max_y = 24;
  video = λ a. a;
  sio = record {
    inbuffer = λ i. 0;
    inlast = 0;
    innext = 0;
    incount = 0;
    outbuffer = λ i. 0;
    outlast = 0;
    outnext = 0;
    outcount = 0;
    sending = false;
    ier = 0;
    wire = [];
    enabled = 0;
  };
}

-- Two characters wait, one on each side of the end of the buffer.
abbrev pub typed_ahead : Keyboard
typed_ahead = record {
  input_buffer = λ i. 65 + i % 10;
  next_char = 199;
  next_space = 1;
  modifiers = record { shift = false; ctrl_mask = 0xff };
}

pub typed_ahead-IsValid : IsValid typed_ahead
typed_ahead-IsValid = record { char = omega arith; space = omega arith }

abbrev pub console : Console
console = record { keyboard = typed_ahead; screen = small }

input_scan_code-queue_example :
    let (rval, s') = input_scan_code 0x1e typed_ahead in
    IsValid s'
    × (queue s' ≡ enter rval typed_ahead)
    × (rval ≡ (key (0x1e % 256) typed_ahead.modifiers).0)
    × (s'.modifiers ≡ (key (0x1e % 256) typed_ahead.modifiers).1)
    × (cio_input_queue s' ≡ length (queue s'))
    × ((cio_kbhit s' ≡ false) ↔ (length (queue s') ≡ 0))
input_scan_code-queue_example = input_scan_code-queue 0x1e typed_ahead typed_ahead-IsValid

-- The keys A and Enter.
cio_gets_lem_example :
    GotLine
      (first_line 9 (stream (0x1e ∷ 0x1c ∷ []) typed_ahead))
      (cio_gets 10 (0x1e ∷ 0x1c ∷ []) console)
cio_gets_lem_example = cio_gets_lem 10 (0x1e ∷ 0x1c ∷ []) console typed_ahead-IsValid

cio_puts-IsInside_example :
    IsInside (cio_puts (b'h' ∷ b'i' ∷ b'\n' ∷ []) small)
    × Within small (cio_puts (b'h' ∷ b'i' ∷ b'\n' ∷ []) small)
cio_puts-IsInside_example = cio_puts-IsInside (b'h' ∷ b'i' ∷ b'\n' ∷ []) small (record {
  left = omega arith;
  right = omega arith;
  top = omega arith;
  bottom = omega arith;
  height = omega arith;
})

cio_scroll_lem_example :
    (cio_scroll 2 small).video (video_addr 15 21)
    ≡ (if leb (21 + 2) 23 then small.video (video_addr 15 (21 + 2)) else blank)
cio_scroll_lem_example =
    cio_scroll_lem 2 15 21 small
      (record { left = omega arith; right = omega arith; fits = omega arith }) (omega arith)
      (omega arith)

abbrev no_texts : ℕ → List ℕ
no_texts a = []

-- "n=%04x", with one parameter.
abbrev one_code : List Piece
one_code = Piece.literal b'n' ∷ Piece.literal b'=' ∷ Piece.code false true (b'4' ∷ []) b'x' ∷ []

cio_printf-print_example :
    (cio_printf no_texts (λ i. 300) (print one_code) small
      ≡ some (cio_puts (render no_texts (λ i. 300) 0 one_code) small))
    × (sprint no_texts (λ i. 300) (print one_code) ≡ some (render no_texts (λ i. 300) 0 one_code))
cio_printf-print_example =
    cio_printf-print no_texts (λ i. 300) one_code small (λ a. omega arith)
      (
        (refl, refl),
        ((refl, refl), (((omega arith, omega arith, tt), omega arith, refl, refl), tt)),
      )
      (refl, tt)
