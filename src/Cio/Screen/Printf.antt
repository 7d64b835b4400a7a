-- ===== src/Cio/Screen/Printf.antt =====
-- cio.c: formatted output, to a place on the screen or at the cursor.
--
-- The ints x and y are bit patterns; both -1 is the cursor.
pub mod Agrees
use os.Base.{
  Option, none, some, has, ℕ, zero, suc, ◌+◌, ◌-◌, ◌*◌, ◌%◌, Bool, true, false, ◌&&◌, List, [], ◌∷◌,
  length, ltb, leb, ◌==◌, if◌then◌else◌,
}
use os.Klib.Numbers.{u32_mod, cvtdec, cvthex, cvtoct, cvtuns, cvtbin}
use os.Klib.Strings.{Options, filler_count}
use os.Cio.Screen.{Screen, cio_putchar, cio_putchar_at, cio_puts, cio_puts_at, extend}

abbrev pub minus_one : ℕ
minus_one = u32_mod - 1

abbrev pub at_cursor : ℕ → ℕ → Bool
at_cursor x y = (x == minus_one) && (y == minus_one)

-- One round of mypad.
pub pad_one : ℕ → ℕ → ℕ → Screen → ℕ × Screen
pad_one x y padchar s =
    if at_cursor x y
    then (x, cio_putchar padchar s)
    else ((x + 1) % u32_mod, cio_putchar_at x y padchar s)

pub mypad : ℕ → ℕ → ℕ → ℕ → Screen → ℕ × Screen
unfolding pad_one
mypad zero x y padchar s = (x, s)
mypad (suc extra) x y padchar s =
    let (x', s') = pad_one x y padchar s in mypad extra x' y padchar s'

pub put_str : ℕ → ℕ → List ℕ → ℕ → Screen → ℕ × Screen
put_str x y str len s =
    if at_cursor x y then (x, cio_puts str s) else ((x + len) % u32_mod, cio_puts_at x y str s)

-- `extra` is the int width - len.
pub mypadstr : ℕ → ℕ → List ℕ → ℕ → Options → Screen → ℕ × Screen
unfolding mypad put_str
mypadstr x y str len o s =
    let extra = filler_count o.width len in
    let (x1, s1) = if o.leftadjust then (x, s) else mypad extra x y o.padchar s in
    let (x2, s2) = put_str x1 y str len s1 in
    if o.leftadjust then mypad extra x2 y o.padchar s2 else (x2, s2)

-- The text of one parameter and the length that is passed on, which is that of the text except for
-- a NUL as a character. `none` is a code that is not known.
pub converted : (ℕ → List ℕ) → ℕ → ℕ → Option (List ℕ × ℕ)
converted text ch value =
    let whole : List ℕ → Option (List ℕ × ℕ) = λ (l : List ℕ). some (l, length l) in
    if ch == b'c'
    then some (if value % 256 == 0 then [] else (value % 256) ∷ [], 1)
    else if ch == b'd'
    then whole (cvtdec value)
    else if ch == b's'
    then whole (text value)
    else if ch == b'x'
    then whole (cvthex value)
    else if ch == b'o'
    then whole (cvtoct value)
    else if ch == b'u'
    then whole (cvtuns value)
    else if ch == b'b'
    then whole (cvtbin value)
    else none

-- One code, with the parameter `ap`; the new x, the next parameter, and the screen.
pub put_code : (ℕ → List ℕ) → (ℕ → ℕ) → ℕ → ℕ → ℕ → ℕ → Options → Screen → ℕ × ℕ × Screen
unfolding mypadstr converted
put_code text value ch ap x y o s = elim (converted text ch (value ap)) [
  | none ↦ (x, ap, s)
  | some (str, len) ↦ let (x', s') = mypadstr x y str len o s in (x', ap + 1, s')
]

-- One character that stands for itself; the new x and y, and the screen.
pub put_char : ℕ → ℕ → ℕ → Screen → ℕ × ℕ × Screen
put_char ch x y s =
    if at_cursor x y
    then (x, y, cio_putchar (extend ch) s)
    else (let s' = cio_putchar_at x y (extend ch) s in
        if ch == b'\n'
        then (s'.scroll_min_x, (y + 1) % u32_mod, s')
        else if ch == b'\r'
        then (s'.scroll_min_x, y, s')
        else ((x + 1) % u32_mod, y, s'))

-- The width of a format code, and the code's character and what follows it.
pub printf_width : ℕ → List ℕ → ℕ × List ℕ
printf_width width [] = (width, [])
printf_width width (ch ∷ fmt) =
    let rest = printf_width ((width * 10 + (ch - b'0')) % u32_mod) fmt in
    if leb b'0' ch && leb ch b'9' then rest else (width, ch ∷ fmt)

pub printf_flag : ℕ → List ℕ → Bool × List ℕ
printf_flag flag [] = (false, [])
printf_flag flag (ch ∷ fmt) = if ch == flag then (true, fmt) else (false, ch ∷ fmt)

-- The options after a '%', and what follows them.
pub printf_options : List ℕ → Options × List ℕ
unfolding printf_width printf_flag
printf_options fmt =
    let left = printf_flag b'-' fmt in
    let zeros = printf_flag b'0' left.1 in
    let width = printf_width 0 zeros.1 in
    (
      record { leftadjust = left.0; padchar = if zeros.0 then b'0' else b' '; width = width.0 },
      width.1,
    )

-- A format that ends within a code gives `none`: the source then reads on behind its NUL.
pub printf_code :
    (ℕ → List ℕ)
    → (ℕ → ℕ)
    → (ℕ → List ℕ → ℕ → ℕ → Screen → Option Screen)
    → ℕ
    → ℕ
    → ℕ
    → Screen
    → Options × List ℕ
    → Option Screen
unfolding put_code
printf_code text value continue ap x y s (o, []) = none
printf_code text value continue ap x y s (o, code ∷ fmt) =
    let (x', ap', s') = put_code text value code ap x y o s in continue ap' fmt x' y s'

-- On fuel for the characters of the format. `value n` is the n-th parameter, `text` the string at
-- an address.
pub do_printf : (ℕ → List ℕ) → (ℕ → ℕ) → ℕ → ℕ → List ℕ → ℕ → ℕ → Screen → Option Screen
unfolding put_char printf_options
do_printf text value zero ap fmt x y s = none
do_printf text value (suc fuel) ap [] x y s = some s
do_printf text value (suc fuel) ap (ch ∷ fmt) x y s = elim (ch == b'%') [
  | false ↦ let (x', y', s') = put_char ch x y s in do_printf text value fuel ap fmt x' y' s'
  | true ↦ printf_code text value (do_printf text value fuel) ap x y s (printf_options fmt)
]

pub cio_printf_at : (ℕ → List ℕ) → (ℕ → ℕ) → ℕ → ℕ → List ℕ → Screen → Option Screen
unfolding do_printf
cio_printf_at text value x y fmt s = do_printf text value (length fmt + 1) 0 fmt x y s

pub cio_printf : (ℕ → List ℕ) → (ℕ → ℕ) → List ℕ → Screen → Option Screen
unfolding do_printf
cio_printf text value fmt s = do_printf text value (length fmt + 1) 0 fmt minus_one minus_one s
