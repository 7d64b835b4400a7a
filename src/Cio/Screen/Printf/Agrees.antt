-- ===== src/Cio/Screen/Printf/Agrees.antt =====
-- cio_printf against sprint.
use os.Base.{
  sym, ap, ◌∙◌, ℕ, zero, suc, ◌+◌, ◌-◌, ◌*◌, leb, ◌%◌, ◌<◌, ◌≡◌, refl, true, false, ◌&&◌, Option,
  some, List, [], ◌∷◌, ◌++◌, arith, length, length-append, ◌==◌, if◌then◌else◌, Bool-cases, inl,
  inr,
}
use os.Klib.Strings.{
  Options, convert, pad, padstr, filler_count, sprint, takes_value, read_options, read_flag,
  read_width,
}
use os.Klib.Numbers.{int_min}
use os.Klib.Strings.Fields.{shown, convert-field}
use os.Klib.Strings.Formats.{
  Piece, print, render, number, IsFormat, read_options_lem, tail_assoc, length-code, sprint-print,
}
use os.Cio.Screen.{Screen, cio_putchar, cio_puts, extend}
use os.Cio.Screen.Printf.{
  minus_one, mypad, put_str, mypadstr, converted, put_code, put_char, printf_code, do_printf,
  cio_printf, printf_width, printf_flag, printf_options,
}
use os.Klib.Numbers.{u32_mod}

-- The options are read as sprint reads them.
printf_width_same : (width : ℕ) (fmt : List ℕ) → printf_width width fmt ≡ read_width width fmt
unfolding printf_width read_width
printf_width_same width [] = refl
printf_width_same width (c ∷ fmt) =
    ap (λ rest. if leb b'0' c && leb c b'9' then rest else (width, c ∷ fmt))
      (printf_width_same ((width * 10 + (c - b'0')) % u32_mod) fmt)

printf_flag_same : (flag : ℕ) (fmt : List ℕ) → printf_flag flag fmt ≡ read_flag flag fmt
unfolding printf_flag read_flag
printf_flag_same flag [] = refl
printf_flag_same flag (c ∷ fmt) = refl

printf_options_same : (fmt : List ℕ) → printf_options fmt ≡ read_options fmt
unfolding printf_options read_options
printf_options_same fmt = rw printf_flag_same (rw printf_width_same refl)

cio_puts-append : (a b : List ℕ) (s : Screen) → cio_puts (a ++ b) s ≡ cio_puts b (cio_puts a s)
unfolding cio_puts
cio_puts-append [] b s = refl
cio_puts-append (c ∷ a) b s = cio_puts-append a b (cio_putchar (extend c) s)

-- Padding at the cursor.
mypad_lem :
    (n padchar : ℕ) (s : Screen)
    → padchar < 128
    → mypad n minus_one minus_one padchar s ≡ (minus_one, cio_puts (pad n padchar) s)
unfolding mypad pad cio_puts
mypad_lem zero padchar s lt = refl
mypad_lem (suc n) padchar s lt =
    let plain : extend padchar ≡ padchar = ground arith in
    mypad_lem n padchar (cio_putchar padchar s) lt
    ∙ ap (λ c. (minus_one, cio_puts (pad n padchar) (cio_putchar c s))) (sym plain)

mypadstr_lem :
    (str : List ℕ) (o : Options) (s : Screen)
    → o.padchar < 128
    → mypadstr minus_one minus_one str (length str) o s
      ≡ (minus_one, cio_puts (padstr str o.width o.leftadjust o.padchar) s)
unfolding mypadstr padstr put_str
mypadstr_lem str o s lt = elim (Bool-cases o.leftadjust) [
  | inl left ↦ simp left (
      mypad_lem (filler_count o.width (length str)) o.padchar (cio_puts str s) lt
      ∙ ap (λ t. (minus_one, t))
          (sym (cio_puts-append str (pad (filler_count o.width (length str)) o.padchar) s)))
  | inr right ↦ simp right (
      ap (λ r. put_str r.0 minus_one str (length str) r.1)
        (mypad_lem (filler_count o.width (length str)) o.padchar s lt)
      ∙ ap (λ t. (minus_one, t))
          (sym (cio_puts-append (pad (filler_count o.width (length str)) o.padchar) str s)))
]

-- What a code is converted to, if it is not a NUL as a character.
converted_lem :
    (text : ℕ → List ℕ) (ch value : ℕ) (o : Options)
    → takes_value ch ≡ true
    → ((ch == b'c') && (value % 256 == 0)) ≡ false
    → (str : List ℕ) × (converted text ch value ≡ some (str, length str))
      × (convert text o ch value ≡ padstr str o.width o.leftadjust o.padchar)
unfolding converted convert
converted_lem text ch value o e shown = elim (Bool-cases (ch == b'c')) [
  | inl c ↦
      let nul : (value % 256 == 0) ≡ false = ground (arith, shown) in
      rw (c, nul) ((value % 256) ∷ [], refl, refl)
  | inr not_c ↦ elim (Bool-cases (ch == b'd')) [
    | inl d ↦ rw (not_c, d) (_, refl, refl)
    | inr not_d ↦ elim (Bool-cases (ch == b's')) [
      | inl s ↦ rw (not_c, not_d, s) (_, refl, refl)
      | inr not_s ↦ elim (Bool-cases (ch == b'x')) [
        | inl x ↦ rw (not_c, not_d, not_s, x) (_, refl, refl)
        | inr not_x ↦ elim (Bool-cases (ch == b'o')) [
          | inl oct ↦ rw (not_c, not_d, not_s, not_x, oct) (_, refl, refl)
          | inr not_o ↦
              let u : (ch == b'u') ≡ true = ground (arith, e) in
              rw (not_c, not_d, not_s, not_x, not_o, u) (_, refl, refl)
        ]
      ]
    ]
  ]
]

put_code_lem :
    (text : ℕ → List ℕ) (value : ℕ → ℕ) (ch n : ℕ) (o : Options) (s : Screen)
    → takes_value ch ≡ true
    → ((ch == b'c') && (value n % 256 == 0)) ≡ false
    → o.padchar < 128
    → put_code text value ch n minus_one minus_one o s
      ≡ (minus_one, n + 1, cio_puts (convert text o ch (value n)) s)
unfolding put_code
put_code_lem text value ch n o s e shown lt =
    let (str, known, same) = converted_lem text ch (value n) o e shown in
    let m : mypadstr minus_one minus_one str (length str) o s
        ≡ (minus_one, cio_puts (convert text o ch (value n)) s) =
      mypadstr_lem str o s lt ∙ ap (λ l. (minus_one, cio_puts l s)) (sym same) in
    rw (known, put_code) (ap (λ r. (r.0, n + 1, r.1)) m)

-- No parameter that a code takes as a character is a NUL.
abbrev pub AreShown : (ℕ → ℕ) → ℕ → List Piece → Type 0
AreShown value n [] = Unit {0}
AreShown value n (Piece.literal c ∷ ps) = AreShown value n ps
AreShown value n (Piece.code left zeros width letter ∷ ps) =
    (((letter == b'c') && (value n % 256 == 0)) ≡ false) × AreShown value (n + 1) ps

printf_code_lem :
    (text : ℕ → List ℕ) (value : ℕ → ℕ) (continue : ℕ → List ℕ → ℕ → ℕ → Screen → Option Screen)
    (n letter : ℕ) (o : Options) (fmt out : List ℕ) (s : Screen)
    → takes_value letter ≡ true
    → ((letter == b'c') && (value n % 256 == 0)) ≡ false
    → o.padchar < 128
    → ((t : Screen) → continue (n + 1) fmt minus_one minus_one t ≡ some (cio_puts out t))
    → printf_code text value continue n minus_one minus_one s (o, letter ∷ fmt)
      ≡ some (cio_puts (convert text o letter (value n) ++ out) s)
unfolding printf_code
printf_code_lem text value continue n letter o fmt out s e shown lt h =
    ap (λ r. continue r.1 fmt r.0 minus_one r.2) (put_code_lem text value letter n o s e shown lt)
    ∙ h (cio_puts (convert text o letter (value n)) s)
    ∙ ap (λ t. some t) (sym (cio_puts-append (convert text o letter (value n)) out s))

puts_nothing : (s : Screen) → some s ≡ some (cio_puts [] s)
unfolding cio_puts
puts_nothing s = refl

-- A character that stands for itself, and what follows it.
put_literal :
    (c : ℕ) (s : Screen) (next : ℕ × ℕ × Screen → Option Screen) (out : List ℕ)
    → next (minus_one, minus_one, cio_putchar (extend c) s)
      ≡ some (cio_puts out (cio_putchar (extend c) s))
    → next (put_char c minus_one minus_one s) ≡ some (cio_puts (c ∷ out) s)
unfolding put_char cio_puts
put_literal c s next out h = h

do_printf_lem :
    (text : ℕ → List ℕ) (value : ℕ → ℕ) (ps : List Piece) (fuel n : ℕ) (s : Screen)
    → ((a : ℕ) → length (text a) < int_min)
    → IsFormat ps
    → AreShown value n ps
    → length (print ps) < fuel
    → do_printf text value fuel n (print ps) minus_one minus_one s
      ≡ some (cio_puts (render text value n ps) s)
unfolding do_printf
do_printf_lem text value ps zero n s short f shows enough = absurd (omega arith)
do_printf_lem text value [] (suc fuel) n s short f shows enough = puts_nothing s
do_printf_lem text value (Piece.literal c ∷ ps) (suc fuel) n s short ((p, nul), f) shows enough =
    rw (p, do_printf)
      (put_literal c s (λ r. do_printf text value fuel n (print ps) r.0 r.1 r.2)
        (render text value n ps)
        (do_printf_lem text value ps fuel n (cio_putchar (extend c) s) short f shows (omega arith)))
do_printf_lem text value (Piece.code left zeros width letter ∷ ps) (suc fuel) n s short
      ((d, w, z, e), f) (shows, more) enough =
    let a : List ℕ = if left then b'-' ∷ [] else [] in
    let b : List ℕ = if zeros then b'0' ∷ [] else [] in
    let o : Options = record {
      leftadjust = left;
      padchar = if zeros then b'0' else b' ';
      width = number 0 width;
    } in
    let options : printf_options ((a ++ (b ++ (width ++ letter ∷ []))) ++ print ps)
        ≡ (o, letter ∷ print ps) =
      printf_options_same ((a ++ (b ++ (width ++ letter ∷ []))) ++ print ps)
      ∙ ap read_options (tail_assoc a b width letter (print ps))
      ∙ read_options_lem left zeros width letter (print ps) d w z e in
    let few : length (print ps) < fuel = omega (
      arith,
      length-code a b width letter,
      length-append (a ++ (b ++ (width ++ letter ∷ []))) (print ps),
      enough,
    ) in
    rw options (
      printf_code_lem text value (do_printf text value fuel) n letter o (print ps)
        (render text value (n + 1) ps) s e shows (ground arith)
        (λ t. do_printf_lem text value ps fuel (n + 1) t short f more few)
      ∙ ap (λ l. some (cio_puts (l ++ render text value (n + 1) ps) s))
          (convert-field text left zeros (number 0 width) letter (value n) short w e))

-- cio_printf prints what sprint stores: printing a list of pieces as a format and passing it to
-- cio_printf writes to the screen, at the cursor, the text that the pieces stand for, and sprint
-- stores that text. The widths are digits that do not begin with 0 and write an int, the characters
-- of the format are not NUL, no code takes a NUL as a character, and the texts of parameters are
-- shorter than 2^31 characters.
pub cio_printf-print :
    (text : ℕ → List ℕ) (value : ℕ → ℕ) (ps : List Piece) (s : Screen)
    → ((a : ℕ) → length (text a) < int_min)
    → IsFormat ps
    → AreShown value 0 ps
    → (cio_printf text value (print ps) s ≡ some (cio_puts (render text value 0 ps) s))
      × (sprint text value (print ps) ≡ some (render text value 0 ps))
unfolding cio_printf
cio_printf-print text value ps s short f shows = (
  do_printf_lem text value ps (length (print ps) + 1) 0 s short f shows (omega arith),
  sprint-print text value ps short f,
)
