-- ===== src/Klib/Strings/Formats.antt =====
-- sprint against a description of what a format means.
use os.Base.{
  ap, ◌∙◌, ℕ, zero, suc, ◌+◌, ◌-◌, ◌*◌, ◌≤◌, ◌<◌, ◌≡◌, refl, Bool, true, false, ◌&&◌, Option, some,
  List, [], ◌∷◌, ◌++◌, append_assoc, arith, length, length-append, leb, ◌%◌, ◌==◌, if◌then◌else◌,
}
use os.Klib.Strings.{
  Options, sprint_code, convert, takes_value, read_width, read_flag, read_options, sprint_fuel,
  sprint,
}
use os.Klib.Numbers.{u32_mod, int_min}
use os.Klib.Strings.Fields.{shown, field, convert-field}

-- A format is characters that stand for themselves and codes: left-adjusted or not, padded with
-- zeros or not, the digits of the width, and the code's letter.
pub data Piece : Type 0 where
  literal : ℕ → Piece
  code : Bool → Bool → List ℕ → ℕ → Piece

abbrev pub print_piece : Piece → List ℕ
print_piece (literal c) = c ∷ []
print_piece (code left zeros width letter) =
    b'%'
    ∷ ((if left then b'-' ∷ [] else [])
        ++ ((if zeros then b'0' ∷ [] else []) ++ (width ++ letter ∷ [])))

abbrev pub print : List Piece → List ℕ
print [] = []
print (p ∷ ps) = print_piece p ++ print ps

-- The number that the digits write, behind `n`.
abbrev pub number : ℕ → List ℕ → ℕ
number n [] = n
number n (d ∷ ds) = number (n * 10 + (d - b'0')) ds

-- What the format stands for, from the parameter `ap` on.
abbrev pub render : (ℕ → List ℕ) → (ℕ → ℕ) → ℕ → List Piece → List ℕ
render text value ap [] = []
render text value ap (literal c ∷ ps) = c ∷ render text value ap ps
render text value ap (code left zeros width letter ∷ ps) =
    field left (if zeros then b'0' else b' ') (number 0 width) (shown text letter (value ap))
    ++ render text value (ap + 1) ps

abbrev pub AreDigits : List ℕ → Type 0
AreDigits [] = Unit {0}
AreDigits (d ∷ ds) = (b'0' ≤ d) × (d ≤ b'9') × AreDigits ds

-- A width is an int and does not begin with the digit 0, which is the flag for zeros; a character is
-- not the NUL that ends a format.
abbrev pub starts_with : ℕ → List ℕ → Bool
starts_with c [] = false
starts_with c (d ∷ ds) = d == c

abbrev pub IsPiece : Piece → Type 0
IsPiece (literal c) = ((c == b'%') ≡ false) × ((c == 0) ≡ false)
IsPiece (code left zeros width letter) =
    AreDigits width
    × (number 0 width < int_min)
    × (starts_with b'0' width ≡ false)
    × (takes_value letter ≡ true)

abbrev pub IsFormat : List Piece → Type 0
IsFormat [] = Unit {0}
IsFormat (p ∷ ps) = IsPiece p × IsFormat ps

not_digit : (letter : ℕ) → takes_value letter ≡ true → (leb b'0' letter && leb letter b'9') ≡ false
not_digit letter e = ground arith

number_le : (ds : List ℕ) (n : ℕ) → n ≤ number n ds
number_le [] n = omega arith
number_le (d ∷ ds) n = omega (arith, number_le ds (n * 10 + (d - b'0')))

read_width_lem :
    (ds : List ℕ) (n letter : ℕ) (rest : List ℕ)
    → AreDigits ds
    → number n ds < int_min
    → takes_value letter ≡ true
    → read_width n (ds ++ letter ∷ rest) ≡ (number n ds, letter ∷ rest)
unfolding read_width
read_width_lem [] n letter rest d fits e = rw (not_digit letter e) refl
read_width_lem (d ∷ ds) n letter rest (lo, hi, more) fits e =
    let digit : (leb b'0' d && leb d b'9') ≡ true = ground arith in
    let whole : (n * 10 + (d - b'0')) % u32_mod ≡ n * 10 + (d - b'0') =
      omega (arith, number_le ds (n * 10 + (d - b'0')), fits) in
    rw (digit, whole) (read_width_lem ds (n * 10 + (d - b'0')) letter rest more fits e)

read_flag_set : (flag : ℕ) (rest : List ℕ) → read_flag flag (flag ∷ rest) ≡ (true, rest)
unfolding read_flag
read_flag_set flag rest = let e : (flag == flag) ≡ true = ground arith in rw e refl

read_flag_clear :
    (flag : ℕ) (rest : List ℕ) → starts_with flag rest ≡ false → read_flag flag rest ≡ (false, rest)
unfolding read_flag
read_flag_clear flag [] e = refl
read_flag_clear flag (c ∷ rest) e = rw e refl

-- What stands behind the first flag does not look like that flag, and so for the second.
no_dash :
    (zeros : Bool) (width : List ℕ) (letter : ℕ) (rest : List ℕ)
    → AreDigits width
    → takes_value letter ≡ true
    → starts_with b'-' ((if zeros then b'0' ∷ [] else []) ++ (width ++ letter ∷ rest)) ≡ false
no_dash true width letter rest d e = refl
no_dash false [] letter rest d e = ground arith
no_dash false (c ∷ width) letter rest (lo, hi, d) e = ground arith

no_zero :
    (width : List ℕ) (letter : ℕ) (rest : List ℕ)
    → starts_with b'0' width ≡ false
    → takes_value letter ≡ true
    → starts_with b'0' (width ++ letter ∷ rest) ≡ false
no_zero [] letter rest d e = ground arith
no_zero (c ∷ width) letter rest d e = d

read_first :
    (left : Bool) (rest : List ℕ)
    → starts_with b'-' rest ≡ false
    → read_flag b'-' ((if left then b'-' ∷ [] else []) ++ rest) ≡ (left, rest)
read_first true rest e = read_flag_set b'-' rest
read_first false rest e = read_flag_clear b'-' rest e

read_second :
    (zeros : Bool) (rest : List ℕ)
    → starts_with b'0' rest ≡ false
    → read_flag b'0' ((if zeros then b'0' ∷ [] else []) ++ rest) ≡ (zeros, rest)
read_second true rest e = read_flag_set b'0' rest
read_second false rest e = read_flag_clear b'0' rest e

pub read_options_lem :
    (left zeros : Bool) (width : List ℕ) (letter : ℕ) (rest : List ℕ)
    → AreDigits width
    → number 0 width < int_min
    → starts_with b'0' width ≡ false
    → takes_value letter ≡ true
    → read_options (
        (if left then b'-' ∷ [] else [])
        ++ ((if zeros then b'0' ∷ [] else []) ++ (width ++ letter ∷ rest)))
      ≡ (
        record {
          leftadjust = left;
          padchar = if zeros then b'0' else b' ';
          width = number 0 width;
        },
        letter ∷ rest,
      )
unfolding read_options
read_options_lem left zeros width letter rest d w z e =
    rw
      (read_first left ((if zeros then b'0' ∷ [] else []) ++ (width ++ letter ∷ rest))
        (no_dash zeros width letter rest d e))
      (rw (read_second zeros (width ++ letter ∷ rest) (no_zero width letter rest z e))
        (rw (read_width_lem width 0 letter rest d w e) refl))

pub tail_assoc :
    (a b width : List ℕ) (letter : ℕ) (rest : List ℕ)
    → (a ++ (b ++ (width ++ letter ∷ []))) ++ rest ≡ a ++ (b ++ (width ++ letter ∷ rest))
tail_assoc a b width letter rest =
    append_assoc a (b ++ (width ++ letter ∷ [])) rest
    ∙ ap (λ l. a ++ l)
        (append_assoc b (width ++ letter ∷ []) rest
          ∙ ap (λ l. b ++ l) (append_assoc width (letter ∷ []) rest))

-- A code has at least its letter.
pub length-code :
    (a b width : List ℕ) (letter : ℕ) → 1 ≤ length (a ++ (b ++ (width ++ letter ∷ [])))
length-code a b width letter = omega (
  arith,
  length-append a (b ++ (width ++ letter ∷ [])),
  length-append b (width ++ letter ∷ []),
  length-append width (letter ∷ []),
)

sprint_code_lem :
    (text : ℕ → List ℕ) (value : ℕ → ℕ) (continue : ℕ → List ℕ → Option (List ℕ)) (n letter : ℕ)
    (o : Options) (fmt out : List ℕ)
    → takes_value letter ≡ true
    → continue (n + 1) fmt ≡ some out
    → sprint_code text value continue n (o, letter ∷ fmt)
      ≡ some (convert text o letter (value n) ++ out)
unfolding sprint_code
sprint_code_lem text value continue n letter o fmt out e h = rw (e, h) refl

sprint_fuel_lem :
    (text : ℕ → List ℕ) (value : ℕ → ℕ) (ps : List Piece) (fuel n : ℕ)
    → ((a : ℕ) → length (text a) < int_min)
    → IsFormat ps
    → length (print ps) < fuel
    → sprint_fuel text value fuel n (print ps) ≡ some (render text value n ps)
unfolding sprint_fuel
sprint_fuel_lem text value ps zero n short f enough = absurd (omega arith)
sprint_fuel_lem text value [] (suc fuel) n short f enough = refl
sprint_fuel_lem text value (literal c ∷ ps) (suc fuel) n short ((p, nul), f) enough =
    rw (p, sprint_fuel, sprint_fuel_lem text value ps fuel n short f (omega arith)) refl
sprint_fuel_lem text value (code left zeros width letter ∷ ps) (suc fuel) n short ((d, w, z, e), f)
      enough =
    let a : List ℕ = if left then b'-' ∷ [] else [] in
    let b : List ℕ = if zeros then b'0' ∷ [] else [] in
    let options : read_options ((a ++ (b ++ (width ++ letter ∷ []))) ++ print ps) ≡ (
      record { leftadjust = left; padchar = if zeros then b'0' else b' '; width = number 0 width },
      letter ∷ print ps,
    ) =
      ap read_options (tail_assoc a b width letter (print ps))
      ∙ read_options_lem left zeros width letter (print ps) d w z e in
    rw options (
      sprint_code_lem text value (sprint_fuel text value fuel) n letter
        (record {
          leftadjust = left;
          padchar = if zeros then b'0' else b' ';
          width = number 0 width;
        })
        (print ps) (render text value (n + 1) ps) e
        (sprint_fuel_lem text value ps fuel (n + 1) short f (
          omega (
            arith,
            length-code a b width letter,
            length-append (a ++ (b ++ (width ++ letter ∷ []))) (print ps),
            enough,
          )))
      ∙ ap (λ l. some (l ++ render text value (n + 1) ps))
          (convert-field text left zeros (number 0 width) letter (value n) short w e))

-- Printing a list of pieces as a format and passing it to sprint gives what the pieces stand for:
-- each character that is not a '%' as it is, and for each code the text of the next parameter, with
-- blanks or zeros up to the width, behind the text if it is left-adjusted and before it if not. The
-- widths are digits that do not begin with 0 and write an int, the characters of the format are not
-- NUL, and the texts of parameters are shorter than 2^31 characters.
pub sprint-print :
    (text : ℕ → List ℕ) (value : ℕ → ℕ) (ps : List Piece)
    → ((a : ℕ) → length (text a) < int_min)
    → IsFormat ps
    → sprint text value (print ps) ≡ some (render text value 0 ps)
unfolding sprint
sprint-print text value ps short f =
    sprint_fuel_lem text value ps (length (print ps) + 1) 0 short f (omega arith)
