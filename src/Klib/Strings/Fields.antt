-- ===== src/Klib/Strings/Fields.antt =====
-- klibc.c: what a format code stores, as a text in a field.
use os.Base.{
  ap, ◌∙◌, ℕ, zero, suc, ◌-◌, ◌<◌, ◌≡◌, refl, Bool, true, false, List, [], ◌∷◌, ◌++◌, arith, length,
  ◌%◌, Bool-cases, inl, inr, ◌==◌, if◌then◌else◌,
}
use os.Klib.Strings.{Options, convert, takes_value, pad, padstr, filler_count}
use os.Klib.Numbers.{int_min, cvtdec, cvthex, cvtoct, cvtuns}
use os.Klib.Numbers.Fits.{conversions_fit}

-- What a code shows of its parameter.
abbrev pub shown : (ℕ → List ℕ) → ℕ → ℕ → List ℕ
shown text letter v =
    if letter == b'c'
    then (v % 256) ∷ []
    else if letter == b'd'
    then cvtdec v
    else if letter == b's'
    then text v
    else if letter == b'x'
    then cvthex v
    else if letter == b'o'
    then cvtoct v
    else cvtuns v

abbrev pub copies : ℕ → ℕ → List ℕ
copies zero c = []
copies (suc n) c = c ∷ copies n c

-- A text in a field of at least `width` characters, at its left or its right end.
abbrev pub field : Bool → ℕ → ℕ → List ℕ → List ℕ
field true c width s = s ++ copies (width - length s) c
field false c width s = copies (width - length s) c ++ s

pad-copies : (n c : ℕ) → pad n c ≡ copies n c
unfolding pad
pad-copies zero c = refl
pad-copies (suc n) c = ap (λ l. c ∷ l) (pad-copies n c)

pub filler_count_lem :
    (width len : ℕ) → width < int_min → len < int_min → filler_count width len ≡ width - len
filler_count_lem width len w l = ground arith

padstr-field :
    (s : List ℕ) (width : ℕ) (left : Bool) (c : ℕ)
    → width < int_min
    → length s < int_min
    → padstr s width left c ≡ field left c width s
unfolding padstr
padstr-field s width true c w l =
    rw (filler_count_lem width (length s) w l, pad-copies (width - length s) c) refl
padstr-field s width false c w l =
    rw (filler_count_lem width (length s) w l, pad-copies (width - length s) c) refl

-- The text of a code is short.
length-shown :
    (text : ℕ → List ℕ) (letter v : ℕ)
    → ((a : ℕ) → length (text a) < int_min)
    → length (shown text letter v) < int_min
length-shown text letter v short =
    let (dec, uns, hex, oct, bin) = conversions_fit v in
    elim (Bool-cases (letter == b'c')) [
      | inl c ↦ rw c (omega arith)
      | inr not_c ↦ elim (Bool-cases (letter == b'd')) [
        | inl d ↦ rw (not_c, d) (omega (arith, dec))
        | inr not_d ↦ elim (Bool-cases (letter == b's')) [
          | inl s ↦ rw (not_c, not_d, s) (short v)
          | inr not_s ↦ elim (Bool-cases (letter == b'x')) [
            | inl x ↦ rw (not_c, not_d, not_s, x) (omega (arith, hex))
            | inr not_x ↦ elim (Bool-cases (letter == b'o')) [
              | inl o ↦ rw (not_c, not_d, not_s, not_x, o) (omega (arith, oct))
              | inr not_o ↦ rw (not_c, not_d, not_s, not_x, not_o) (omega (arith, uns))
            ]
          ]
        ]
      ]
    ]

-- A code stores its text, padded.
pub convert-shown :
    (text : ℕ → List ℕ) (o : Options) (letter v : ℕ)
    → takes_value letter ≡ true
    → convert text o letter v ≡ padstr (shown text letter v) o.width o.leftadjust o.padchar
unfolding convert
convert-shown text o letter v e = elim (Bool-cases (letter == b'c')) [
  | inl c ↦ rw c refl
  | inr not_c ↦ elim (Bool-cases (letter == b'd')) [
    | inl d ↦ rw (not_c, d) refl
    | inr not_d ↦ elim (Bool-cases (letter == b's')) [
      | inl s ↦ rw (not_c, not_d, s) refl
      | inr not_s ↦ elim (Bool-cases (letter == b'x')) [
        | inl x ↦ rw (not_c, not_d, not_s, x) refl
        | inr not_x ↦ elim (Bool-cases (letter == b'o')) [
          | inl oct ↦ rw (not_c, not_d, not_s, not_x, oct) refl
          | inr not_o ↦
              let u : (letter == b'u') ≡ true = ground (arith, e) in
              rw (not_c, not_d, not_s, not_x, not_o, u) refl
        ]
      ]
    ]
  ]
]

pub convert-field :
    (text : ℕ → List ℕ) (left zeros : Bool) (width letter v : ℕ)
    → ((a : ℕ) → length (text a) < int_min)
    → width < int_min
    → takes_value letter ≡ true
    → convert text
        (record { leftadjust = left; padchar = if zeros then b'0' else b' '; width = width })
        letter
        v
      ≡ field left (if zeros then b'0' else b' ') width (shown text letter v)
convert-field text left zeros width letter v short w e =
    convert-shown text
      (record { leftadjust = left; padchar = if zeros then b'0' else b' '; width = width }) letter v
      e
    ∙ padstr-field (shown text letter v) width left (if zeros then b'0' else b' ') w
        (length-shown text letter v short)
