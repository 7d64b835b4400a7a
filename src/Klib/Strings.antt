-- ===== src/Klib/Strings.antt =====
-- klibc.c: strings in memory, padding, and formatted output.
--
-- A string is the bytes from an address up to a NUL. A loop over one runs on fuel; it runs out
-- where there is no NUL within that many bytes. What pad, padstr and sprint store is the list of
-- the characters.
pub mod Fields
pub mod Formats
pub mod Texts
use mathlib.Core.Option
use os.Base.{
  Option, none, some, has, ℕ, zero, suc, ◌+◌, ◌-◌, ◌*◌, ◌%◌, Bool, true, false, not, ◌&&◌, List, [],
  ◌∷◌, ◌++◌, length, Outcome, ok, out_of_fuel, ◌>>=◌, ltb, leb, ◌==◌, if◌then◌else◌,
}
use os.Klib.Blocks.{Memory, write}
use os.Klib.Numbers.{u32_mod, int_min, cvtdec, cvthex, cvtoct, cvtuns}

pub strlen : ℕ → ℕ → Memory → Outcome ℕ
strlen zero str mem = out_of_fuel
strlen (suc fuel) str mem = elim (mem str == 0) [
  | true ↦ ok 0
  | false ↦ strlen fuel (str + 1) mem >>= λ n. ok ((n + 1) % u32_mod)
]

pub strcpy : ℕ → ℕ → ℕ → Memory → Outcome Memory
strcpy zero dst src mem = out_of_fuel
strcpy (suc fuel) dst src mem = elim (mem src == 0) [
  | true ↦ ok (write mem dst (mem src))
  | false ↦ strcpy fuel (dst + 1) (src + 1) (write mem dst (mem src))
]

-- The first loop of strcat: the address of the NUL.
pub find_nul : ℕ → ℕ → Memory → Outcome ℕ
find_nul zero dst mem = out_of_fuel
find_nul (suc fuel) dst mem = elim (mem dst == 0) [
  | true ↦ ok dst
  | false ↦ find_nul fuel (dst + 1) mem
]

pub strcat : ℕ → ℕ → ℕ → Memory → Outcome Memory
unfolding find_nul strcpy
strcat fuel dst src mem = find_nul fuel dst mem >>= λ end_of. strcpy fuel end_of src mem

-- A char as an int, as a bit pattern.
abbrev pub char_value : ℕ → ℕ
char_value c = if ltb c 128 then c else u32_mod - 256 + c

-- The result is the bit pattern of the int.
pub strcmp : ℕ → ℕ → ℕ → Memory → Outcome ℕ
strcmp zero s1 s2 mem = out_of_fuel
strcmp (suc fuel) s1 s2 mem = elim (not (mem s1 == 0) && (mem s1 == mem s2)) [
  | true ↦ strcmp fuel (s1 + 1) (s2 + 1) mem
  | false ↦ ok ((char_value (mem s1) + u32_mod - char_value (mem s2)) % u32_mod)
]

-- The loop of pad runs while `extra` is positive.
unfoldable pub pad : ℕ → ℕ → List ℕ
pad zero padchar = []
pad (suc extra) padchar = padchar ∷ pad extra padchar

-- The rounds of pad for the int `extra`, width - len: it is a bit pattern, and the loop runs while it
-- is positive.
abbrev pub filler_count : ℕ → ℕ → ℕ
filler_count width len =
    let extra = (width + (u32_mod - len % u32_mod)) % u32_mod in
    if ltb extra int_min then extra else 0

-- The result for a string of known text, whose length is an int.
unfoldable pub padstr : List ℕ → ℕ → Bool → ℕ → List ℕ
unfolding pad
padstr str width leftadjust padchar =
    let filler = pad (filler_count width (length str)) padchar in
    if leftadjust then str ++ filler else filler ++ str

-- The options of a format code: what has been read of it. The width is the bit pattern of an int.
pub record Options : Type 0 where
  pub leftadjust : Bool
  pub padchar : ℕ
  pub width : ℕ

-- What one conversion stores, from the next parameter; `text` is the string at an address. A code
-- that is not known stores nothing and takes no parameter.
unfoldable pub convert : (ℕ → List ℕ) → Options → ℕ → ℕ → List ℕ
unfolding padstr
convert text o ch value =
    let put = λ (s : List ℕ). padstr s o.width o.leftadjust o.padchar in
    if ch == b'c'
    then put ((value % 256) ∷ [])
    else if ch == b'd'
    then put (cvtdec value)
    else if ch == b's'
    then put (text value)
    else if ch == b'x'
    then put (cvthex value)
    else if ch == b'o'
    then put (cvtoct value)
    else if ch == b'u'
    then put (cvtuns value)
    else []

abbrev pub takes_value : ℕ → Bool
takes_value ch = has ch (b'c' ∷ b'd' ∷ b's' ∷ b'x' ∷ b'o' ∷ b'u' ∷ [])

-- The width of a format code, and the code's character and what follows it.
unfoldable pub read_width : ℕ → List ℕ → ℕ × List ℕ
read_width width [] = (width, [])
read_width width (ch ∷ fmt) =
    let rest = read_width ((width * 10 + (ch - b'0')) % u32_mod) fmt in
    if leb b'0' ch && leb ch b'9' then rest else (width, ch ∷ fmt)

unfoldable pub read_flag : ℕ → List ℕ → Bool × List ℕ
read_flag flag [] = (false, [])
read_flag flag (ch ∷ fmt) = if ch == flag then (true, fmt) else (false, ch ∷ fmt)

-- The options after a '%', and what follows them.
unfoldable pub read_options : List ℕ → Options × List ℕ
unfolding read_width read_flag
read_options fmt =
    let left = read_flag b'-' fmt in
    let zeros = read_flag b'0' left.1 in
    let width = read_width 0 zeros.1 in
    (
      record { leftadjust = left.0; padchar = if zeros.0 then b'0' else b' '; width = width.0 },
      width.1,
    )

-- One format code: its conversion, and then the rest of the format. A format that ends within a
-- code gives `none`: the source then reads on behind the format's NUL.
pub sprint_code :
    (ℕ → List ℕ) → (ℕ → ℕ) → (ℕ → List ℕ → Option (List ℕ)) → ℕ → Options × List ℕ → Option (List ℕ)
unfolding convert
sprint_code text value continue ap (o, []) = none
sprint_code text value continue ap (o, code ∷ fmt) =
    Option.map (λ out. convert text o code (value ap) ++ out)
      (continue (if takes_value code then ap + 1 else ap) fmt)

-- sprint, on fuel for the characters of the format. `value n` is the n-th parameter.
pub sprint_fuel : (ℕ → List ℕ) → (ℕ → ℕ) → ℕ → ℕ → List ℕ → Option (List ℕ)
sprint_fuel text value zero ap fmt = none
sprint_fuel text value (suc fuel) ap [] = some []
sprint_fuel text value (suc fuel) ap (ch ∷ fmt) = elim (ch == b'%') [
  | false ↦ Option.map (λ out. ch ∷ out) (sprint_fuel text value fuel ap fmt)
  | true ↦ sprint_code text value (sprint_fuel text value fuel) ap (read_options fmt)
]

-- What sprint stores before the NUL.
pub sprint : (ℕ → List ℕ) → (ℕ → ℕ) → List ℕ → Option (List ℕ)
unfolding sprint_fuel
sprint text value fmt = sprint_fuel text value (length fmt + 1) 0 fmt
