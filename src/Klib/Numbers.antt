-- ===== src/Klib/Numbers.antt =====
-- klibc.c: numbers as text and back: cvtdec, cvtdec0, cvtuns, cvtuns0, cvthex, cvtoct,
-- cvtbin, str2int. A 32-bit number is its bit pattern. What a routine stores in its buffer is the
-- list of the characters, without the NUL; its return value is the length of that list.
pub mod Digits
pub mod Fits
use os.Base.{
  ℕ, zero, suc, ◌+◌, ◌-◌, ◌*◌, ◌/◌, ◌%◌, ◌^◌, Bool, true, false, not, ◌&&◌, ◌||◌, ltb, leb, ◌==◌,
  if◌then◌else◌, List, [], ◌∷◌, ◌++◌,
}

abbrev pub u32_mod : ℕ
u32_mod = 0x1_0000_0000

abbrev pub int_min : ℕ
int_min = 0x8000_0000

-- `value / 10` of an int is negative.
abbrev pub negative_quotient : ℕ → Bool
negative_quotient value = leb int_min value && leb 10 (u32_mod - value)

-- The quotient of cvtdec0 after its repair of the most negative value, and the digit's character.
abbrev pub quotient_of : ℕ → ℕ
quotient_of value =
    if negative_quotient value then 214748364 else if leb int_min value then 0 else value / 10

abbrev pub digit_of : ℕ → ℕ
digit_of value =
    if negative_quotient value
    then 8 + b'0'
    else if leb int_min value
    then (b'0' + 256 - (u32_mod - value)) % 256
    else value % 10 + b'0'

-- cvtdec0, on fuel for its recursion.
pub cvtdec0_fuel : ℕ → ℕ → List ℕ
cvtdec0_fuel zero value = []
cvtdec0_fuel (suc fuel) value =
    let rest = cvtdec0_fuel fuel (quotient_of value) in
    (if quotient_of value == 0 then [] else rest) ++ digit_of value ∷ []

-- An int has at most ten digits.
pub cvtdec0 : ℕ → List ℕ
cvtdec0 = cvtdec0_fuel 10

pub cvtdec : ℕ → List ℕ
cvtdec value =
    if leb int_min value then b'-' ∷ cvtdec0 ((u32_mod - value) % u32_mod) else cvtdec0 value

pub cvtuns0 : ℕ → List ℕ
cvtuns0 value =
    let quotient = value / 10 in
    (if quotient == 0 then [] else cvtdec0 quotient) ++ (value % 10 + b'0') ∷ []

pub cvtuns : ℕ → List ℕ
cvtuns value = cvtuns0 value

abbrev pub hexdigit : ℕ → ℕ
hexdigit val = if ltb val 10 then b'0' + val else b'A' + (val - 10)

-- The loop of cvthex, for the rounds left; `stored` says whether a character was stored.
pub hex_loop : ℕ → Bool → ℕ → List ℕ
hex_loop zero stored value = []
hex_loop (suc n) stored value =
    let val = value / 0x1000_0000 in
    let emit = stored || (not (val == 0) || (n == 0)) in
    let rest = hex_loop n emit (value * 16 % u32_mod) in if emit then hexdigit val ∷ rest else rest

pub cvthex : ℕ → List ℕ
cvthex value = hex_loop 8 false value

-- The loop of cvtbin: `n` rounds are left.
pub bin_loop : ℕ → ℕ → List ℕ
bin_loop zero value = []
bin_loop (suc n) value = (if value / 2 ^ n % 2 == 0 then b'0' else b'1') ∷ bin_loop n value

pub cvtbin : ℕ → List ℕ
cvtbin value = bin_loop 32 value

pub oct_loop : ℕ → Bool → ℕ → ℕ → List ℕ
oct_loop zero stored val value = []
oct_loop (suc n) stored val value =
    let emit = (n == 0) || (not (val == 0) || stored) in
    let shifted = value * 8 % u32_mod in
    let rest = oct_loop n emit (shifted / 0x2000_0000) shifted in
    if emit then (val % 8 + b'0') ∷ rest else rest

pub cvtoct : ℕ → List ℕ
cvtoct value = oct_loop 11 false (value / 0x4000_0000) value

-- The loop of str2int on the characters up to the NUL. A char with its top bit set is negative in
-- the source and above every digit here: the loop stops at it either way.
pub scan : ℕ → ℕ → ℕ → List ℕ → ℕ
scan base bchar num [] = num
scan base bchar num (c ∷ cs) =
    if (c == 0) || (ltb c b'0' || ltb bchar c)
    then num
    else scan base bchar ((num * base + c + u32_mod - b'0') % u32_mod) cs

abbrev pub last_digit : ℕ → ℕ
last_digit base = if base == 10 then b'9' else b'0' + base - 1

pub str2int : List ℕ → ℕ → ℕ
str2int [] base = 0
str2int (c ∷ cs) base =
    if c == b'-'
    then (u32_mod - scan base (last_digit base) 0 cs) % u32_mod
    else scan base (last_digit base) 0 (c ∷ cs)
