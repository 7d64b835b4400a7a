-- ===== src/Cio/Keyboard.antt =====
-- cio.c: input from the keyboard.
--
-- A pointer into input_buffer is its index. The scan codes that the keyboard will deliver are a
-- list; what reads them, the interrupt handler or the polling loop of cio_getchar, does the same
-- with each. A list that ends is a keyboard that stays silent: the wait then has no end.
pub mod Lines
pub mod Reads
use Prim.Native.Nat.{bit_and}
use os.Base.{
  ℕ, zero, suc, ◌+◌, ◌-◌, ◌%◌, Bool, true, false, not, ◌||◌, Option, none, some, List, [], ◌∷◌,
  Outcome, ok, out_of_fuel, ◌>>=◌, ltb, leb, ◌==◌, if◌then◌else◌,
}
use os.Klib.Numbers.{u32_mod}
use os.Cio.Screen.{Screen, poke, extend, cio_putchar}

abbrev pub c_bufsize : ℕ
c_bufsize = 200

abbrev pub eot : ℕ
eot = 4

-- scan_code[ 0 ] and scan_code[ 1 ], as unsigned characters.
abbrev unshifted : List ℕ
unshifted =
    255 ∷ 27 ∷ 49 ∷ 50 ∷ 51 ∷ 52 ∷ 53 ∷ 54 ∷ 55 ∷ 56 ∷ 57 ∷ 48 ∷ 45 ∷ 61 ∷ 8 ∷ 9 ∷ 113 ∷ 119 ∷ 101
    ∷ 114 ∷ 116 ∷ 121 ∷ 117 ∷ 105 ∷ 111 ∷ 112 ∷ 91 ∷ 93 ∷ 10 ∷ 255 ∷ 97 ∷ 115 ∷ 100 ∷ 102 ∷ 103
    ∷ 104 ∷ 106 ∷ 107 ∷ 108 ∷ 59 ∷ 39 ∷ 96 ∷ 255 ∷ 92 ∷ 122 ∷ 120 ∷ 99 ∷ 118 ∷ 98 ∷ 110 ∷ 109 ∷ 44
    ∷ 46 ∷ 47 ∷ 255 ∷ 42 ∷ 255 ∷ 32 ∷ 255 ∷ 255 ∷ 255 ∷ 255 ∷ 255 ∷ 255 ∷ 255 ∷ 255 ∷ 255 ∷ 255
    ∷ 255 ∷ 255 ∷ 255 ∷ 55 ∷ 56 ∷ 57 ∷ 45 ∷ 52 ∷ 53 ∷ 54 ∷ 43 ∷ 49 ∷ 50 ∷ 51 ∷ 48 ∷ 46 ∷ 255 ∷ 255
    ∷ 255 ∷ 255 ∷ 255 ∷ 255 ∷ 255 ∷ 255 ∷ 255 ∷ 255 ∷ 255 ∷ 255 ∷ 255 ∷ 255 ∷ 255 ∷ 255 ∷ 255 ∷ 255
    ∷ 255 ∷ 255 ∷ 255 ∷ 255 ∷ 255 ∷ 255 ∷ 255 ∷ 255 ∷ 255 ∷ 255 ∷ 255 ∷ 255 ∷ 255 ∷ 255 ∷ 255 ∷ 255
    ∷ 255 ∷ 255 ∷ 255 ∷ 255 ∷ 255 ∷ 255 ∷ 255 ∷ 255 ∷ 255 ∷ 255 ∷ []

abbrev shifted : List ℕ
shifted =
    255 ∷ 27 ∷ 33 ∷ 64 ∷ 35 ∷ 36 ∷ 37 ∷ 94 ∷ 38 ∷ 42 ∷ 40 ∷ 41 ∷ 95 ∷ 43 ∷ 8 ∷ 9 ∷ 81 ∷ 87 ∷ 69 ∷ 82
    ∷ 84 ∷ 89 ∷ 85 ∷ 73 ∷ 79 ∷ 80 ∷ 123 ∷ 125 ∷ 10 ∷ 255 ∷ 65 ∷ 83 ∷ 68 ∷ 70 ∷ 71 ∷ 72 ∷ 74 ∷ 75
    ∷ 76 ∷ 58 ∷ 34 ∷ 126 ∷ 255 ∷ 124 ∷ 90 ∷ 88 ∷ 67 ∷ 86 ∷ 66 ∷ 78 ∷ 77 ∷ 60 ∷ 62 ∷ 63 ∷ 255 ∷ 42
    ∷ 255 ∷ 32 ∷ 255 ∷ 255 ∷ 255 ∷ 255 ∷ 255 ∷ 255 ∷ 255 ∷ 255 ∷ 255 ∷ 255 ∷ 255 ∷ 255 ∷ 255 ∷ 55
    ∷ 56 ∷ 57 ∷ 45 ∷ 52 ∷ 53 ∷ 54 ∷ 43 ∷ 49 ∷ 50 ∷ 51 ∷ 48 ∷ 46 ∷ 255 ∷ 255 ∷ 255 ∷ 255 ∷ 255 ∷ 255
    ∷ 255 ∷ 255 ∷ 255 ∷ 255 ∷ 255 ∷ 255 ∷ 255 ∷ 255 ∷ 255 ∷ 255 ∷ 255 ∷ 255 ∷ 255 ∷ 255 ∷ 255 ∷ 255
    ∷ 255 ∷ 255 ∷ 255 ∷ 255 ∷ 255 ∷ 255 ∷ 255 ∷ 255 ∷ 255 ∷ 255 ∷ 255 ∷ 255 ∷ 255 ∷ 255 ∷ 255 ∷ 255
    ∷ 255 ∷ 255 ∷ 255 ∷ 255 ∷ 255 ∷ 255 ∷ []

abbrev element : List ℕ → ℕ → ℕ
element [] i = 0
element (c ∷ cs) zero = c
element (c ∷ cs) (suc i) = element cs i

-- The static variables of input_scan_code.
pub record Modifiers : Type 0 where
  pub shift : Bool
  pub ctrl_mask : ℕ

pub record Keyboard : Type 0 where
  pub input_buffer : ℕ → ℕ
  pub next_char : ℕ
  pub next_space : ℕ
  pub modifiers : Modifiers

-- '\377' as an int is negative: the bit pattern of -1. The table's elements are not.
abbrev undefined : ℕ
undefined = u32_mod - 1

-- What input_scan_code makes of a code: the character, and the modifiers.
pub key : ℕ → Modifiers → Option ℕ × Modifiers
key code m =
    if (code == 0x2a) || (code == 0x36)
    then (none, record m { shift = true })
    else if (code == 0xaa) || (code == 0xb6)
    then (none, record m { shift = false })
    else if code == 0x1d
    then (none, record m { ctrl_mask = 0x1f })
    else if code == 0x9d
    then (none, record m { ctrl_mask = 0xff })
    else if bit_and code 0x80 == 0
    then (let ch = element (if m.shift then shifted else unshifted) code in
        if ch == undefined then (none, m) else (some (bit_and ch m.ctrl_mask), m))
    else (none, m)

pub increment : ℕ → ℕ
increment pointer = if leb c_bufsize (pointer + 1) then 0 else pointer + 1

-- Storing a character, if there is room.
pub keep : Option ℕ → Keyboard → Keyboard
unfolding increment
keep none s = s
keep (some ch) s =
    let next = increment s.next_space in
    if next == s.next_char
    then s
    else record s { input_buffer = poke s.input_buffer s.next_space ch; next_space = next }

-- `none` is the result -1.
pub input_scan_code : ℕ → Keyboard → Option ℕ × Keyboard
unfolding key keep
input_scan_code code s =
    let (rval, m) = key (code % 256) s.modifiers in (rval, keep rval (record s { modifiers = m }))

pub cio_input_queue : Keyboard → ℕ
cio_input_queue s =
    if ltb s.next_space s.next_char
    then s.next_space + c_bufsize - s.next_char
    else s.next_space - s.next_char

pub cio_kbhit : Keyboard → Bool
cio_kbhit s = not (s.next_char == s.next_space)

pub record Console : Type 0 where
  pub keyboard : Keyboard
  pub screen : Screen

-- The last part of cio_getchar: the character is taken and shown.
pub accept : Console → ℕ × Console
unfolding increment
accept k =
    let s = k.keyboard in
    let c = s.input_buffer s.next_char % 256 in
    (
      c,
      record {
        keyboard = record s { next_char = increment s.next_char };
        screen = if c == eot then k.screen else cio_putchar (extend c) k.screen;
      },
    )

-- With the scan codes still to come: the character, and those that are left.
pub cio_getchar : List ℕ → Console → Outcome (ℕ × List ℕ × Console)
unfolding accept input_scan_code
cio_getchar [] k =
    if k.keyboard.next_char == k.keyboard.next_space
    then out_of_fuel
    else (let (c, k') = accept k in ok (c, [], k'))
cio_getchar (code ∷ codes) k =
    let rest = cio_getchar codes (record k { keyboard = (input_scan_code code k.keyboard).1 }) in
    if k.keyboard.next_char == k.keyboard.next_space
    then rest
    else (let (c, k') = accept k in ok (c, code ∷ codes, k'))

-- The loop of cio_gets, for `n` characters at most: what is stored before the NUL.
pub gets_loop : ℕ → List ℕ → Console → Outcome (List ℕ × List ℕ × Console)
unfolding cio_getchar
gets_loop zero codes k = ok ([], codes, k)
gets_loop (suc n) codes k = cio_getchar codes k >>= λ r.
    if r.0 == eot
    then ok ([], r.1, r.2)
    else if r.0 == b'\n'
    then ok (r.0 ∷ [], r.1, r.2)
    else (gets_loop n r.1 r.2 >>= λ q. ok (r.0 ∷ q.0, q.1, q.2))

-- The return value is the number of the characters.
pub cio_gets : ℕ → List ℕ → Console → Outcome (List ℕ × List ℕ × Console)
unfolding gets_loop
cio_gets size codes k = gets_loop (size - 1) codes k
