-- ===== src/Loader.antt =====
-- user.c: stack_setup, which builds the stack of a new program: its arguments, a return address and
-- the context from which it starts.
--
-- The argument vector is the list of its strings, without their NULs. Memory is bytes, a word is
-- four of them, least significant first, and addresses wrap at 32 bits.
pub mod Argv
pub mod Start
pub mod Words
mod Tests
use os.Base.{
  ℕ, zero, suc, not, ◌+◌, ◌-◌, ◌*◌, ◌/◌, ◌%◌, Option, none, some, List, [], ◌∷◌, ◌++◌, length, ltb,
  leb, ◌==◌, if◌then◌else◌,
}
use os.Klib.Blocks.{Memory, write}

abbrev n_args : ℕ
n_args = 10

abbrev pub page : ℕ
page = 4096

-- Two pages.
abbrev pub stack_bytes : ℕ
stack_bytes = 8192

-- EFL_MB1 | EFL_IF
abbrev pub default_eflags : ℕ
default_eflags = 0x202

abbrev pub gdt_code : ℕ
gdt_code = 0x10

abbrev pub gdt_data : ℕ
gdt_data = 0x18

abbrev pub gdt_stack : ℕ
gdt_stack = 0x20

-- The loop over the argument vector: the strings that are kept. `none` is a write beyond the arrays
-- of N_ARGS entries.
pub collect : ℕ → ℕ → List (List ℕ) → Option (List (List ℕ))
collect argc argbytes [] = some []
collect argc argbytes (s ∷ ss) =
    let rest = collect (argc + 1) (argbytes + (length s + 1)) ss in
    if not (ltb argc n_args)
    then none
    else if ltb page (argbytes + (length s + 1))
    then some []
    else elim rest [ none ↦ none | some kept ↦ some (s ∷ kept) ]

-- The strings one behind another, each with its NUL.
pub image : List (List ℕ) → List ℕ
image [] = []
image (s ∷ ss) = s ++ 0 ∷ image ss

-- uv_offsets, from the offset of the first string on.
pub offsets : ℕ → List (List ℕ) → List ℕ
offsets at [] = []
offsets at (s ∷ ss) = at ∷ offsets (at + (length s + 1)) ss

abbrev zeros : ℕ → List ℕ
zeros zero = []
zeros (suc n) = 0 ∷ zeros n

-- `(n + 3) & MOD4_MASK`
abbrev pub round_up : ℕ → ℕ
round_up n = (n + 3) - (n + 3) % 4

-- argstrings: the strings, and zeros up to the rounded size.
pub argstrings : List (List ℕ) → List ℕ
unfolding image
argstrings ss = let bytes = image ss in bytes ++ zeros (round_up (length bytes) - length bytes)

pub put_bytes : ℕ → List ℕ → Memory → Memory
put_bytes a [] mem = mem
put_bytes a (x ∷ xs) mem = put_bytes (a + 1) xs (write mem a x)

pub put_word : ℕ → ℕ → Memory → Memory
put_word a v mem b =
    if b == a
    then v % 256
    else if b == a + 1
    then v / 256 % 256
    else if b == a + 2
    then v / 0x1_0000 % 256
    else if b == a + 3
    then v / 0x100_0000 % 256
    else mem b

-- Subtraction on addresses.
abbrev pub down : ℕ → ℕ → ℕ
down a n = (a + 0x1_0000_0000 - n) % 0x1_0000_0000

abbrev pub align : ℕ → ℕ → ℕ
align n a = a - a % n

-- kvptr below the buffer longword, kvstrptr and kvacptr.
pub buffer_at : ℕ → ℕ
buffer_at stack = down ((stack + stack_bytes) % 0x1_0000_0000) 4

pub strings_at : ℕ → ℕ → ℕ
unfolding buffer_at
strings_at stack argbytes = align 4 (down (buffer_at stack) argbytes)

pub argc_at : ℕ → ℕ → ℕ
argc_at strings argc = align 16 (down strings (4 * (argc + 3)))

-- The argv entries, and the trailing NULL.
pub put_argv : ℕ → ℕ → List ℕ → Memory → Memory
unfolding put_word
put_argv p strings [] mem = put_word p 0 mem
put_argv p strings (o ∷ os) mem =
    put_argv (p + 4) strings os (put_word p ((strings + o) % 0x1_0000_0000) mem)

-- Stores of words at offsets from `c`, the first one first.
pub put_words : ℕ → List (ℕ × ℕ) → Memory → Memory
unfolding put_word
put_words c [] mem = mem
put_words c ((o, v) ∷ ws) mem = put_words c ws (put_word (c + o) v mem)

-- The fields of the context that are filled in, by their offsets in context_t.
abbrev pub context_words : ℕ → List (ℕ × ℕ)
context_words entry =
    (68, default_eflags)
    ∷ (60, entry)
    ∷ (64, gdt_code)
    ∷ (0, gdt_stack)
    ∷ (4, gdt_data)
    ∷ (8, gdt_data)
    ∷ (12, gdt_data)
    ∷ (16, gdt_data)
    ∷ []

-- Everything on the stack, for the strings that are kept.
pub build : ℕ → ℕ → ℕ → List (List ℕ) → Memory → ℕ × Memory
unfolding argstrings offsets put_bytes put_word buffer_at strings_at argc_at put_argv put_words
build stack entry fake_exit ss mem =
    let chars = argstrings ss in
    let strings = strings_at stack (length chars) in
    let ac = argc_at strings (length ss) in
    let c = down (down ac 4) 72 in
    let m = put_bytes strings chars (put_word (buffer_at stack) 0 mem) in
    let m = put_word (ac + 4) (ac + 8) (put_word ac (length ss) m) in
    let m = put_argv (ac + 8) strings (offsets 0 ss) m in
    (c, put_words c (context_words entry) (put_word (down ac 4) fake_exit m))

-- The address of the context, and memory.
pub stack_setup : ℕ → ℕ → ℕ → List (List ℕ) → Memory → Option (ℕ × Memory)
unfolding collect build
stack_setup stack entry fake_exit args mem = elim (collect 0 0 args) [
  | none ↦ none
  | some ss ↦ some (build stack entry fake_exit ss mem)
]
