-- ===== src/Klib/Blocks.antt =====
-- klibc.c: blkmov, memclr, memcpy, memmove, memset, on memory as a function from addresses to
-- bytes. A pointer is its address, and a loop runs over the count of bytes or words left.
pub mod Moves
use os.Base.{
  ℕ, zero, suc, ◌+◌, ◌-◌, ◌*◌, ◌/◌, ◌%◌, Bool, true, false, not, ◌&&◌, ◌||◌, ltb, leb, ◌==◌,
  if◌then◌else◌,
}

abbrev pub Memory : Type 0
Memory = ℕ → ℕ

abbrev pub write : Memory → ℕ → ℕ → Memory
write mem a v b = if b == a then v else mem b

-- `while( len-- ) *dest++ = *source++;`
pub copy_up : ℕ → ℕ → ℕ → Memory → Memory
copy_up zero dest source mem = mem
copy_up (suc len) dest source mem =
    copy_up len (dest + 1) (source + 1) (write mem dest (mem source))

-- `while( len-- > 0 ) *--dest = *--source;`, with the pointers `len` behind `dst` and `src`.
pub copy_down : ℕ → ℕ → ℕ → Memory → Memory
copy_down zero dst src mem = mem
copy_down (suc len) dst src mem = copy_down len dst src (write mem (dst + len) (mem (src + len)))

pub memcpy : ℕ → ℕ → ℕ → Memory → Memory
unfolding copy_up
memcpy dst src len = copy_up len dst src

pub memmove : ℕ → ℕ → ℕ → Memory → Memory
unfolding copy_up copy_down
memmove dst src len mem =
    if ltb src dst && ltb dst (src + len)
    then copy_down len dst src mem
    else copy_up len dst src mem

-- A 32-bit word is moved: four bytes are read, then written.
abbrev pub write_word : Memory → ℕ → ℕ → Memory
write_word mem dest source b =
    if leb dest b && ltb b (dest + 4) then mem (source + (b - dest)) else mem b

pub words_up : ℕ → ℕ → ℕ → Memory → Memory
words_up zero dest source mem = mem
words_up (suc len) dest source mem =
    words_up len (dest + 4) (source + 4) (write_word mem dest source)

pub words_down : ℕ → ℕ → ℕ → Memory → Memory
words_down zero dst src mem = mem
words_down (suc len) dst src mem =
    words_down len dst src (write_word mem (dst + 4 * len) (src + 4 * len))

pub blkmov : ℕ → ℕ → ℕ → Memory → Memory
unfolding memmove words_up words_down
blkmov dst src len mem =
    if not (dst % 4 == 0) || (not (src % 4 == 0) || not (len % 4 == 0))
    then memmove dst src len mem
    else if ltb src dst && ltb dst (src + 4 * (len / 4))
    then words_down (len / 4) dst src mem
    else words_up (len / 4) dst src mem

pub memclr : ℕ → ℕ → Memory → Memory
memclr dest zero mem = mem
memclr dest (suc len) mem = memclr (dest + 1) len (write mem dest 0)

-- The value is cut to a byte.
pub memset : ℕ → ℕ → ℕ → Memory → Memory
memset bp zero value mem = mem
memset bp (suc len) value mem = memset (bp + 1) len value (write mem bp (value % 256))

pub bound : ℕ → ℕ → ℕ → ℕ
bound min value max =
    let value = if ltb value min then min else value in if ltb max value then max else value
