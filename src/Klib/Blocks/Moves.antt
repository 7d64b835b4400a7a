-- ===== src/Klib/Blocks/Moves.antt =====
-- The block routines against what they are to leave at each address.
use os.Base.{
  ℕ, zero, suc, ◌+◌, ◌-◌, ◌*◌, ◌/◌, ◌%◌, ◌≤◌, ◌<◌, ◌≡◌, ◌⊎◌, not, ◌&&◌, ◌||◌, ltb, leb, ◌==◌,
  if◌then◌else◌, arith, Bool-cases, inl, inr, ◌∙◌, ap,
}
use os.Klib.Blocks.{
  Memory, write, copy_up, copy_down, memcpy, memmove, write_word, words_up, words_down, blkmov,
  memclr, memset, bound,
}

-- The memory after `len` bytes from `src` on have been moved to `dst`, all at once.
abbrev pub moved : ℕ → ℕ → ℕ → Memory → ℕ → ℕ
moved dst src len mem a = if leb dst a && ltb a (dst + len) then mem (src + (a - dst)) else mem a

module _ (a : ℕ) where
  copy_up_lem :
      (len dst src : ℕ) (mem : Memory)
      → (dst ≤ src) ⊎ (src + len ≤ dst)
      → copy_up len dst src mem a ≡ moved dst src len mem a
  unfolding copy_up
  copy_up_lem zero dst src mem h = ground arith
  copy_up_lem (suc len) dst src mem h =
      copy_up_lem len (dst + 1) (src + 1) (write mem dst (mem src)) (omega arith) ∙ ground arith

  copy_down_lem :
      (len dst src : ℕ) (mem : Memory)
      → src ≤ dst
      → copy_down len dst src mem a ≡ moved dst src len mem a
  unfolding copy_down
  copy_down_lem zero dst src mem h = ground arith
  copy_down_lem (suc len) dst src mem h =
      copy_down_lem len dst src (write mem (dst + len) (mem (src + len))) h ∙ ground arith

  words_up_lem :
      (len dst src : ℕ) (mem : Memory)
      → (dst ≤ src) ⊎ (src + 4 * len ≤ dst)
      → words_up len dst src mem a ≡ moved dst src (4 * len) mem a
  unfolding words_up
  words_up_lem zero dst src mem h = ground arith
  words_up_lem (suc len) dst src mem h =
      words_up_lem len (dst + 4) (src + 4) (write_word mem dst src) (omega arith) ∙ ground arith

  words_down_lem :
      (len dst src : ℕ) (mem : Memory)
      → src + 4 ≤ dst
      → words_down len dst src mem a ≡ moved dst src (4 * len) mem a
  unfolding words_down
  words_down_lem zero dst src mem h = ground arith
  words_down_lem (suc len) dst src mem h =
      words_down_lem len dst src (write_word mem (dst + 4 * len) (src + 4 * len)) h ∙ ground arith

-- memmove moves the block as if all at once, however the two areas overlap, and changes no byte
-- outside the destination.
pub memmove-moved :
    (dst src len a : ℕ) (mem : Memory) → memmove dst src len mem a ≡ moved dst src len mem a
unfolding memmove
memmove-moved dst src len a mem = elim (Bool-cases (ltb src dst && ltb dst (src + len))) [
  | inl e ↦ rw e (copy_down_lem a len dst src mem (ground arith))
  | inr e ↦ rw e (copy_up_lem a len dst src mem (ground arith))
]

-- memcpy does the same where the areas do not overlap, or the destination is the lower one.
pub memcpy-moved :
    (dst src len a : ℕ) (mem : Memory)
    → (dst ≤ src) ⊎ (src + len ≤ dst)
    → memcpy dst src len mem a ≡ moved dst src len mem a
unfolding memcpy
memcpy-moved dst src len a mem h = copy_up_lem a len dst src mem h

-- blkmov leaves the memory that memmove leaves, on aligned blocks, which it moves by words, and on
-- all others.
pub blkmov-memmove :
    (dst src len a : ℕ) (mem : Memory) → blkmov dst src len mem a ≡ memmove dst src len mem a
unfolding blkmov
blkmov-memmove dst src len a mem =
    elim (Bool-cases (not (dst % 4 == 0) || (not (src % 4 == 0) || not (len % 4 == 0)))) [
      | inl e ↦ rw e
      | inr e ↦
          rw (e, memmove-moved dst src len a mem)
            (whole (ground arith) (ground arith) (ground arith))
    ]
  where
    whole :
        dst % 4 ≡ 0
        → src % 4 ≡ 0
        → len % 4 ≡ 0
        → (if ltb src dst && ltb dst (src + 4 * (len / 4))
              then words_down (len / 4) dst src mem
              else words_up (len / 4) dst src mem)
            a
          ≡ moved dst src len mem a
    whole d s l =
        let e : 4 * (len / 4) ≡ len = omega arith in
        elim (Bool-cases (ltb src dst && ltb dst (src + 4 * (len / 4)))) [
          | inl t ↦ rw t (
              words_down_lem a (len / 4) dst src mem (ground arith)
              ∙ ap (λ n. moved dst src n mem a) e)
          | inr t ↦ rw t (
              words_up_lem a (len / 4) dst src mem (ground arith)
              ∙ ap (λ n. moved dst src n mem a) e)
        ]

-- memclr zeroes exactly the bytes of the block.
pub memclr_lem :
    (dest len a : ℕ) (mem : Memory)
    → memclr dest len mem a ≡ (if leb dest a && ltb a (dest + len) then 0 else mem a)
unfolding memclr
memclr_lem dest zero a mem = ground arith
memclr_lem dest (suc len) a mem = memclr_lem (dest + 1) len a (write mem dest 0) ∙ ground arith

-- memset fills exactly the bytes of the block with the low byte of the value.
pub memset_lem :
    (bp len value a : ℕ) (mem : Memory)
    → memset bp len value mem a ≡ (if leb bp a && ltb a (bp + len) then value % 256 else mem a)
unfolding memset
memset_lem bp zero value a mem = ground arith
memset_lem bp (suc len) value a mem =
    memset_lem (bp + 1) len value a (write mem bp (value % 256)) ∙ ground arith

-- bound returns the value if it lies between the limits, else the nearer limit; with the limits in
-- order the result lies between them.
pub bound_lem :
    (min value max : ℕ)
    → min ≤ max
    → (min ≤ bound min value max)
      × (bound min value max ≤ max)
      × ((bound min value max ≡ value) ⊎ ((value < min) ⊎ (max < value)))
unfolding bound
bound_lem min value max h = ground arith
