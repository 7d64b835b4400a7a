-- ===== src/Loader/Start.antt =====
-- What stack_setup leaves for a program to start from.
use mathlib.Core.Path.{subst}
use os.Base.{
  ℕ, zero, suc, ◌+◌, ◌-◌, ◌*◌, ◌%◌, ◌≤◌, ◌<◌, ◌≡◌, refl, ap, ◌∙◌, ◌⊎◌, inl, inr, true, false,
  Option, none, some, List, [], ◌∷◌, ◌++◌, arith, length, length-append, Bool-cases, ltb,
  if◌then◌else◌,
}
use os.Klib.Blocks.{Memory}
use os.Loader.{
  collect, image, offsets, argstrings, zeros, round_up, put_bytes, put_word, put_argv, put_words,
  context_words, down, build, stack_setup, buffer_at, strings_at, argc_at, stack_bytes,
  default_eflags, gdt_code, gdt_data, gdt_stack, page,
}
use os.Loader.Words.{
  get_word, Kept, get_word-later, get_word-put_word, put_bytes-above, put_bytes-below,
  put_word-above, put_word-below, put_words-above, put_words-below, Within, Misses,
  get_word-put_words,
}
use os.Loader.Argv.{
  ArgvAt, StringsAt, put_bytes-StringsAt, StringsAt-Kept, put_argv-below, put_argv-above,
  put_argv-PointersAt, PointersAt-Kept, ArgvAt-offsets, length-offsets,
}

-- The longest front part of the arguments whose strings, with their NULs, need `room` bytes at most.
abbrev pub fitting : ℕ → List (List ℕ) → List (List ℕ)
fitting room [] = []
fitting room (s ∷ ss) =
    if ltb room (length s + 1) then [] else s ∷ fitting (room - (length s + 1)) ss

length-fitting : (room : ℕ) (ss : List (List ℕ)) → length (fitting room ss) ≤ length ss
length-fitting room [] = omega arith
length-fitting room (s ∷ ss) = ground (arith, length-fitting (room - (length s + 1)) ss)

image-fitting : (room : ℕ) (ss : List (List ℕ)) → length (image (fitting room ss)) ≤ room
unfolding image
image-fitting room [] = omega arith
image-fitting room (s ∷ ss) = ground (
  arith,
  image-fitting (room - (length s + 1)) ss,
  length-append s (0 ∷ image (fitting (room - (length s + 1)) ss)),
)

collect-fitting :
    (argc room : ℕ) (args : List (List ℕ))
    → argc + length args ≤ 10
    → room ≤ page
    → collect argc (page - room) args ≡ some (fitting room args)
unfolding collect
collect-fitting argc room [] few le = refl
collect-fitting argc room (s ∷ ss) few le = elim (Bool-cases (ltb room (length s + 1))) [
  | inl over ↦
      let e0 : ltb argc 10 ≡ true = ground arith in
      let e1 : ltb page (page - room + (length s + 1)) ≡ true = ground arith in rw (e0, e1, over)
  | inr fits ↦
      let e0 : ltb argc 10 ≡ true = ground arith in
      let e1 : ltb page (page - room + (length s + 1)) ≡ false = ground arith in
      let e2 : page - room + (length s + 1) ≡ page - (room - (length s + 1)) = ground arith in
      rw (
        e0,
        e1,
        fits,
        ap (λ n. collect (argc + 1) n ss) e2,
        collect-fitting (argc + 1) (room - (length s + 1)) ss (omega arith) (omega arith),
      )
]

-- The memory that a program starts from, with its context at `c`.
pub record Started (stack entry fake_exit : ℕ) (ss : List (List ℕ)) (mem : Memory) (c : ℕ)
    (m : Memory) : Type 0 where
  pub inside : stack ≤ c
  pub aligned : (c + 76) % 16 ≡ 0
  pub eip : get_word m (c + 60) ≡ entry
  pub cs : get_word m (c + 64) ≡ gdt_code
  pub eflags : get_word m (c + 68) ≡ default_eflags
  pub return_to : get_word m (c + 72) ≡ fake_exit
  pub argc : get_word m (c + 76) ≡ length ss
  pub argv : get_word m (c + 80) ≡ c + 84
  pub args : ArgvAt m (c + 84) ss
  pub spared : (b : ℕ) → (b < stack) ⊎ (stack + stack_bytes ≤ b) → m b ≡ mem b

context_Within : (entry : ℕ) → Within 72 (context_words entry)
context_Within entry = (
  omega arith,
  (
    omega arith,
    (omega arith, (omega arith, (omega arith, (omega arith, (omega arith, (omega arith, tt)))))),
  ),
)

-- The memory that is left, whatever the addresses of the buffer, the strings and the context are.
module _ (stack entry fake_exit c strings buffer : ℕ) (ss : List (List ℕ)) (rest : List ℕ)
    (mem : Memory) (inside : stack ≤ c) (below : c + 84 + 4 * (length ss + 1) ≤ strings)
    (upto : strings + length (image ss ++ rest) ≤ buffer) (top : buffer + 4 ≤ stack + stack_bytes)
    (small : stack + stack_bytes < 0x1_0000_0000) (entry_small : entry < 0x1_0000_0000)
    (exit_small : fake_exit < 0x1_0000_0000) (aligned : (c + 76) % 16 ≡ 0) where
  abbrev m1 : Memory
  m1 = put_bytes strings (image ss ++ rest) (put_word buffer 0 mem)

  abbrev m2 : Memory
  m2 = put_word (c + 80) (c + 84) (put_word (c + 76) (length ss) m1)

  abbrev m3 : Memory
  m3 = put_argv (c + 84) strings (offsets 0 ss) m2

  abbrev m4 : Memory
  m4 = put_word (c + 72) fake_exit m3

  abbrev m5 : Memory
  m5 = put_words c (context_words entry) m4

  after_argv : Kept (c + 76) (stack + stack_bytes) m3 m5
  after_argv b lo hi =
      put_words-above c 72 (context_words entry) m4 b (context_Within entry) (omega arith)
      ∙ put_word-above (c + 72) fake_exit m3 b (omega arith)

  before_argv : Kept (c + 76) (c + 84) m2 m5
  before_argv b lo hi =
      after_argv b lo (omega arith)
      ∙ put_argv-below (c + 84) strings (offsets 0 ss) m2 b (omega arith)

  after_strings : Kept strings (stack + stack_bytes) m1 m5
  after_strings b lo hi =
      after_argv b (omega arith) hi
      ∙ put_argv-above (c + 84) strings (offsets 0 ss) m2 b (omega (arith, length-offsets 0 ss))
      ∙ put_word-above (c + 80) (c + 84) _ b (omega arith)
      ∙ put_word-above (c + 76) (length ss) m1 b (omega arith)

  context_word :
      (a v : ℕ) (m : Memory) (ws : List (ℕ × ℕ))
      → m5 ≡ put_words c ws (put_word (c + a) v m)
      → Misses a ws
      → v < 0x1_0000_0000
      → get_word m5 (c + a) ≡ v
  context_word a v m ws e miss lt =
      ap (λ n. get_word n (c + a)) e
      ∙ get_word-put_words c a ws _ miss
      ∙ get_word-put_word (c + a) v m lt

  outside : (b : ℕ) → (b < stack) ⊎ (stack + stack_bytes ≤ b) → m5 b ≡ mem b
  outside b (inl lo) =
      put_words-below c (context_words entry) m4 b (omega arith)
      ∙ put_word-below (c + 72) fake_exit m3 b (omega arith)
      ∙ put_argv-below (c + 84) strings (offsets 0 ss) m2 b (omega arith)
      ∙ put_word-below (c + 80) (c + 84) _ b (omega arith)
      ∙ put_word-below (c + 76) (length ss) m1 b (omega arith)
      ∙ put_bytes-below strings (image ss ++ rest) _ b (omega arith)
      ∙ put_word-below buffer 0 mem b (omega arith)
  outside b (inr hi) =
      put_words-above c 72 (context_words entry) m4 b (context_Within entry) (omega arith)
      ∙ put_word-above (c + 72) fake_exit m3 b (omega arith)
      ∙ put_argv-above (c + 84) strings (offsets 0 ss) m2 b (omega (arith, length-offsets 0 ss))
      ∙ put_word-above (c + 80) (c + 84) _ b (omega arith)
      ∙ put_word-above (c + 76) (length ss) m1 b (omega arith)
      ∙ put_bytes-above strings (image ss ++ rest) _ b (omega arith)
      ∙ put_word-above buffer 0 mem b (omega arith)

  pub m5-Started : Started stack entry fake_exit ss mem c m5
  unfolding put_words
  m5-Started = record {
    inside = inside;
    aligned = aligned;
    eip =
        context_word 60 entry _
          ((64, gdt_code)
            ∷ (0, gdt_stack)
            ∷ (4, gdt_data)
            ∷ (8, gdt_data)
            ∷ (12, gdt_data)
            ∷ (16, gdt_data)
            ∷ [])
          refl
          (
            inl (omega arith),
            (
              inr (omega arith),
              (
                inr (omega arith),
                (inr (omega arith), (inr (omega arith), (inr (omega arith), tt))),
              ),
            ),
          )
          entry_small;
    cs =
        context_word 64 gdt_code _
          ((0, gdt_stack) ∷ (4, gdt_data) ∷ (8, gdt_data) ∷ (12, gdt_data) ∷ (16, gdt_data) ∷ [])
          refl
          (
            inr (omega arith),
            (inr (omega arith), (inr (omega arith), (inr (omega arith), (inr (omega arith), tt)))),
          )
          (omega arith);
    eflags =
        context_word 68 default_eflags _
          ((60, entry)
            ∷ (64, gdt_code)
            ∷ (0, gdt_stack)
            ∷ (4, gdt_data)
            ∷ (8, gdt_data)
            ∷ (12, gdt_data)
            ∷ (16, gdt_data)
            ∷ [])
          refl
          (
            inr (omega arith),
            (
              inr (omega arith),
              (
                inr (omega arith),
                (
                  inr (omega arith),
                  (inr (omega arith), (inr (omega arith), (inr (omega arith), tt))),
                ),
              ),
            ),
          )
          (omega arith);
    return_to =
        get_word-later (c + 72) (c + 76) (c + 72) fake_exit m3 m5
          (λ b lo hi. put_words-above c 72 (context_words entry) m4 b (context_Within entry) lo)
          exit_small (omega arith) (omega arith);
    argc =
        get_word-later (c + 76) (c + 80) (c + 76) (length ss) m1 m5
          (λ b lo hi.
            before_argv b lo (omega arith)
            ∙ put_word-below (c + 80) (c + 84) (put_word (c + 76) (length ss) m1) b hi)
          (omega arith) (omega arith) (omega arith);
    argv =
        get_word-later (c + 80) (c + 84) (c + 80) (c + 84) _ m5
          (λ b lo hi. before_argv b (omega arith) hi) (omega arith) (omega arith) (omega arith);
    args =
        ArgvAt-offsets m5 (c + 84) strings 0 ss
          (PointersAt-Kept (c + 76) (stack + stack_bytes) (c + 84) strings (offsets 0 ss) m3 m5
            after_argv (omega arith) (omega (arith, length-offsets 0 ss))
            (put_argv-PointersAt (c + 84) strings (offsets 0 ss) m2))
          (StringsAt-Kept strings (stack + stack_bytes) (strings + 0) ss m1 m5 after_strings
            (omega arith) (omega (arith, length-append (image ss) rest))
            (subst (λ a. StringsAt m1 a ss) (omega arith) (put_bytes-StringsAt strings ss rest _)))
          (omega arith) (omega (arith, length-append (image ss) rest));
    spared = outside;
  }

length-zeros : (n : ℕ) → length (zeros n) ≡ n
length-zeros zero = refl
length-zeros (suc n) = ap suc (length-zeros n)

length-argstrings : (ss : List (List ℕ)) → length (argstrings ss) ≡ round_up (length (image ss))
unfolding argstrings
length-argstrings ss =
    length-append (image ss) _ ∙ ap (λ n. length (image ss) + n) (length-zeros _) ∙ omega arith

buffer_at_lem : (stack : ℕ) → stack + stack_bytes < 0x1_0000_0000 → buffer_at stack ≡ stack + 8188
unfolding buffer_at
buffer_at_lem stack small = omega arith

strings_at-bounds :
    (stack n : ℕ)
    → stack + stack_bytes < 0x1_0000_0000
    → n ≤ page
    → (strings_at stack n + n ≤ stack + 8188) × (stack + 8188 ≤ strings_at stack n + n + 3)
unfolding strings_at buffer_at
strings_at-bounds stack n small le = (omega arith, omega arith)

argc_at-bounds :
    (strings n : ℕ)
    → 4 * (n + 3) ≤ strings
    → strings < 0x1_0000_0000
    → (argc_at strings n + 4 * (n + 3) ≤ strings)
      × (strings ≤ argc_at strings n + 4 * (n + 3) + 15)
      × (argc_at strings n % 16 ≡ 0)
unfolding argc_at
argc_at-bounds strings n room small = (omega arith, omega arith, omega arith)

module _ (stack entry fake_exit : ℕ) (ss : List (List ℕ)) (mem : Memory) (few : length ss ≤ 10)
    (fits : length (image ss) ≤ page) (small : stack + stack_bytes < 0x1_0000_0000)
    (entry_small : entry < 0x1_0000_0000) (exit_small : fake_exit < 0x1_0000_0000) where
  abbrev pub BuildResult : ℕ × Memory → Type 0
  BuildResult (c, m) = Started stack entry fake_exit ss mem c m

  assembled :
      (c ac strings buffer : ℕ) (rest : List ℕ)
      → ac ≡ c + 76
      → stack ≤ c
      → c + 84 + 4 * (length ss + 1) ≤ strings
      → strings + length (image ss ++ rest) ≤ buffer
      → buffer + 4 ≤ stack + stack_bytes
      → ac % 16 ≡ 0
      → BuildResult (
        down (down ac 4) 72,
        put_words (down (down ac 4) 72) (context_words entry) (
            put_word (down ac 4) fake_exit (
              put_argv (ac + 8) strings (offsets 0 ss) (
                put_word (ac + 4) (ac + 8) (
                  put_word ac
                    (length ss)
                    (put_bytes strings (image ss ++ rest) (put_word buffer 0 mem)))))),
      )
  assembled c ac strings buffer rest e inside below upto top aligned =
      let d4 : down (c + 76) 4 ≡ c + 72 = omega arith in
      let d72 : down (c + 72) 72 ≡ c = omega arith in
      let p8 : c + 76 + 8 ≡ c + 84 = omega arith in
      let p4 : c + 76 + 4 ≡ c + 80 = omega arith in
      rw (e, d4, d72, p8, p4)
        (m5-Started stack entry fake_exit c strings buffer ss rest mem inside below upto top small
          entry_small exit_small (subst (λ a. a % 16 ≡ 0) e aligned))

  build_lem : BuildResult (build stack entry fake_exit ss mem)
  unfolding build argstrings
  build_lem =
      let chars = argstrings ss in
      let le = length-argstrings ss in
      let strings = strings_at stack (length chars) in
      let (s1, s2) = strings_at-bounds stack (length chars) small (omega arith) in
      let ac = argc_at strings (length ss) in
      let (a1, a2, a3) = argc_at-bounds strings (length ss) (omega arith) (omega arith) in
      let b = buffer_at_lem stack small in
      assembled (ac - 76) ac strings (buffer_at stack) _ (omega arith) (omega arith) (omega arith)
        (omega arith) (omega arith) a3

abbrev pub StartResult : ℕ → ℕ → ℕ → List (List ℕ) → Memory → Option (ℕ × Memory) → Type 0
StartResult stack entry fake_exit ss mem none = ⊥
StartResult stack entry fake_exit ss mem (some (c, m)) = Started stack entry fake_exit ss mem c m

-- For a stack of two pages and at most ten arguments, stack_setup succeeds. With the context at the
-- address it returns, a program that starts from it at `entry` finds its argument count at an
-- address that is a multiple of 16, the return address fake_exit below that, and a pointer to its
-- argument vector above that: non-NULL pointers to the strings, each with its NUL, of the longest
-- front part of the arguments that fits in a page, and a NULL behind them. The context is inside
-- the stack, and no byte outside the stack has changed.
pub stack_setup_lem :
    (stack entry fake_exit : ℕ) (args : List (List ℕ)) (mem : Memory)
    → length args ≤ 10
    → stack + stack_bytes < 0x1_0000_0000
    → entry < 0x1_0000_0000
    → fake_exit < 0x1_0000_0000
    → StartResult stack entry fake_exit
        (fitting page args)
        mem
        (stack_setup stack entry fake_exit args mem)
unfolding stack_setup
stack_setup_lem stack entry fake_exit args mem few small entry_small exit_small =
    rw (collect-fitting 0 page args (omega arith) (omega arith), StartResult)
      (build_lem stack entry fake_exit (fitting page args) mem
        (omega (arith, length-fitting page args, few)) (image-fitting page args) small entry_small
        exit_small)
