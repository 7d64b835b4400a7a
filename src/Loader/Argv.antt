-- ===== src/Loader/Argv.antt =====
-- The argument vector that stack_setup leaves: pointers to strings.
use mathlib.Core.Path.{subst}
use os.Base.{
  ℕ, ◌+◌, ◌*◌, ◌%◌, ◌≤◌, ◌<◌, ◌≡◌, refl, sym, ap, ◌∙◌, false, List, [], ◌∷◌, ◌++◌, append_assoc,
  arith, length, length-append, span, ◌==◌,
}
use os.Klib.Blocks.{Memory, write}
use os.Loader.{put_bytes, put_word, put_argv, image, offsets}
use os.Loader.Words.{
  get_word, Kept, get_word-later, get_word-Kept, span-Kept, put_bytes-below, span-put_bytes,
  put_word-above, put_word-below,
}

-- From `p` on are pointers to the strings, each with its NUL, and then a NULL.
abbrev pub ArgvAt : Memory → ℕ → List (List ℕ) → Type 0
ArgvAt m p [] = get_word m p ≡ 0
ArgvAt m p (s ∷ ss) =
    ((get_word m p == 0) ≡ false)
    × (span m (get_word m p) (length s + 1) ≡ s ++ 0 ∷ [])
    × ArgvAt m (p + 4) ss

-- From `a` on are the strings, each with its NUL.
abbrev pub StringsAt : Memory → ℕ → List (List ℕ) → Type 0
StringsAt m a [] = Unit {0}
StringsAt m a (s ∷ ss) =
    (span m a (length s + 1) ≡ s ++ 0 ∷ []) × StringsAt m (a + (length s + 1)) ss

abbrev pub PointersAt : Memory → ℕ → ℕ → List ℕ → Type 0
PointersAt m p strings [] = get_word m p ≡ 0
PointersAt m p strings (o ∷ os) =
    (get_word m p ≡ (strings + o) % 0x1_0000_0000) × PointersAt m (p + 4) strings os

pub put_bytes-append :
    (a : ℕ) (xs ys : List ℕ) (m : Memory)
    → put_bytes a (xs ++ ys) m ≡ put_bytes (a + length xs) ys (put_bytes a xs m)
unfolding put_bytes
put_bytes-append a [] ys m = ap (λ b. put_bytes b ys m) (omega arith)
put_bytes-append a (x ∷ xs) ys m =
    put_bytes-append (a + 1) xs ys (write m a x)
    ∙ ap (λ b. put_bytes b ys (put_bytes (a + 1) xs (write m a x))) (omega arith)

pub put_bytes-StringsAt :
    (a : ℕ) (ss : List (List ℕ)) (rest : List ℕ) (m : Memory)
    → StringsAt (put_bytes a (image ss ++ rest) m) a ss
unfolding image
put_bytes-StringsAt a [] rest m = tt
put_bytes-StringsAt a (s ∷ ss) rest m =
    let n = length s + 1 in
    let le : length (s ++ 0 ∷ []) ≡ n = omega (arith, length-append s (0 ∷ [])) in
    let m1 = put_bytes a (s ++ 0 ∷ []) m in
    let e : put_bytes a ((s ++ 0 ∷ image ss) ++ rest) m ≡ put_bytes (a + n) (image ss ++ rest) m1 =
      ap (λ l. put_bytes a l m)
        (append_assoc s (0 ∷ image ss) rest ∙ sym (append_assoc s (0 ∷ []) (image ss ++ rest)))
      ∙ put_bytes-append a (s ++ 0 ∷ []) (image ss ++ rest) m
      ∙ ap (λ k. put_bytes (a + k) (image ss ++ rest) m1) le in
    subst (λ c. StringsAt c a (s ∷ ss)) (sym e)
      (
        span-Kept a (a + n) a n m1 (put_bytes (a + n) (image ss ++ rest) m1)
              (λ b lo hi. put_bytes-below (a + n) (image ss ++ rest) m1 b hi) (omega arith)
              (omega arith)
            ∙ ap (λ k. span m1 a k) (sym le)
            ∙ span-put_bytes a (s ++ 0 ∷ []) m,
        put_bytes-StringsAt (a + n) ss rest m1,
      )

pub StringsAt-Kept :
    (lo hi a : ℕ) (ss : List (List ℕ)) (m m' : Memory)
    → Kept lo hi m m'
    → lo ≤ a
    → a + length (image ss) ≤ hi
    → StringsAt m a ss
    → StringsAt m' a ss
unfolding image
StringsAt-Kept lo hi a [] m m' k above below d = tt
StringsAt-Kept lo hi a (s ∷ ss) m m' k above below d =
    let e = length-append s (0 ∷ image ss) in
    (
      span-Kept lo hi a (length s + 1) m m' k above (omega arith) ∙ d.0,
      StringsAt-Kept lo hi (a + (length s + 1)) ss m m' k (omega arith) (omega arith) d.1,
    )

pub put_argv-below :
    (p strings : ℕ) (os : List ℕ) (m : Memory) (b : ℕ) → b < p → put_argv p strings os m b ≡ m b
unfolding put_argv
put_argv-below p strings [] m b far = put_word-below p 0 m b far
put_argv-below p strings (o ∷ os) m b far =
    put_argv-below (p + 4) strings os _ b (omega arith) ∙ put_word-below p _ m b far

pub put_argv-above :
    (p strings : ℕ) (os : List ℕ) (m : Memory) (b : ℕ)
    → p + 4 * (length os + 1) ≤ b
    → put_argv p strings os m b ≡ m b
unfolding put_argv
put_argv-above p strings [] m b far = put_word-above p 0 m b (omega arith)
put_argv-above p strings (o ∷ os) m b far =
    put_argv-above (p + 4) strings os _ b (omega arith) ∙ put_word-above p _ m b (omega arith)

pub put_argv-PointersAt :
    (p strings : ℕ) (os : List ℕ) (m : Memory) → PointersAt (put_argv p strings os m) p strings os
unfolding put_argv
put_argv-PointersAt p strings [] m =
    get_word-later p (p + 4) p 0 m (put_word p 0 m) (λ b lo hi. refl) (omega arith) (omega arith)
      (omega arith)
put_argv-PointersAt p strings (o ∷ os) m = (
  get_word-later p (p + 4) p ((strings + o) % 0x1_0000_0000) m _
      (λ b lo hi. put_argv-below (p + 4) strings os _ b hi) (omega arith) (omega arith)
      (omega arith),
  put_argv-PointersAt (p + 4) strings os _,
)

pub PointersAt-Kept :
    (lo hi p strings : ℕ) (os : List ℕ) (m m' : Memory)
    → Kept lo hi m m'
    → lo ≤ p
    → p + 4 * (length os + 1) ≤ hi
    → PointersAt m p strings os
    → PointersAt m' p strings os
PointersAt-Kept lo hi p strings [] m m' k above below d =
    get_word-Kept lo hi p m m' k above (omega arith) ∙ d
PointersAt-Kept lo hi p strings (o ∷ os) m m' k above below d = (
  get_word-Kept lo hi p m m' k above (omega arith) ∙ d.0,
  PointersAt-Kept lo hi (p + 4) strings os m m' k (omega arith) (omega arith) d.1,
)

-- Pointers at the offsets of the strings.
pub ArgvAt-offsets :
    (m : Memory) (p strings o : ℕ) (ss : List (List ℕ))
    → PointersAt m p strings (offsets o ss)
    → StringsAt m (strings + o) ss
    → 0 < strings
    → strings + o + length (image ss) < 0x1_0000_0000
    → ArgvAt m p ss
unfolding offsets image
ArgvAt-offsets m p strings o [] d s pos small = d
ArgvAt-offsets m p strings o (x ∷ ss) d s pos small =
    let le = length-append x (0 ∷ image ss) in
    let e : get_word m p ≡ strings + o = d.0 ∙ omega arith in
    (
      ground arith,
      ap (λ a. span m a (length x + 1)) e ∙ s.0,
      ArgvAt-offsets m (p + 4) strings (o + (length x + 1)) ss d.1
          (subst (λ a. StringsAt m a ss) (omega arith) s.1) pos (omega arith),
    )

pub length-offsets : (o : ℕ) (ss : List (List ℕ)) → length (offsets o ss) ≡ length ss
unfolding offsets
length-offsets o [] = refl
length-offsets o (s ∷ ss) = omega (arith, length-offsets (o + (length s + 1)) ss)
