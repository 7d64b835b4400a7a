-- ===== src/Loader/Words.antt =====
-- Words and bytes of memory: what a write leaves, and what it leaves alone.
use os.Base.{
  ℕ, ◌+◌, ◌*◌, ◌≤◌, ◌<◌, ◌≡◌, refl, ap₂, ◌∙◌, ◌⊎◌, inl, inr, List, [], ◌∷◌, arith, length, span,
  span_same,
}
use os.Klib.Blocks.{Memory, write}
use os.Loader.{put_bytes, put_word, put_words}

-- The word at an address.
unfoldable pub get_word : Memory → ℕ → ℕ
get_word mem a = mem a + 256 * mem (a + 1) + 0x1_0000 * mem (a + 2) + 0x100_0000 * mem (a + 3)

-- Memory is the same from `lo` up to `hi`.
abbrev pub Kept : ℕ → ℕ → Memory → Memory → Type 0
Kept lo hi m m' = (b : ℕ) → lo ≤ b → b < hi → m' b ≡ m b

pub get_word-Kept :
    (lo hi a : ℕ) (m m' : Memory)
    → Kept lo hi m m'
    → lo ≤ a
    → a + 4 ≤ hi
    → get_word m' a ≡ get_word m a
unfolding get_word
get_word-Kept lo hi a m m' k above below =
    let e0 = k a above (omega arith) in
    let e1 = k (a + 1) (omega arith) (omega arith) in
    let e2 = k (a + 2) (omega arith) (omega arith) in
    let e3 = k (a + 3) (omega arith) (omega arith) in rw (e0, e1, e2, e3)

pub span-Kept :
    (lo hi a n : ℕ) (m m' : Memory)
    → Kept lo hi m m'
    → lo ≤ a
    → a + n ≤ hi
    → span m' a n ≡ span m a n
span-Kept lo hi a n m m' k above below =
    span_same n m' m a a (λ i lt. k (a + i) (omega arith) (omega arith))

pub put_bytes-above :
    (a : ℕ) (xs : List ℕ) (mem : Memory) (b : ℕ) → a + length xs ≤ b → put_bytes a xs mem b ≡ mem b
unfolding put_bytes
put_bytes-above a [] mem b far = refl
put_bytes-above a (x ∷ xs) mem b far =
    put_bytes-above (a + 1) xs (write mem a x) b (omega arith) ∙ ground arith

pub put_bytes-below :
    (a : ℕ) (xs : List ℕ) (mem : Memory) (b : ℕ) → b < a → put_bytes a xs mem b ≡ mem b
unfolding put_bytes
put_bytes-below a [] mem b far = refl
put_bytes-below a (x ∷ xs) mem b far =
    put_bytes-below (a + 1) xs (write mem a x) b (omega arith) ∙ ground arith

pub span-put_bytes :
    (a : ℕ) (xs : List ℕ) (mem : Memory) → span (put_bytes a xs mem) a (length xs) ≡ xs
unfolding put_bytes
span-put_bytes a [] mem = refl
span-put_bytes a (x ∷ xs) mem =
    ap₂ (λ y ys. y ∷ ys) (put_bytes-below (a + 1) xs (write mem a x) a (omega arith) ∙ ground arith)
      (span-put_bytes (a + 1) xs (write mem a x))

pub put_word-above : (a v : ℕ) (mem : Memory) (b : ℕ) → a + 4 ≤ b → put_word a v mem b ≡ mem b
unfolding put_word
put_word-above a v mem b far = ground arith

pub put_word-below : (a v : ℕ) (mem : Memory) (b : ℕ) → b < a → put_word a v mem b ≡ mem b
unfolding put_word
put_word-below a v mem b far = ground arith

pub get_word-put_word :
    (a v : ℕ) (mem : Memory) → v < 0x1_0000_0000 → get_word (put_word a v mem) a ≡ v
unfolding get_word put_word
get_word-put_word a v mem small = ground arith

-- A word that is written and then left alone.
pub get_word-later :
    (lo hi a v : ℕ) (mem m' : Memory)
    → Kept lo hi (put_word a v mem) m'
    → v < 0x1_0000_0000
    → lo ≤ a
    → a + 4 ≤ hi
    → get_word m' a ≡ v
get_word-later lo hi a v mem m' k small above below =
    get_word-Kept lo hi a (put_word a v mem) m' k above below ∙ get_word-put_word a v mem small

-- Every store is in the `n` bytes from the base on.
abbrev pub Within : ℕ → List (ℕ × ℕ) → Type 0
Within n [] = Unit {0}
Within n ((o, v) ∷ ws) = (o + 4 ≤ n) × Within n ws

pub put_words-above :
    (c n : ℕ) (ws : List (ℕ × ℕ)) (m : Memory) (b : ℕ)
    → Within n ws
    → c + n ≤ b
    → put_words c ws m b ≡ m b
unfolding put_words
put_words-above c n [] m b w far = refl
put_words-above c n ((o, v) ∷ ws) m b w far =
    put_words-above c n ws _ b w.1 far ∙ put_word-above (c + o) v m b (omega (arith, w.0))

pub put_words-below :
    (c : ℕ) (ws : List (ℕ × ℕ)) (m : Memory) (b : ℕ) → b < c → put_words c ws m b ≡ m b
unfolding put_words
put_words-below c [] m b far = refl
put_words-below c ((o, v) ∷ ws) m b far =
    put_words-below c ws _ b far ∙ put_word-below (c + o) v m b (omega arith)

-- No store touches the word at the offset `a`.
abbrev pub Misses : ℕ → List (ℕ × ℕ) → Type 0
Misses a [] = Unit {0}
Misses a ((o, v) ∷ ws) = ((a + 4 ≤ o) ⊎ (o + 4 ≤ a)) × Misses a ws

pub get_word-put_words :
    (c a : ℕ) (ws : List (ℕ × ℕ)) (m : Memory)
    → Misses a ws
    → get_word (put_words c ws m) (c + a) ≡ get_word m (c + a)
unfolding put_words
get_word-put_words c a [] m miss = refl
get_word-put_words c a ((o, v) ∷ ws) m miss =
    get_word-put_words c a ws (put_word (c + o) v m) miss.1
    ∙ get_word-Kept (c + a) (c + a + 4) (c + a) m (put_word (c + o) v m)
        (λ b lo hi. elim miss.0 [
          | inl before ↦ put_word-below (c + o) v m b (omega arith)
          | inr behind ↦ put_word-above (c + o) v m b (omega arith)
        ])
        (omega arith) (omega arith)
