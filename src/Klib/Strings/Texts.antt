-- ===== src/Klib/Strings/Texts.antt =====
-- strlen, strcpy, strcat and strcmp on strings of known text.
use mathlib.Core.Path.{subst}
use os.Base.{
  sym, ap, ap₂, ◌∙◌, ◌⊎◌, ◌↔◌, ℕ, zero, suc, ◌+◌, ◌-◌, ◌%◌, ◌≤◌, ◌<◌, ◌≡◌, refl, true, false, not,
  ◌&&◌, List, [], ◌∷◌, ◌++◌, arith, length, leb, ◌==◌, Bool-cases, inl, inr, Outcome, ok, panic,
  out_of_fuel,
}
use os.Klib.Blocks.{Memory, write}
use os.Klib.Blocks.Moves.{moved}
use os.Klib.Numbers.{u32_mod}
use os.Klib.Strings.{strlen, strcpy, find_nul, strcat, strcmp, char_value}

-- The characters of `s` stand at `a`, with a NUL behind them.
abbrev pub Text : Memory → ℕ → List ℕ → Type 0
Text mem a [] = mem a ≡ 0
Text mem a (c ∷ s) = (mem a ≡ c) × (1 ≤ c) × Text mem (a + 1) s

pub Text-frame :
    (mem mem' : Memory) (s : List ℕ) (a : ℕ)
    → Text mem a s
    → ((b : ℕ) → a ≤ b → b ≤ a + length s → mem' b ≡ mem b)
    → Text mem' a s
Text-frame mem mem' [] a t same = same a (omega arith) (omega arith) ∙ t
Text-frame mem mem' (c ∷ s) a (e, pos, t) same = (
  same a (omega arith) (omega arith) ∙ e,
  pos,
  Text-frame mem mem' s (a + 1) t (λ b lo hi. same b (omega arith) (omega arith)),
)

strlen-Text :
    (mem : Memory) (s : List ℕ) (a fuel : ℕ)
    → Text mem a s
    → length s < fuel
    → length s < u32_mod
    → strlen fuel a mem ≡ ok (length s)
unfolding strlen
strlen-Text mem s a zero t enough small = absurd (omega arith)
strlen-Text mem [] a (suc fuel) t enough small = rw (t, strlen)
strlen-Text mem (c ∷ s) a (suc fuel) (e, pos, t) enough small =
    let miss : (mem a == 0) ≡ false = ground arith in
    let rest = strlen-Text mem s (a + 1) fuel t (omega arith) (omega arith) in
    rw (miss, strlen, rest) (ap ok (omega arith))

-- What a copy of the string leaves at `b`.
abbrev pub Copied : ℕ → ℕ → ℕ → Memory → Outcome Memory → ℕ → Type 0
Copied dst src len mem (ok mem') b = mem' b ≡ moved dst src len mem b
Copied dst src len mem panic b = ⊥
Copied dst src len mem out_of_fuel b = ⊥

strcpy-Copied :
    (s : List ℕ) (mem : Memory) (dst src fuel b : ℕ)
    → Text mem src s
    → (dst + length s < src) ⊎ (src + length s < dst)
    → length s < fuel
    → Copied dst src (length s + 1) mem (strcpy fuel dst src mem) b
unfolding strcpy
strcpy-Copied s mem dst src zero b t apart enough = absurd (omega arith)
strcpy-Copied [] mem dst src (suc fuel) b t apart enough =
    let hit : (mem src == 0) ≡ true = ground arith in rw (hit, strcpy) (ground arith)
strcpy-Copied (c ∷ s) mem dst src (suc fuel) b (e, pos, t) apart enough =
    let miss : (mem src == 0) ≡ false = ground arith in
    let mem1 = write mem dst (mem src) in
    let t1 : Text mem1 (src + 1) s = Text-frame mem mem1 s (src + 1) t (λ a lo hi. ground arith) in
    rw (miss, strcpy)
      (step (strcpy fuel (dst + 1) (src + 1) mem1)
        (strcpy-Copied s mem1 (dst + 1) (src + 1) fuel b t1 (omega arith) (omega arith)))
  where
    step :
        (r : Outcome Memory)
        → Copied (dst + 1) (src + 1) (length s + 1) (write mem dst (mem src)) r b
        → Copied dst src (suc (length s) + 1) mem r b
    step panic h = h
    step out_of_fuel h = h
    step (ok mem') h = h ∙ ground arith

find_nul-Text :
    (mem : Memory) (s : List ℕ) (a fuel : ℕ)
    → Text mem a s
    → length s < fuel
    → find_nul fuel a mem ≡ ok (a + length s)
unfolding find_nul
find_nul-Text mem s a zero t enough = absurd (omega arith)
find_nul-Text mem [] a (suc fuel) t enough = rw (t, find_nul) (ap ok (omega arith))
find_nul-Text mem (c ∷ s) a (suc fuel) (e, pos, t) enough =
    let miss : (mem a == 0) ≡ false = ground arith in
    rw (miss, find_nul) (find_nul-Text mem s (a + 1) fuel t (omega arith) ∙ ap ok (omega arith))

-- A text that has been moved.
Text-moved :
    (mem mem' : Memory) (s : List ℕ) (dst src : ℕ)
    → Text mem src s
    → ((b : ℕ) → mem' b ≡ moved dst src (length s + 1) mem b)
    → Text mem' dst s
Text-moved mem mem' [] dst src t m = m dst ∙ ground arith
Text-moved mem mem' (c ∷ s) dst src (e, pos, t) m =
    (m dst ∙ ground arith, pos, shifted (dst + 1) (src + 1) s t (λ b lo hi. m b ∙ ground arith))
  where
    shifted :
        (d r : ℕ) (l : List ℕ)
        → Text mem r l
        → ((b : ℕ) → d ≤ b → b ≤ d + length l → mem' b ≡ mem (r + (b - d)))
        → Text mem' d l
    shifted d r [] u h = h d (omega arith) (omega arith) ∙ ap mem (omega arith) ∙ u
    shifted d r (x ∷ l) (e1, p, u) h = (
      h d (omega arith) (omega arith) ∙ ap mem (omega arith) ∙ e1,
      p,
      shifted (d + 1) (r + 1) l u
          (λ b lo hi. h b (omega arith) (omega arith) ∙ ap mem (omega arith)),
    )

-- The characters of `s` stand at `a`, whatever is behind them.
abbrev Front : Memory → ℕ → List ℕ → Type 0
Front mem a [] = Unit {0}
Front mem a (c ∷ s) = (mem a ≡ c) × (1 ≤ c) × Front mem (a + 1) s

Text-Front : (mem : Memory) (s : List ℕ) (a : ℕ) → Text mem a s → Front mem a s
Text-Front mem [] a t = tt
Text-Front mem (c ∷ s) a (e, pos, t) = (e, pos, Text-Front mem s (a + 1) t)

Front-frame :
    (mem mem' : Memory) (s : List ℕ) (a : ℕ)
    → Front mem a s
    → ((b : ℕ) → a ≤ b → b < a + length s → mem' b ≡ mem b)
    → Front mem' a s
Front-frame mem mem' [] a t same = tt
Front-frame mem mem' (c ∷ s) a (e, pos, t) same = (
  same a (omega arith) (omega arith) ∙ e,
  pos,
  Front-frame mem mem' s (a + 1) t (λ b lo hi. same b (omega arith) (omega arith)),
)

Front-append :
    (mem : Memory) (s t : List ℕ) (a : ℕ)
    → Front mem a s
    → Text mem (a + length s) t
    → Text mem a (s ++ t)
Front-append mem [] t a f h = subst (λ b. Text mem b t) (omega arith) h
Front-append mem (c ∷ s) t a (e, pos, f) h =
    (e, pos, Front-append mem s t (a + 1) f (subst (λ b. Text mem b t) (omega arith) h))

-- What strcat leaves: both texts at the destination, and all else as it was.
abbrev pub Appended : ℕ → List ℕ → List ℕ → Memory → Outcome Memory → Type 0
Appended dst s t mem (ok mem') =
    Text mem' dst (s ++ t)
    × ((b : ℕ) → (dst ≤ b) ⊎ (mem' b ≡ mem b))
    × ((b : ℕ) → (b ≤ dst + length s + length t) ⊎ (mem' b ≡ mem b))
Appended dst s t mem panic = ⊥
Appended dst s t mem out_of_fuel = ⊥

Appended-from :
    (mem : Memory) (s t : List ℕ) (dst src : ℕ) (r : Outcome Memory)
    → Text mem dst s
    → Text mem src t
    → ((b : ℕ) → Copied (dst + length s) src (length t + 1) mem r b)
    → Appended dst s t mem r
Appended-from mem s t dst src panic f h c = absurd (c 0)
Appended-from mem s t dst src out_of_fuel f h c = absurd (c 0)
Appended-from mem s t dst src (ok mem') f h c = (
  Front-append mem' s t dst
      (Front-frame mem mem' s dst (Text-Front mem s dst f) (λ b lo hi. c b ∙ ground arith))
      (Text-moved mem mem' t (dst + length s) src h c),
  (λ b. elim (Bool-cases (leb dst b)) [
    | inl lo ↦ inl (ground arith)
    | inr below ↦ inr (c b ∙ ground arith)
  ]),
  (λ b. elim (Bool-cases (leb b (dst + length s + length t))) [
    | inl hi ↦ inl (ground arith)
    | inr above ↦ inr (c b ∙ ground arith)
  ]),
)

-- strcat, given two strings that do not overlap once the first has grown, and fuel for each: the
-- call ends, the first string is both texts in a row, and no byte outside it changes.
pub strcat_lem :
    (mem : Memory) (s t : List ℕ) (dst src fuel : ℕ)
    → Text mem dst s
    → Text mem src t
    → (dst + length s + length t < src) ⊎ (src + length t < dst)
    → length s < fuel
    → length t < fuel
    → Appended dst s t mem (strcat fuel dst src mem)
unfolding strcat
strcat_lem mem s t dst src fuel first second apart enough enough' =
    rw (find_nul-Text mem s dst fuel first enough) (
      Appended-from mem s t dst src (strcpy fuel (dst + length s) src mem) first second
        (λ b. strcpy-Copied t mem (dst + length s) src fuel b second (omega arith) enough'))

-- The result of strcmp.
abbrev pub Compared : List ℕ → List ℕ → Outcome ℕ → Type 0
Compared s t (ok r) = (r ≡ 0) ↔ (s ≡ t)
Compared s t panic = ⊥
Compared s t out_of_fuel = ⊥

abbrev pub AreChars : List ℕ → Type 0
AreChars [] = Unit {0}
AreChars (c ∷ s) = (c < 256) × AreChars s

abbrev head_of : List ℕ → ℕ
head_of [] = 0
head_of (c ∷ s) = c

abbrev tail_of : List ℕ → List ℕ
tail_of [] = []
tail_of (c ∷ s) = s

char_difference :
    (c d : ℕ)
    → c < 256
    → d < 256
    → ((char_value c + u32_mod - char_value d) % u32_mod ≡ 0) ↔ (c ≡ d)
char_difference c d lt lt' = (λ e. ground arith, λ e. ground arith)

compared :
    (x y : ℕ) (s t : List ℕ)
    → x < 256
    → y < 256
    → (x ≡ y → s ≡ t)
    → (s ≡ t → x ≡ y)
    → ((char_value x + u32_mod - char_value y) % u32_mod ≡ 0) ↔ (s ≡ t)
compared x y s t lx ly to from =
    let d = char_difference x y lx ly in (λ e. to (d.0 e), λ z. d.1 (from z))

extended :
    (c d : ℕ) (s t : List ℕ) → c ≡ d → (r : Outcome ℕ) → Compared s t r → Compared (c ∷ s) (d ∷ t) r
extended c d s t same panic h = h
extended c d s t same out_of_fuel h = h
extended c d s t same (ok r) h = (λ e. ap₂ (λ x y. x ∷ y) same (h.0 e), λ z. h.1 (ap tail_of z))

-- strcmp, on strings of bytes and with fuel for the first, returns 0 exactly if they are equal.
pub strcmp_lem :
    (mem : Memory) (s t : List ℕ) (a b fuel : ℕ)
    → Text mem a s
    → Text mem b t
    → AreChars s
    → AreChars t
    → length s < fuel
    → Compared s t (strcmp fuel a b mem)
unfolding strcmp
strcmp_lem mem s t a b zero p q cs ct enough = absurd (omega arith)
strcmp_lem mem [] [] a b (suc fuel) p q cs ct enough =
    let stop : (not (mem a == 0) && (mem a == mem b)) ≡ false = ground arith in
    rw (stop, strcmp)
      (compared (mem a) (mem b) [] [] (omega (arith, p)) (omega (arith, q)) (λ e. refl)
        (λ z. p ∙ sym q))
strcmp_lem mem [] (d ∷ t) a b (suc fuel) p (e, pos, q) cs (lt, ct) enough =
    let stop : (not (mem a == 0) && (mem a == mem b)) ≡ false = ground arith in
    rw (stop, strcmp)
      (compared (mem a) (mem b) [] (d ∷ t) (omega (arith, p)) (omega (arith, e))
        (λ z. absurd (omega (arith, z))) (λ z. absurd (omega (arith, ap length z))))
strcmp_lem mem (c ∷ s) [] a b (suc fuel) (e, pos, p) q (lt, cs) ct enough =
    let stop : (not (mem a == 0) && (mem a == mem b)) ≡ false = ground arith in
    rw (stop, strcmp)
      (compared (mem a) (mem b) (c ∷ s) [] (omega (arith, e)) (omega (arith, q))
        (λ z. absurd (omega (arith, z))) (λ z. absurd (omega (arith, ap length z))))
strcmp_lem mem (c ∷ s) (d ∷ t) a b (suc fuel) (e, pos, p) (e', pos', q) (lt, cs) (lt', ct) enough =
    elim (Bool-cases (mem a == mem b)) [
      | inl same ↦
          let go : (not (mem a == 0) && (mem a == mem b)) ≡ true = ground arith in
          let same' : c ≡ d = ground arith in
          rw (go, strcmp)
            (extended c d s t same' (strcmp fuel (a + 1) (b + 1) mem)
              (strcmp_lem mem s t (a + 1) (b + 1) fuel p q cs ct (omega arith)))
      | inr other ↦
          let stop : (not (mem a == 0) && (mem a == mem b)) ≡ false = ground arith in
          rw (stop, strcmp)
            (compared (mem a) (mem b) (c ∷ s) (d ∷ t) (omega (arith, e)) (omega (arith, e'))
              (λ z. absurd (ground arith)) (λ z. e ∙ ap head_of z ∙ sym e'))
    ]
