-- ===== src/Cio/Keyboard/Lines.antt =====
-- The buffer of the keyboard in cio.c as a bounded queue.
use os.Base.{
  ap, ap₂, ◌∙◌, ◌↔◌, ℕ, zero, suc, ◌+◌, ◌-◌, ◌%◌, ◌<◌, ◌≡◌, refl, true, false, Option, none, some,
  List, [], ◌∷◌, ◌++◌, arith, length, span, span_same, span_last, ltb, leb, ◌==◌, if◌then◌else◌,
  Bool-cases, inl, inr,
}
use os.Cio.Keyboard.{
  Keyboard, Modifiers, c_bufsize, key, keep, increment, input_scan_code, cio_input_queue, cio_kbhit,
}
use os.Cio.Screen.{poke}

pub record IsValid (s : Keyboard) : Type 0 where
  pub char : s.next_char < c_bufsize
  pub space : s.next_space < c_bufsize

abbrev pub number : Keyboard → ℕ
number s = (s.next_space + c_bufsize - s.next_char) % c_bufsize

-- The characters that wait, the oldest first.
abbrev pub queue : Keyboard → List ℕ
queue s = span (λ k. s.input_buffer ((s.next_char + k) % c_bufsize) % 256) 0 (number s)

-- One place of the buffer stays empty.
abbrev pub enter : Option ℕ → Keyboard → List ℕ
enter none s = queue s
enter (some ch) s = if ltb (number s) (c_bufsize - 1) then queue s ++ ch % 256 ∷ [] else queue s

keep-enter :
    (o : Option ℕ) (s : Keyboard) → IsValid s → IsValid (keep o s) × (queue (keep o s) ≡ enter o s)
unfolding keep increment
keep-enter none s v = (v, refl)
keep-enter (some ch) s v =
    let next : ℕ = if leb c_bufsize (s.next_space + 1) then 0 else s.next_space + 1 in
    let buffer : ℕ → ℕ = poke s.input_buffer s.next_space ch in
    let now : ℕ → ℕ = λ (k : ℕ). buffer ((s.next_char + k) % c_bufsize) % 256 in
    elim (Bool-cases (next == s.next_char)) [
      | inl full ↦
          let no_room : ltb (number s) (c_bufsize - 1) ≡ false = ground (arith, v.char, v.space) in
          simp (full, no_room) (v, refl)
      | inr room ↦
          let enough : ltb (number s) (c_bufsize - 1) ≡ true = ground (arith, v.char, v.space) in
          let more : (next + c_bufsize - s.next_char) % c_bufsize ≡ suc (number s) =
            ground (arith, v.char, v.space) in
          simp (room, enough)
            (
              record { char = v.char; space = ground (arith, v.space) },
              ap (λ n. span now 0 n) more
                  ∙ span_last (number s) now 0
                  ∙ ap₂ (λ l x. l ++ x ∷ [])
                      (span_same (number s) now
                        (λ k. s.input_buffer ((s.next_char + k) % c_bufsize) % 256) 0 0
                        (λ k lt. ground (arith, v.char, v.space)))
                      (ground (arith, v.char, v.space)),
            )
    ]

length-span : (f : ℕ → ℕ) (n i : ℕ) → length (span f i n) ≡ n
length-span f zero i = refl
length-span f (suc n) i = omega (arith, length-span f n (i + 1))

input_queue_lem : (s : Keyboard) → IsValid s → cio_input_queue s ≡ length (queue s)
unfolding cio_input_queue
input_queue_lem s v =
    let n : length (queue s) ≡ number s =
      length-span (λ k. s.input_buffer ((s.next_char + k) % c_bufsize) % 256) (number s) 0 in
    ground (arith, n, v.char, v.space)

pub kbhit_lem : (s : Keyboard) → IsValid s → (cio_kbhit s ≡ false) ↔ (length (queue s) ≡ 0)
unfolding cio_kbhit
kbhit_lem s v =
    let n : length (queue s) ≡ number s =
      length-span (λ k. s.input_buffer ((s.next_char + k) % c_bufsize) % 256) (number s) 0 in
    ground (arith, n, v.char, v.space)

enter_modifiers :
    (o : Option ℕ) (m : Modifiers) (s : Keyboard) → enter o (record s { modifiers = m }) ≡ enter o s
enter_modifiers none m s = refl
enter_modifiers (some ch) m s = refl

keep_modifiers : (o : Option ℕ) (s : Keyboard) → (keep o s).modifiers ≡ s.modifiers
unfolding keep increment
keep_modifiers none s = refl
keep_modifiers (some ch) s =
    elim (Bool-cases
      ((if leb c_bufsize (s.next_space + 1) then 0 else s.next_space + 1) == s.next_char)) [
        | inl full ↦ simp full refl
        | inr room ↦ simp room refl
      ]

-- A scan code leaves the characters that wait; what it stands for, if it stands for a character,
-- goes behind them, unless 199 wait: then it is lost, and the result is the character even so.
-- cio_input_queue then tells how many characters wait, and cio_kbhit whether one does.
pub input_scan_code-queue :
    (code : ℕ) (s : Keyboard)
    → IsValid s
    → let (rval, s') = input_scan_code code s in
      IsValid s'
      × (queue s' ≡ enter rval s)
      × (rval ≡ (key (code % 256) s.modifiers).0)
      × (s'.modifiers ≡ (key (code % 256) s.modifiers).1)
      × (cio_input_queue s' ≡ length (queue s'))
      × ((cio_kbhit s' ≡ false) ↔ (length (queue s') ≡ 0))
unfolding input_scan_code
input_scan_code-queue code s v =
    let (o, m) = key (code % 256) s.modifiers in
    let (v', q) =
      keep-enter o (record s { modifiers = m }) (record { char = v.char; space = v.space }) in
    (v', q ∙ enter_modifiers o m s, refl, keep_modifiers o _, input_queue_lem _ v', kbhit_lem _ v')
