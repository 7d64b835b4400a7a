-- ===== src/Cio/Keyboard/Reads.antt =====
-- The keyboard of cio.c as a stream of characters: those in the buffer, then those that the scan
-- codes still to come stand for.
use os.Base.{
  sym, ap, ap₂, ◌∙◌, ◌⊎◌, ℕ, zero, suc, ◌+◌, ◌-◌, ◌%◌, ◌≡◌, refl, true, false, Option, none, some,
  List, [], ◌∷◌, ◌++◌, append-nil, arith, span, span_same, ltb, leb, ◌==◌, if◌then◌else◌,
  Bool-cases, inl, inr, Outcome, ok, out_of_fuel, ◌>>=◌,
}
use os.Cio.Keyboard.{
  Keyboard, Modifiers, Console, c_bufsize, eot, key, increment, input_scan_code, accept,
  cio_getchar, gets_loop, cio_gets,
}
use os.Cio.Keyboard.Lines.{IsValid, number, queue, enter, input_scan_code-queue}

-- The characters that scan codes stand for.
abbrev typed : Option ℕ → List ℕ → List ℕ
typed none cs = cs
typed (some ch) cs = ch % 256 ∷ cs

abbrev pub decode : List ℕ → Modifiers → List ℕ
decode [] m = []
decode (code ∷ codes) m = typed (key (code % 256) m).0 (decode codes (key (code % 256) m).1)

abbrev pub stream : List ℕ → Keyboard → List ℕ
stream codes s = queue s ++ decode codes s.modifiers

-- What reading one character comes to: the stream's first one, or waiting for ever.
abbrev pub Got : List ℕ → Outcome (ℕ × List ℕ × Console) → Type 0
Got chars o =
    ((chars ≡ []) × (o ≡ out_of_fuel))
    ⊎ ((r : ℕ × List ℕ × Console) × (o ≡ ok r)
        × (chars ≡ r.0 ∷ stream r.1 r.2.keyboard)
        × IsValid r.2.keyboard)

accept-queue :
    (k : Console)
    → IsValid k.keyboard
    → (k.keyboard.next_char == k.keyboard.next_space) ≡ false
    → let (c, k') = accept k in
      (queue k.keyboard ≡ c ∷ queue k'.keyboard)
      × IsValid k'.keyboard
      × (k'.keyboard.modifiers ≡ k.keyboard.modifiers)
unfolding accept increment
accept-queue k v some_char =
    let s = k.keyboard in
    let next : ℕ = if leb c_bufsize (s.next_char + 1) then 0 else s.next_char + 1 in
    let now : ℕ → ℕ = λ (i : ℕ). s.input_buffer ((s.next_char + i) % c_bufsize) % 256 in
    let then_on : ℕ → ℕ = λ (i : ℕ). s.input_buffer ((next + i) % c_bufsize) % 256 in
    let less : number s ≡ suc ((s.next_space + c_bufsize - next) % c_bufsize) =
      ground (arith, v.char, v.space) in
    let here : (s.next_char + 0) % c_bufsize ≡ s.next_char = omega (arith, v.char) in
    (
      ap (λ n. span now 0 n) less
          ∙ ap₂ (λ x xs. x ∷ xs) (ap (λ i. s.input_buffer i % 256) here)
              (span_same ((s.next_space + c_bufsize - next) % c_bufsize) now then_on 1 0
                (λ i lt. ap (λ j. s.input_buffer j % 256) (ground (arith, v.char)))),
      record { char = ground (arith, v.char); space = v.space },
      refl,
    )

next_Got :
    (codes : List ℕ) (k : Console)
    → IsValid k.keyboard
    → (k.keyboard.next_char == k.keyboard.next_space) ≡ false
    → let (c, k') = accept k in Got (stream codes k.keyboard) (ok (c, codes, k'))
next_Got codes k v some_char =
    let (first, v', same) = accept-queue k v some_char in
    let (c, k') = accept k in
    inr ((c, codes, k'), refl, ap₂ (λ q m. q ++ decode codes m) first (sym same), v')

no_chars : (s : Keyboard) → number s ≡ 0 → queue s ≡ []
no_chars s e = ap (λ n. span (λ k. s.input_buffer ((s.next_char + k) % c_bufsize) % 256) 0 n) e

typed_lem :
    (o : Option ℕ) (cs : List ℕ) (s : Keyboard) → number s ≡ 0 → enter o s ++ cs ≡ typed o cs
typed_lem none cs s e = ap (λ q. q ++ cs) (no_chars s e)
typed_lem (some ch) cs s e =
    let room : ltb (number s) (c_bufsize - 1) ≡ true = ground arith in
    rw room (ap (λ q. (q ++ ch % 256 ∷ []) ++ cs) (no_chars s e))

-- A scan code that comes while no character waits.
scan-stream :
    (code : ℕ) (codes : List ℕ) (s : Keyboard)
    → IsValid s
    → (s.next_char == s.next_space) ≡ true
    → stream codes (input_scan_code code s).1 ≡ stream (code ∷ codes) s
unfolding input_scan_code
scan-stream code codes s v empty =
    let (o, m) = key (code % 256) s.modifiers in
    let e : number s ≡ 0 = ground (arith, v.char) in
    let scanned = input_scan_code-queue code s v in
    ap₂ (λ q n. q ++ decode codes n) scanned.1 scanned.3
    ∙ typed_lem o (decode codes m) s e
    ∙ sym (ap (λ q. q ++ decode (code ∷ codes) s.modifiers) (no_chars s e))

cio_getchar-Got :
    (codes : List ℕ) (k : Console)
    → IsValid k.keyboard
    → Got (stream codes k.keyboard) (cio_getchar codes k)
unfolding cio_getchar
cio_getchar-Got [] k v = elim (Bool-cases (k.keyboard.next_char == k.keyboard.next_space)) [
  | inl empty ↦
      simp empty
        (inl (append-nil (queue k.keyboard) ∙ no_chars k.keyboard (ground (arith, v.char)), refl))
  | inr some_char ↦ simp some_char (next_Got [] k v some_char)
]
cio_getchar-Got (code ∷ codes) k v =
    elim (Bool-cases (k.keyboard.next_char == k.keyboard.next_space)) [
      | inl empty ↦
          let v' = (input_scan_code-queue code k.keyboard v).0 in
          rw (empty, cio_getchar, sym (scan-stream code codes k.keyboard v empty))
            (cio_getchar-Got codes (record k { keyboard = (input_scan_code code k.keyboard).1 }) v')
      | inr some_char ↦ rw (some_char, cio_getchar) (next_Got (code ∷ codes) k v some_char)
    ]

-- The first line of a text, a newline included and an EOT not, cut off after `room` characters,
-- and what follows; none when the text ends before.
abbrev pub first_line : ℕ → List ℕ → Option (List ℕ × List ℕ)
first_line zero chars = some ([], chars)
first_line (suc room) [] = none
first_line (suc room) (c ∷ chars) =
    if c == eot
    then some ([], chars)
    else if c == b'\n'
    then some (c ∷ [], chars)
    else elim (first_line room chars) [ none ↦ none | some (line, rest) ↦ some (c ∷ line, rest) ]

-- What cio_gets comes to, against the first line.
abbrev pub GotLine : Option (List ℕ × List ℕ) → Outcome (List ℕ × List ℕ × Console) → Type 0
GotLine none o = o ≡ out_of_fuel
GotLine (some (line, rest)) o =
    (r : List ℕ × List ℕ × Console) × (o ≡ ok r)
    × (r.0 ≡ line)
    × (stream r.1 r.2.keyboard ≡ rest)
    × IsValid r.2.keyboard

-- One character more.
longer :
    (c : ℕ) (line : Option (List ℕ × List ℕ)) (o : Outcome (List ℕ × List ℕ × Console))
    → GotLine line o
    → GotLine
        (elim line [ none ↦ none | some (l, rest) ↦ some (c ∷ l, rest) ])
        (o >>= λ q. ok (c ∷ q.0, q.1, q.2))
longer c none o e = rw e refl
longer c (some (l, rest)) o (r, e, same, left, v) =
    rw e ((c ∷ r.0, r.1, r.2), refl, ap (λ t. c ∷ t) same, left, v)

gets_loop-GotLine :
    (room : ℕ) (codes : List ℕ) (k : Console)
    → IsValid k.keyboard
    → GotLine (first_line room (stream codes k.keyboard)) (gets_loop room codes k)
unfolding gets_loop
gets_loop-GotLine zero codes k v = (([], codes, k), refl, refl, refl, v)
gets_loop-GotLine (suc room) codes k v = elim (cio_getchar-Got codes k v) [
  | inl (end, waits) ↦ rw (end, waits) refl
  | inr (r, got, first, v') ↦
      let rest = gets_loop-GotLine room r.1 r.2 v' in
      elim (Bool-cases (r.0 == eot)) [
        | inl end ↦ rw (first, got, end) (([], r.1, r.2), refl, refl, refl, v')
        | inr more ↦ elim (Bool-cases (r.0 == b'\n')) [
          | inl newline ↦
              rw (first, got, more, newline) ((r.0 ∷ [], r.1, r.2), refl, refl, refl, v')
          | inr inside ↦ rw (first, got, more, inside) (longer r.0 _ _ rest)
        ]
      ]
]

-- cio_gets takes from the stream of the keyboard its first line (up to a newline, which it keeps,
-- up to an EOT, which it drops, or as far as the buffer has room for, with the NUL) and leaves what
-- follows; when the line never ends, it waits for ever.
pub cio_gets_lem :
    (size : ℕ) (codes : List ℕ) (k : Console)
    → IsValid k.keyboard
    → GotLine (first_line (size - 1) (stream codes k.keyboard)) (cio_gets size codes k)
unfolding cio_gets
cio_gets_lem size codes k v = gets_loop-GotLine (size - 1) codes k v
