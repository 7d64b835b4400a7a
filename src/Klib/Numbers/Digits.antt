-- ===== src/Klib/Numbers/Digits.antt =====
-- Decimal text read back by str2int.
use native.Mathlib.Nat.{pow-suc}
use os.Base.{
  ℕ, zero, suc, ◌+◌, ◌-◌, ◌*◌, ◌/◌, ◌%◌, ◌^◌, ◌≤◌, ◌<◌, ◌≡◌, refl, false, ◌||◌, ltb, leb, ◌==◌,
  List, [], ◌∷◌, ◌++◌, append_assoc, arith, Bool-cases, inl, inr, ◌∙◌, ap, append-nil,
}
use os.Klib.Numbers.{
  u32_mod, int_min, quotient_of, digit_of, cvtdec0_fuel, cvtdec0, cvtdec, cvtuns0, cvtuns, scan,
  str2int,
}

-- A digit read behind the number `q`.
scan_digit :
    (q d : ℕ) (rest : List ℕ)
    → d < 10
    → q * 10 + d < u32_mod
    → scan 10 b'9' q ((d + b'0') ∷ rest) ≡ scan 10 b'9' (q * 10 + d) rest
unfolding scan
scan_digit q d rest h small =
    let stop : ((d + b'0' == 0) || (ltb (d + b'0') b'0' || ltb b'9' (d + b'0'))) ≡ false =
      ground arith in
    rw stop (ap (λ n. scan 10 b'9' n rest) (omega arith))

scan-nil : (n : ℕ) → scan 10 b'9' n [] ≡ n
unfolding scan
scan-nil n = refl

scan-cvtdec0_fuel :
    (fuel v : ℕ) (rest : List ℕ)
    → v < int_min
    → v < 10 ^ fuel
    → scan 10 b'9' 0 (cvtdec0_fuel fuel v ++ rest) ≡ scan 10 b'9' v rest
unfolding cvtdec0_fuel
scan-cvtdec0_fuel zero v rest small fits = ap (λ n. scan 10 b'9' n rest) (omega arith)
scan-cvtdec0_fuel (suc fuel) v rest small fits =
    let q : quotient_of v ≡ v / 10 = ground arith in
    let d : digit_of v ≡ v % 10 + b'0' = ground arith in
    rw (q, d)
      (elim (Bool-cases (v / 10 == 0)) [
        | inl one ↦ rw one (
            scan_digit 0 (v % 10) rest (omega arith) (omega arith)
            ∙ ap (λ n. scan 10 b'9' n rest) (ground arith))
        | inr more ↦
            rw (more, append_assoc)
              (scan-cvtdec0_fuel fuel (v / 10) ((v % 10 + b'0') ∷ rest) (omega arith)
                  (omega (arith, pow-suc 10 fuel))
                ∙ scan_digit (v / 10) (v % 10) rest (omega arith) (omega arith)
                ∙ ap (λ n. scan 10 b'9' n rest) (omega arith))
      ])

scan-cvtdec0 :
    (v : ℕ) (rest : List ℕ) → v < int_min → scan 10 b'9' 0 (cvtdec0 v ++ rest) ≡ scan 10 b'9' v rest
unfolding cvtdec0
scan-cvtdec0 v rest small = scan-cvtdec0_fuel 10 v rest small (omega arith)

-- The most negative value, whose negation is itself.
scan-cvtdec0_min : scan 10 b'9' 0 (cvtdec0 int_min ++ []) ≡ int_min
unfolding scan cvtdec0 cvtdec0_fuel
scan-cvtdec0_min = refl

scan-cvtuns0 : (v : ℕ) → v < u32_mod → scan 10 b'9' 0 (cvtuns0 v ++ []) ≡ v
unfolding cvtuns0
scan-cvtuns0 v small = elim (Bool-cases (v / 10 == 0)) [
  | inl one ↦
      rw one (scan_digit 0 (v % 10) [] (omega arith) (omega arith) ∙ scan-nil _ ∙ ground arith)
  | inr more ↦
      rw (more, append_assoc)
        (scan-cvtdec0 (v / 10) ((v % 10 + b'0') ∷ []) (omega arith)
          ∙ scan_digit (v / 10) (v % 10) [] (omega arith) (omega arith)
          ∙ scan-nil _
          ∙ omega arith)
]

-- The first character, if there is one, is a digit or greater: no minus sign.
abbrev Unsigned : List ℕ → Type 0
Unsigned [] = Unit {0}
Unsigned (c ∷ cs) = b'0' ≤ c

Unsigned-append : (xs : List ℕ) (d : ℕ) → Unsigned xs → b'0' ≤ d → Unsigned (xs ++ d ∷ [])
Unsigned-append [] d h le = le
Unsigned-append (x ∷ xs) d h le = h

Unsigned-cvtdec0_fuel : (fuel v : ℕ) → v < int_min → Unsigned (cvtdec0_fuel fuel v)
unfolding cvtdec0_fuel
Unsigned-cvtdec0_fuel zero v small = tt
Unsigned-cvtdec0_fuel (suc fuel) v small =
    let q : quotient_of v ≡ v / 10 = ground arith in
    let d : digit_of v ≡ v % 10 + b'0' = ground arith in
    rw (q, d)
      (elim (Bool-cases (v / 10 == 0)) [
        | inl one ↦ rw one (omega arith)
        | inr more ↦ rw more (
            Unsigned-append (cvtdec0_fuel fuel (v / 10)) (v % 10 + b'0')
              (Unsigned-cvtdec0_fuel fuel (v / 10) (omega arith)) (omega arith))
      ])

Unsigned-cvtdec0 : (v : ℕ) → v < int_min → Unsigned (cvtdec0 v)
unfolding cvtdec0
Unsigned-cvtdec0 v small = Unsigned-cvtdec0_fuel 10 v small

Unsigned-cvtuns0 : (v : ℕ) → v < u32_mod → Unsigned (cvtuns0 v)
unfolding cvtuns0
Unsigned-cvtuns0 v small = elim (Bool-cases (v / 10 == 0)) [
  | inl one ↦ rw one (omega arith)
  | inr more ↦ rw more (
      Unsigned-append (cvtdec0 (v / 10)) (v % 10 + b'0') (Unsigned-cvtdec0 (v / 10) (omega arith))
        (omega arith))
]

str2int-Unsigned : (cs : List ℕ) → Unsigned cs → str2int cs 10 ≡ scan 10 b'9' 0 (cs ++ [])
unfolding str2int scan
str2int-Unsigned [] h = refl
str2int-Unsigned (c ∷ cs) h = let e : (c == b'-') ≡ false = ground arith in rw (append-nil cs, e)

-- str2int reads back what cvtuns writes, for every uint32_t.
pub str2int-cvtuns : (v : ℕ) → v < u32_mod → str2int (cvtuns v) 10 ≡ v
unfolding cvtuns
str2int-cvtuns v small =
    str2int-Unsigned (cvtuns0 v) (Unsigned-cvtuns0 v small) ∙ scan-cvtuns0 v small

str2int_minus :
    (cs : List ℕ) → str2int (b'-' ∷ cs) 10 ≡ (u32_mod - scan 10 b'9' 0 (cs ++ [])) % u32_mod
unfolding str2int
str2int_minus cs = rw append-nil

negated :
    (v m : ℕ)
    → m ≡ (u32_mod - v) % u32_mod
    → int_min ≤ v
    → v < u32_mod
    → (u32_mod - m) % u32_mod ≡ v
negated v m e lo hi = omega arith

-- str2int reads back what cvtdec writes, for every int32_t, the most negative one included.
pub str2int-cvtdec : (v : ℕ) → v < u32_mod → str2int (cvtdec v) 10 ≡ v
unfolding cvtdec
str2int-cvtdec v small = elim (Bool-cases (leb int_min v)) [
  | inr nonneg ↦
      let small' : v < int_min = ground arith in
      rw nonneg (
        str2int-Unsigned (cvtdec0 v) (Unsigned-cvtdec0 v small')
        ∙ scan-cvtdec0 v [] small'
        ∙ scan-nil v)
  | inl neg ↦ rw neg (
      str2int_minus (cvtdec0 ((u32_mod - v) % u32_mod))
      ∙ negated v (scan 10 b'9' 0 (cvtdec0 ((u32_mod - v) % u32_mod) ++ []))
          (magnitude (ground arith)) (ground arith) small)
]
  where
    magnitude :
        int_min ≤ v
        → scan 10 b'9' 0 (cvtdec0 ((u32_mod - v) % u32_mod) ++ []) ≡ (u32_mod - v) % u32_mod
    magnitude lo = elim (Bool-cases (v == int_min)) [
      | inl e ↦ let e' : (u32_mod - v) % u32_mod ≡ int_min = ground arith in rw e' scan-cvtdec0_min
      | inr ne ↦ scan-cvtdec0 ((u32_mod - v) % u32_mod) [] (ground arith) ∙ scan-nil _
    ]
