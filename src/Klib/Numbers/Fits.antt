-- ===== src/Klib/Numbers/Fits.antt =====
-- How many characters the conversions store: sprint gives them a buffer of twelve bytes.
use os.Base.{
  ℕ, zero, suc, ◌+◌, ◌-◌, ◌*◌, ◌/◌, ◌%◌, ◌≤◌, ◌≡◌, refl, Bool, false, not, ◌||◌, ◌==◌, [], ◌∷◌,
  arith, Bool-cases, inl, inr, length, length-append,
}
use os.Klib.Numbers.{
  u32_mod, quotient_of, digit_of, cvtdec0_fuel, cvtdec0, cvtdec, cvtuns0, cvtuns, hex_loop, cvthex,
  oct_loop, cvtoct, bin_loop, cvtbin,
}

length-cvtdec0_fuel : (fuel v : ℕ) → length (cvtdec0_fuel fuel v) ≤ fuel
unfolding cvtdec0_fuel
length-cvtdec0_fuel zero v = omega arith
length-cvtdec0_fuel (suc fuel) v = elim (Bool-cases (quotient_of v == 0)) [
  | inl one ↦ rw one (omega arith)
  | inr more ↦ rw more (
      omega (
        arith,
        length-cvtdec0_fuel fuel (quotient_of v),
        length-append (cvtdec0_fuel fuel (quotient_of v)) (digit_of v ∷ []),
      ))
]

length-cvtdec0 : (v : ℕ) → length (cvtdec0 v) ≤ 10
unfolding cvtdec0
length-cvtdec0 v = length-cvtdec0_fuel 10 v

length-hex_loop : (n : ℕ) (stored : Bool) (v : ℕ) → length (hex_loop n stored v) ≤ n
unfolding hex_loop
length-hex_loop zero stored v = omega arith
length-hex_loop (suc n) stored v = ground (
  arith,
  length-hex_loop n (stored || (not (v / 0x1000_0000 == 0) || (n == 0))) (v * 16 % u32_mod),
)

length-oct_loop : (n : ℕ) (stored : Bool) (val v : ℕ) → length (oct_loop n stored val v) ≤ n
unfolding oct_loop
length-oct_loop zero stored val v = omega arith
length-oct_loop (suc n) stored val v = ground (
  arith,
  length-oct_loop n ((n == 0) || (not (val == 0) || stored)) (v * 8 % u32_mod / 0x2000_0000)
      (v * 8 % u32_mod),
)

length-bin_loop : (n v : ℕ) → length (bin_loop n v) ≡ n
unfolding bin_loop
length-bin_loop zero v = refl
length-bin_loop (suc n) v = omega (arith, length-bin_loop n v)

length-cvtuns0 : (v : ℕ) → length (cvtuns0 v) ≤ 11
unfolding cvtuns0
length-cvtuns0 v = elim (Bool-cases (v / 10 == 0)) [
  | inl one ↦ rw one (omega arith)
  | inr more ↦ rw more (
      omega
        (arith, length-cvtdec0 (v / 10), length-append (cvtdec0 (v / 10)) ((v % 10 + b'0') ∷ [])))
]

signed : (v : ℕ) → length (cvtdec v) + 1 ≤ 12
unfolding cvtdec
signed v = ground (arith, length-cvtdec0 v, length-cvtdec0 ((u32_mod - v) % u32_mod))

-- Whatever the value, the text that sprint has cvtdec, cvtuns, cvthex and cvtoct store fits into
-- its buffer of twelve bytes with the NUL; cvthex stores eight characters at most. The text of
-- cvtbin, which sprint does not use, has exactly 32 characters.
pub conversions_fit :
    (v : ℕ)
    → (length (cvtdec v) + 1 ≤ 12)
      × (length (cvtuns v) + 1 ≤ 12)
      × (length (cvthex v) ≤ 8)
      × (length (cvtoct v) + 1 ≤ 12)
      × (length (cvtbin v) ≡ 32)
unfolding cvtuns cvthex cvtoct cvtbin
conversions_fit v = (
  signed v,
  omega (arith, length-cvtuns0 v),
  length-hex_loop 8 false v,
  omega (arith, length-oct_loop 11 false (v / 0x4000_0000) v),
  length-bin_loop 32 v,
)
