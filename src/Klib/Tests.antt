-- ===== src/Klib/Tests.antt =====
-- klibc.c on concrete inputs: its theorems applied.
use os.Base.{ℕ, List, [], ◌∷◌, some, true, false, refl, ◌==◌, ◌≡◌, arith, if◌then◌else◌}
use os.Klib.Blocks.{Memory}
use os.Klib.Numbers.{str2int, cvtdec}
use os.Klib.Numbers.Digits.{str2int-cvtdec}
use os.Klib.Strings.{sprint}
use os.Klib.Strings.Formats.{Piece, print, render, sprint-print}

-- Every byte holds its address.
abbrev ramp : Memory
ramp a = a

str2int-cvtdec_example : str2int (cvtdec 0x8000_0000) 10 ≡ 0x8000_0000
str2int-cvtdec_example = str2int-cvtdec 0x8000_0000 (omega arith)

-- "ab" stands at 100, and "c" at 200.
abbrev texts : Memory
texts a = if a == 100 then b'a' else if a == 101 then b'b' else if a == 200 then b'c' else 0

abbrev no_texts : ℕ → List ℕ
no_texts a = []

-- "=%-4d", with one parameter.
abbrev one_code : List Piece
one_code = Piece.literal b'=' ∷ Piece.code true false (b'4' ∷ []) b'd' ∷ []

sprint-print_example :
    sprint no_texts (λ i. 42) (print one_code) ≡ some (render no_texts (λ i. 42) 0 one_code)
sprint-print_example =
    sprint-print no_texts (λ i. 42) one_code (λ a. omega arith)
      ((refl, refl), (((omega arith, omega arith, tt), omega arith, refl, refl), tt))
