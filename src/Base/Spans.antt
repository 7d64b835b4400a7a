-- ===== src/Base/Spans.antt =====
-- Stretches of an array as lists.
use Prim.Native.Nat.{ℕ, zero, suc, ◌+◌, ◌<◌}
use mathlib.Core.Path.{◌≡◌, refl, ap, ap₂, ◌∙◌}
use mathlib.Core.List.{List, [], ◌∷◌, ◌++◌}
use native.Mathlib.Omega.{arith}

-- The `n` elements from `i` on.
abbrev pub span {ℓ} : {A : Type ℓ} → (ℕ → A) → ℕ → ℕ → List A
span f i zero = []
span f i (suc n) = f i ∷ span f (i + 1) n

pub span_same {ℓ} :
    {A : Type ℓ} (n : ℕ) (f g : ℕ → A) (i j : ℕ)
    → ((k : ℕ) → k < n → f (i + k) ≡ g (j + k))
    → span f i n ≡ span g j n
span_same zero f g i j h = refl
span_same {A} (suc n) f g i j h =
    ap₂ (λ x xs. x ∷ xs) (ap f (omega arith) ∙ h 0 (omega arith) ∙ ap g (omega arith))
      (span_same n f g (i + 1) (j + 1)
        (λ k lt. ap f (omega arith) ∙ h (k + 1) (omega arith) ∙ ap g (omega arith)))

pub span_last {ℓ} :
    {A : Type ℓ} (n : ℕ) (f : ℕ → A) (i : ℕ) → span f i (suc n) ≡ span f i n ++ f (i + n) ∷ []
span_last zero f i = ap (λ j. f j ∷ []) (omega arith)
span_last (suc n) f i =
    ap (λ xs. f i ∷ xs)
      (span_last n f (i + 1) ∙ ap (λ j. span f (i + 1) n ++ f j ∷ []) (omega arith))

pub span-append {ℓ} :
    {A : Type ℓ} (n m : ℕ) (f : ℕ → A) (i : ℕ) → span f i (n + m) ≡ span f i n ++ span f (i + n) m
span-append zero m f i = ap₂ (λ j l. span f j l) (omega arith) (omega arith)
span-append (suc n) m f i =
    let e : suc n + m ≡ suc (n + m) = omega arith in
    ap (λ k. span f i k) e
    ∙ ap (λ xs. f i ∷ xs)
        (span-append n m f (i + 1) ∙ ap (λ j. span f (i + 1) n ++ span f j m) (omega arith))
