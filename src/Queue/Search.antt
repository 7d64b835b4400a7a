-- ===== src/Queue/Search.antt =====
-- The search of pcb_queue_remove_this, and the chain without the slot that it found.
use mathlib.Core.Path.{subst}
use os.Base.{
  sym, ap, ℕ, zero, suc, ◌<◌, ◌≡◌, refl, true, false, Option, none, some, List, [], ◌∷◌, ◌++◌,
  arith, length, has, ◌==◌, if◌then◌else◌, Bool-cases, inl, inr, ok,
}
use os.Pcb.{Table}
use os.Queue.{search_this}
use os.Queue.Chain.{Chain, Distinct, last_of, Chain-frame, has-append, has-last, has_ne, some_inj}

-- A list that holds `i`, split at the first place where it stands.
pub record Split (i : ℕ) (xs : List ℕ) : Type 0 where
  pub before : List ℕ
  pub after : List ℕ
  pub whole : before ++ i ∷ after ≡ xs
  pub fresh : has i before ≡ false

pub split_lem : (i : ℕ) (xs : List ℕ) → has i xs ≡ true → Split i xs
split_lem i [] h = absurd (ground arith)
split_lem i (x ∷ xs) h = elim (Bool-cases (x == i)) [
  | inl e ↦
      let e' : i ≡ x = ground arith in
      record { before = []; after = xs; whole = ap (λ n. n ∷ xs) e'; fresh = refl }
  | inr ne ↦
      let s = split_lem i xs (ground arith) in
      record {
        before = x ∷ s.before;
        after = s.after;
        whole = ap (λ l. x ∷ l) s.whole;
        fresh = ground (arith, s.fresh);
      }
]

-- The first occurrence of `i` dropped.
abbrev pub erase : ℕ → List ℕ → List ℕ
erase i [] = []
erase i (x ∷ xs) = if x == i then xs else x ∷ erase i xs

pub erase-split : (i : ℕ) (ys zs : List ℕ) → has i ys ≡ false → erase i (ys ++ i ∷ zs) ≡ ys ++ zs
erase-split i [] zs h = ground arith
erase-split i (y ∷ ys) zs h = ground (arith, erase-split i ys zs)

pub search_found :
    (t : Table) (i fuel : ℕ) (prev curr : Option ℕ) (ys zs : List ℕ)
    → Chain t curr (ys ++ i ∷ zs)
    → has i ys ≡ false
    → length ys < fuel
    → search_this t i fuel prev curr ≡ ok (last_of prev ys, some i)
unfolding search_this
search_found t i zero prev curr ys zs c out f = absurd (omega arith)
search_found t i (suc fuel) prev curr [] zs c out f =
    let e : (i == i) ≡ true = ground arith in rw (c.0, e, search_this)
search_found t i (suc fuel) prev curr (y ∷ ys) zs c out f =
    let e : (y == i) ≡ false = ground arith in
    rw (c.0, e, search_this)
      (search_found t i fuel (some y) (t y).next ys zs c.1 (ground arith) (omega arith))

pub search_missed :
    (t : Table) (i fuel : ℕ) (prev curr : Option ℕ) (xs : List ℕ)
    → Chain t curr xs
    → has i xs ≡ false
    → length xs < fuel
    → search_this t i fuel prev curr ≡ ok (last_of prev xs, none)
unfolding search_this
search_missed t i zero prev curr xs c out f = absurd (omega arith)
search_missed t i (suc fuel) prev curr [] c out f = rw c
search_missed t i (suc fuel) prev curr (y ∷ ys) c out f =
    let e : (y == i) ≡ false = ground arith in
    rw (c.0, e, search_this)
      (search_missed t i fuel (some y) (t y).next ys c.1 (ground arith) (omega arith))

-- Taking `i` out from behind `p`, the last slot before it, whatever the writes that do it.
pub Chain-remove :
    (t t' : Table) (a : Option ℕ) (x : ℕ) (xs ys : List ℕ) (i p : ℕ)
    → Chain t a (x ∷ xs ++ i ∷ ys)
    → Distinct (x ∷ xs ++ i ∷ ys)
    → last_of (some x) xs ≡ some p
    → (t' p).next ≡ (t i).next
    → ((j : ℕ) → (j == i) ≡ false → (j == p) ≡ false → (t' j).next ≡ (t j).next)
    → Chain t' a (x ∷ xs ++ ys)
Chain-remove t t' a x [] ys i p c d e new same =
    let e' : x ≡ p = some_inj e in
    (
      c.0,
      subst (λ n. Chain t' n ys) (sym (rw e' new))
          (Chain-frame t t' (t i).next ys c.1.1
            (λ j m. same j (ground (arith, has_ne i j ys)) (ground (arith, has_ne x j ys)))),
    )
Chain-remove t t' a x (y ∷ xs) ys i p c d e new same =
    let apart : has x (y ∷ xs) ≡ false = ground (arith, has-append x (y ∷ xs) (i ∷ ys)) in
    let ne = has_ne x p (y ∷ xs) apart (has-last y xs p e) in
    let ni : (x == i) ≡ false = ground (arith, has-append x (y ∷ xs) (i ∷ ys)) in
    (
      c.0,
      subst (λ n. Chain t' n (y ∷ xs ++ ys)) (sym (same x ni ne))
          (Chain-remove t t' (t x).next y xs ys i p c.1 d.1 e new same),
    )

pub Distinct-drop : (xs ys : List ℕ) (i : ℕ) → Distinct (xs ++ i ∷ ys) → Distinct (xs ++ ys)
Distinct-drop [] ys i d = d.1
Distinct-drop (x ∷ xs) ys i d =
    (ground (arith, has-append x xs ys, has-append x xs (i ∷ ys)), Distinct-drop xs ys i d.1)
