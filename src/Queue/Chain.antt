-- ===== src/Queue/Chain.antt =====
-- What a queue stands for: the chain of `next` pointers from its head.
use mathlib.Core.Path.{subst}
use os.Base.{
  sym, ap, ◌∙◌, ℕ, ◌≡◌, refl, true, false, ◌||◌, Option, none, some, List, [], ◌∷◌, ◌++◌, arith,
  length, has, ◌==◌,
}
use os.Pcb.{Pcb, Table, set_next}
use os.Queue.{Queue}

-- From `p` the `next` pointers lead through the slots of `xs` to NULL.
abbrev pub Chain : Table → Option ℕ → List ℕ → Type 0
Chain t p [] = p ≡ none
Chain t p (x ∷ xs) = (p ≡ some x) × Chain t (t x).next xs

-- No slot stands twice in the list.
abbrev pub Distinct : List ℕ → Type 0
Distinct [] = Unit {0}
Distinct (x ∷ xs) = (has x xs ≡ false) × Distinct xs

abbrev pub last_of : Option ℕ → List ℕ → Option ℕ
last_of d [] = d
last_of d (x ∷ xs) = last_of (some x) xs

-- The queue holds the PCBs `xs`, first to last.
pub record Holds (t : Table) (q : Queue) (xs : List ℕ) : Type 0 where
  pub chain : Chain t q.head xs
  pub distinct : Distinct xs
  pub tail : q.tail ≡ last_of none xs
  pub length : q.length ≡ length xs

-- What a write to a `next` field leaves in that field of each slot.
pub next_self : (t : Table) (i : ℕ) (n : Option ℕ) → (set_next t i n i).next ≡ n
unfolding set_next
next_self t i n = ground arith

pub next_other :
    (t : Table) (i : ℕ) (n : Option ℕ) (j : ℕ)
    → (j == i) ≡ false
    → (set_next t i n j).next ≡ (t j).next
unfolding set_next
next_other t i n j ne = ground arith

pub set_next_self :
    (t : Table) (i : ℕ) (n : Option ℕ) → set_next t i n i ≡ record (t i) { next = n }
unfolding set_next
set_next_self t i n = ground arith

pub set_next_other :
    (t : Table) (i : ℕ) (n : Option ℕ) (j : ℕ) → (j == i) ≡ false → set_next t i n j ≡ t j
unfolding set_next
set_next_other t i n j ne = rw ne

-- A write to a `next` field changes no other field of any slot.
pub set_next_fields :
    (t : Table) (i : ℕ) (n : Option ℕ) (j : ℕ)
    → set_next t i n j ≡ record (t j) { next = (set_next t i n j).next }
unfolding set_next
set_next_fields t i n j = ground arith

pub set_next_fields_twice :
    (t : Table) (i : ℕ) (n : Option ℕ) (p : ℕ) (m : Option ℕ) (j : ℕ)
    → set_next (set_next t i n) p m j
      ≡ record (t j) { next = (set_next (set_next t i n) p m j).next }
set_next_fields_twice t i n p m j =
    set_next_fields (set_next t i n) p m j
    ∙ ap (λ (r : Pcb). record r { next = (set_next (set_next t i n) p m j).next })
        (set_next_fields t i n j)

-- A chain is unchanged where the `next` fields of its slots are.
pub Chain-frame :
    (t t' : Table) (p : Option ℕ) (xs : List ℕ)
    → Chain t p xs
    → ((j : ℕ) → has j xs ≡ true → (t' j).next ≡ (t j).next)
    → Chain t' p xs
Chain-frame t t' p [] c same = c
Chain-frame t t' p (x ∷ xs) c same = (
  c.0,
  subst (λ n. Chain t' n xs) (sym (same x (ground arith)))
      (Chain-frame t t' (t x).next xs c.1 (λ j m. same j (ground arith))),
)

pub last_of-append :
    (d : Option ℕ) (xs ys : List ℕ) → last_of d (xs ++ ys) ≡ last_of (last_of d xs) ys
last_of-append d [] ys = refl
last_of-append d (x ∷ xs) ys = last_of-append (some x) xs ys

pub has-append : (a : ℕ) (xs ys : List ℕ) → has a (xs ++ ys) ≡ (has a xs || has a ys)
has-append a [] ys = refl
has-append a (x ∷ xs) ys = ground (arith, has-append a xs ys)

pub Distinct-middle :
    (xs ys : List ℕ) (i : ℕ)
    → Distinct (xs ++ ys)
    → has i (xs ++ ys) ≡ false
    → Distinct (xs ++ i ∷ ys)
Distinct-middle [] ys i d out = (out, d)
Distinct-middle (x ∷ xs) ys i d out = (
  ground (arith, has-append x xs ys, has-append x xs (i ∷ ys)),
  Distinct-middle xs ys i d.1 (ground arith),
)

-- The last slot of a list that is not empty stands in it.
pub has-last : (x : ℕ) (xs : List ℕ) (p : ℕ) → last_of (some x) xs ≡ some p → has p (x ∷ xs) ≡ true
has-last x [] p e = ground arith
has-last x (y ∷ ys) p e = ground (arith, has-last y ys p e)

pub has_ne : (a b : ℕ) (xs : List ℕ) → has a xs ≡ false → has b xs ≡ true → (a == b) ≡ false
has_ne a b xs h k = ground arith

pub some_inj : {a b : ℕ} → some a ≡ some b → a ≡ b
some_inj e = ground arith

pub last_some : (x : ℕ) (xs : List ℕ) → (p : ℕ) × (last_of (some x) xs ≡ some p)
last_some x [] = (x, refl)
last_some x (y ∷ ys) = last_some y ys

-- What the last slot of a front part points to is what the rest of the list starts from.
pub Chain-after :
    (t : Table) (a : Option ℕ) (x : ℕ) (xs ys : List ℕ) (p : ℕ)
    → Chain t a (x ∷ xs ++ ys)
    → last_of (some x) xs ≡ some p
    → Chain t (t p).next ys
Chain-after t a x [] ys p c e = subst (λ n. Chain t (t n).next ys) (some_inj e) c.1
Chain-after t a x (y ∷ xs) ys p c e = Chain-after t (t x).next y xs ys p c.1 e

-- Putting `i` behind the last slot `p` of the front part, whatever the writes that do it.
pub Chain-insert :
    (t t' : Table) (a : Option ℕ) (x : ℕ) (xs ys : List ℕ) (i p : ℕ)
    → Chain t a (x ∷ xs ++ ys)
    → Distinct (x ∷ xs ++ ys)
    → has i (x ∷ xs ++ ys) ≡ false
    → last_of (some x) xs ≡ some p
    → (t' i).next ≡ (t p).next
    → (t' p).next ≡ some i
    → ((j : ℕ) → (j == i) ≡ false → (j == p) ≡ false → (t' j).next ≡ (t j).next)
    → Chain t' a (x ∷ xs ++ i ∷ ys)
Chain-insert t t' a x [] ys i p c d out e new old same =
    let e' : x ≡ p = some_inj e in
    let after = Chain-after t a x [] ys p c e in
    (
      c.0,
      (
        rw e' old,
        subst (λ n. Chain t' n ys) (sym new)
            (Chain-frame t t' (t p).next ys after (λ j m. same j (ground arith) (ground arith))),
      ),
    )
Chain-insert t t' a x (y ∷ xs) ys i p c d out e new old same =
    let apart : has x (y ∷ xs) ≡ false = ground (arith, has-append x (y ∷ xs) ys) in
    let ne = has_ne x p (y ∷ xs) apart (has-last y xs p e) in
    (
      c.0,
      subst (λ n. Chain t' n (y ∷ xs ++ i ∷ ys)) (sym (same x (ground arith) (ground arith)))
          (Chain-insert t t' (t x).next y xs ys i p c.1 d.1 (ground arith) e new old same),
    )
