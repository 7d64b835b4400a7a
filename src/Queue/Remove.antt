-- ===== src/Queue/Remove.antt =====
-- pcb_queue_remove, pcb_queue_remove_this and pcb_queue_reset.
use os.Base.{
  sym, ◌∙◌, ◌⊎◌, ℕ, ◌<◌, ◌≡◌, refl, Option, none, some, List, [], ◌∷◌, arith, ◌==◌, Bool-cases, inl,
  inr,
}
use os.Pcb.{Table, set_next, Status}
use os.Queue.{Queue, pcb_queue_remove, remove_from, behead}
use os.Queue.Chain.{Holds, set_next_self, next_other, set_next_other, Chain-frame, has_ne}

-- What taking out the PCB `i` leaves, for the list `out` that the queue then holds.
pub record Removed (t : Table) (q : Queue) (i : ℕ) (out : List ℕ) (t' : Table) (q' : Queue)
    : Type 0 where
  pub holds : Holds t' q' out
  pub order : q'.order ≡ q.order
  pub detached : (t' i).next ≡ none
  pub fields : (j : ℕ) → t' j ≡ record (t j) { next = (t' j).next }

-- What taking off the first PCB leaves.
pub record Beheaded (t : Table) (q : Queue) (i : ℕ) (out : List ℕ) (t' : Table) (q' : Queue)
    : Type 0 where
  pub holds : Holds t' q' out
  pub order : q'.order ≡ q.order
  pub detached : t' i ≡ record (t i) { next = none }
  pub spared : (j : ℕ) → (j ≡ i) ⊎ (t' j ≡ t j)

abbrev pub RemoveResult : Table → Queue → List ℕ → Status × Option ℕ × Table × Queue → Type 0
RemoveResult t q [] (s, got, t', q') =
    (s ≡ Status.e_empty_queue) × (got ≡ none) × (t' ≡ t) × (q' ≡ q)
RemoveResult t q (x ∷ xs) (s, got, t', q') =
    (s ≡ Status.success) × (got ≡ some x) × Beheaded t q x xs t' q'

-- The queue that is left when the first slot is taken off.
behead-Holds :
    (t : Table) (q : Queue) (x : ℕ) (xs : List ℕ) (n : Option ℕ)
    → Holds t q (x ∷ xs)
    → (t x).next ≡ n
    → q.length < 0x1_0000_0000
    → Holds (set_next t x none) (behead q n) xs
unfolding behead
behead-Holds t q x [] n h e small =
    let e' : n ≡ none = sym e ∙ h.chain.1 in
    rw e' (record { chain = refl; distinct = tt; tail = refl; length = refl })
behead-Holds t q x (y ∷ ys) n h e small =
    let e' : n ≡ some y = sym e ∙ h.chain.1.0 in
    rw e' (record {
      chain =
          Chain-frame t (set_next t x none) (some y) (y ∷ ys) (refl, h.chain.1.1)
            (λ j m. next_other t x none j (ground (arith, has_ne x j (y ∷ ys))));
      distinct = h.distinct.1;
      tail = h.tail;
      length = omega (arith, h.length);
    })

-- From a queue that holds PCBs, pcb_queue_remove takes the first: it is returned with a NULL
-- `next` and no other field changed, the queue holds the others in the same order, and no other
-- PCB changes. From an empty queue it returns E_EMPTY_QUEUE and changes nothing.
pub pcb_queue_remove_lem :
    (t : Table) (q : Queue) (xs : List ℕ)
    → Holds t q xs
    → q.length < 0x1_0000_0000
    → RemoveResult t q xs (pcb_queue_remove t q)
unfolding pcb_queue_remove remove_from
pcb_queue_remove_lem t q [] h small = simp h.chain (refl, refl, refl, refl)
pcb_queue_remove_lem t q (x ∷ xs) h small = simp h.chain.0 (
  refl,
  refl,
  record {
    holds = behead-Holds t q x xs (t x).next h refl small;
    order = behead_order (t x).next;
    detached = set_next_self t x none;
    spared = λ j. elim (Bool-cases (j == x)) [
      | inl e ↦ inl (ground arith)
      | inr ne ↦ inr (set_next_other t x none j ne)
    ];
  },
)
  where
    behead_order : (n : Option ℕ) → (behead q n).order ≡ q.order
    behead_order none = refl
    behead_order (some n) = refl
