-- ===== src/Queue/Order.antt =====
-- The order of a queue, and what the test of pcb_queue_insert on `next` lets through.
use mathlib.Core.Path.{subst, fun_ext}
use os.Base.{
  sym, ap, ◌≢◌, ◌∙◌, ℕ, ◌≤◌, ◌<◌, ◌≡◌, refl, true, false, Option, none, some, List, [], ◌∷◌, ◌++◌,
  arith, has, leb, ◌==◌, if◌then◌else◌, Bool-cases, inl, inr, ok, panic, out_of_fuel, Outcome,
}
use os.Pcb.{Pcb, Table, is_some, Status}
use os.Queue.{
  Queue, pcb_queue_insert, predecessor, insert_behind, link, o_fifo, o_prio, o_pid, o_wakeup,
  wakeup_of, priority_of, pid_of,
}
use os.Queue.Chain.{Chain, Holds, next_self, last_of-append}
use os.Queue.Insert.{insert_sorted, insert_at, InsertResult, pcb_queue_insert_lem}

-- Every entry of the list has a key of at least `v`.
abbrev pub AtLeast : (Pcb → ℕ) → Table → ℕ → List ℕ → Type 0
AtLeast key t v [] = Unit {0}
AtLeast key t v (x ∷ xs) = (v ≤ key (t x)) × AtLeast key t v xs

-- The keys do not fall from the first entry to the last.
abbrev pub IsAscending : (Pcb → ℕ) → Table → List ℕ → Type 0
IsAscending key t [] = Unit {0}
IsAscending key t (x ∷ xs) = AtLeast key t (key (t x)) xs × IsAscending key t xs

module _ (key : Pcb → ℕ) (t : Table) where
  AtLeast-weaken : (v w : ℕ) (xs : List ℕ) → AtLeast key t v xs → w ≤ v → AtLeast key t w xs
  AtLeast-weaken v w [] h le = tt
  AtLeast-weaken v w (x ∷ xs) h le = (omega arith, AtLeast-weaken v w xs h.1 le)

  AtLeast-insert :
      (v i : ℕ) (xs : List ℕ)
      → AtLeast key t v xs
      → v ≤ key (t i)
      → AtLeast key t v (insert_sorted key t i xs)
  unfolding insert_sorted
  AtLeast-insert v i [] h le = (le, tt)
  AtLeast-insert v i (x ∷ xs) h le = elim (Bool-cases (leb (key (t x)) (key (t i)))) [
    | inl pass ↦ rw pass (h.0, AtLeast-insert v i xs h.1 le)
    | inr stop ↦ rw stop (le, h)
  ]

  insert_sorted-IsAscending :
      (i : ℕ) (xs : List ℕ) → IsAscending key t xs → IsAscending key t (insert_sorted key t i xs)
  unfolding insert_sorted
  insert_sorted-IsAscending i [] h = (tt, tt)
  insert_sorted-IsAscending i (x ∷ xs) h = elim (Bool-cases (leb (key (t x)) (key (t i)))) [
    | inl pass ↦
        rw pass
          (AtLeast-insert (key (t x)) i xs h.0 (ground arith), insert_sorted-IsAscending i xs h.1)
    | inr stop ↦
        let le : key (t i) ≤ key (t x) = ground arith in
        rw stop ((le, AtLeast-weaken (key (t x)) (key (t i)) xs h.0 le), h)
  ]

-- Only the keys of the entries matter.
AtLeast-same :
    (key : Pcb → ℕ) (t t' : Table) (v : ℕ) (xs : List ℕ)
    → ((j : ℕ) → key (t' j) ≡ key (t j))
    → AtLeast key t v xs
    → AtLeast key t' v xs
AtLeast-same key t t' v [] same h = tt
AtLeast-same key t t' v (x ∷ xs) same h =
    (subst (λ k. v ≤ k) (sym (same x)) h.0, AtLeast-same key t t' v xs same h.1)

IsAscending-same :
    (key : Pcb → ℕ) (t t' : Table) (xs : List ℕ)
    → ((j : ℕ) → key (t' j) ≡ key (t j))
    → IsAscending key t xs
    → IsAscending key t' xs
IsAscending-same key t t' [] same h = tt
IsAscending-same key t t' (x ∷ xs) same h = (
  subst (λ k. AtLeast key t' k xs) (sym (same x)) (AtLeast-same key t t' (key (t x)) xs same h.0),
  IsAscending-same key t t' xs same h.1,
)

-- The key by which a queue of the given order is kept, for the three orders that have one.
abbrev pub key_of : ℕ → Pcb → ℕ
key_of order p = if order == o_prio then p.priority else if order == o_pid then p.pid else p.wakeup

-- After the call the queue holds some list in ascending order.
abbrev pub AscendingResult : (Pcb → ℕ) → Outcome (Status × Table × Queue) → Type 0
AscendingResult key (ok (s, t', q')) =
    (ys : List ℕ) × (s ≡ Status.success) × Holds t' q' ys × IsAscending key t' ys
AscendingResult key panic = ⊥
AscendingResult key out_of_fuel = ⊥

ascending_from :
    (t : Table) (q : Queue) (i order : ℕ) (out : List ℕ) (r : Outcome (Status × Table × Queue))
    → InsertResult t q i out r
    → IsAscending (key_of order) t out
    → AscendingResult (key_of order) r
ascending_from t q i order out (ok (s, t', q')) (e, ins) asc = (
  out,
  e,
  ins.holds,
  IsAscending-same (key_of order) t t' out (λ j. ap (key_of order) (ins.fields j)) asc,
)
ascending_from t q i order out panic r asc = absurd r
ascending_from t q i order out out_of_fuel r asc = absurd r

insert_at_by :
    (order : ℕ) (t : Table) (i : ℕ) (xs : List ℕ) (key : Pcb → ℕ)
    → key_of order ≡ key
    → insert_at order t i xs ≡ insert_sorted key t i xs
    → IsAscending (key_of order) t xs
    → IsAscending (key_of order) t (insert_at order t i xs)
insert_at_by order t i xs key ke ie asc = rw ie (
    subst (λ k. IsAscending k t (insert_sorted key t i xs)) (sym ke)
      (insert_sorted-IsAscending key t i xs (subst (λ k. IsAscending k t xs) ke asc)))

insert_at-IsAscending :
    (order : ℕ) (t : Table) (i : ℕ) (xs : List ℕ)
    → order ≢ o_fifo
    → order ≤ o_wakeup
    → IsAscending (key_of order) t xs
    → IsAscending (key_of order) t (insert_at order t i xs)
unfolding insert_at
insert_at-IsAscending order t i xs ne le asc =
    let a : (order == o_fifo) ≡ false = ground arith in
    elim (Bool-cases (order == o_prio)) [
      | inl e ↦ insert_at_by order t i xs priority_of (fun_ext (λ p. rw e)) (rw (a, e)) asc
      | inr b ↦ elim (Bool-cases (order == o_pid)) [
        | inl e ↦ insert_at_by order t i xs pid_of (fun_ext (λ p. rw (b, e))) (rw (a, b, e)) asc
        | inr c ↦ insert_at_by order t i xs wakeup_of (fun_ext (λ p. rw (b, c))) (rw (a, b, c)) asc
      ]
    ]

-- A queue by priority, PID or wakeup time that is in ascending order, and takes a PCB that is not
-- in it and whose `next` is NULL, is in ascending order afterwards.
pub pcb_queue_insert-IsAscending :
    (t : Table) (q : Queue) (i : ℕ) (xs : List ℕ)
    → Holds t q xs
    → q.order ≢ o_fifo
    → q.order ≤ o_wakeup
    → has i xs ≡ false
    → (t i).next ≡ none
    → q.length < 0xffff_ffff
    → IsAscending (key_of q.order) t xs
    → AscendingResult (key_of q.order) (pcb_queue_insert t q i)
pcb_queue_insert-IsAscending t q i xs h ne le out free small asc =
    ascending_from t q i q.order (insert_at q.order t i xs) (pcb_queue_insert t q i)
      (pcb_queue_insert_lem t q i xs h le out free small)
      (insert_at-IsAscending q.order t i xs ne le asc)

-- After the call the PCB `i` points to itself.
abbrev pub SelfLoop : ℕ → Outcome (Status × Table × Queue) → Type 0
SelfLoop i (ok (s, t', q')) = (s ≡ Status.success) × ((t' i).next ≡ some i)
SelfLoop i panic = ⊥
SelfLoop i out_of_fuel = ⊥

-- The test of pcb_queue_insert does not see that the last PCB of a queue is in it, as its `next`
-- is NULL: on a FIFO queue that holds `xs` and then `i`, inserting `i` once more succeeds, and
-- leaves `i` pointing to itself.
pub pcb_queue_insert-SelfLoop :
    (t : Table) (q : Queue) (i : ℕ) (xs : List ℕ)
    → Holds t q (xs ++ i ∷ [])
    → q.order ≡ o_fifo
    → SelfLoop i (pcb_queue_insert t q i)
unfolding pcb_queue_insert insert_behind predecessor link
pcb_queue_insert-SelfLoop t q i xs h fifo =
    simp (stop, tail, fifo, held xs h.chain) (refl, next_self t i (some i))
  where
    tail : q.tail ≡ some i
    tail = h.tail ∙ last_of-append none xs (i ∷ [])

    held : (ys : List ℕ) → Chain t q.head (ys ++ i ∷ []) → is_some q.head ≡ true
    held [] c = rw c.0
    held (y ∷ ys) c = rw c.0

    ends : (ys : List ℕ) (a : Option ℕ) → Chain t a (ys ++ i ∷ []) → (t i).next ≡ none
    ends [] a c = c.1
    ends (y ∷ ys) a c = ends ys (t y).next c.1

    stop : (t i).next ≡ none
    stop = ends xs q.head h.chain
