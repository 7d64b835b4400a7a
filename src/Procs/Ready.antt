-- ===== src/Procs/Ready.antt =====
-- schedule and dispatch: what they do to the ready queue and to the process.
use mathlib.Core.Path.{subst}
use os.Base.{
  ℕ, ◌<◌, ◌≡◌, refl, sym, ap, ◌∙◌, ◌⊎◌, Bool, true, false, not, Option, none, some, List, [], ◌∷◌,
  Outcome, ok, panic, out_of_fuel, arith, has, ◌||◌, ◌==◌, Bool-cases, inl, inr,
}
use os.Pcb.{Pcb, Table, State, Status, update, is_killed, is_some}
use os.Queue.{Queue, o_prio, priority_of, pcb_queue_insert, pcb_queue_remove}
use os.Queue.Chain.{Distinct, Chain-frame, Holds, has_ne}
use os.Queue.Insert.{InsertResult, insert_at, insert_sorted, pcb_queue_insert_lem}
use os.Queue.Remove.{Beheaded, RemoveResult, pcb_queue_remove_lem}
use os.Kernel.{
  Kernel, QueueId, set_queue, M, assert, and_then, ◌>>=◌, ◌>>◌, deref, modify, write_pcb, insert,
  remove, lift_queue,
}
use os.Procs.{quantum_standard, need, make_ready, schedule, schedule_fuel, dispatch}

-- A write to a slot outside a queue leaves the queue as it is.
pub Holds-update :
    (t : Table) (q : Queue) (xs : List ℕ) (i : ℕ) (p : Pcb)
    → Holds t q xs
    → has i xs ≡ false
    → Holds (update t i p) q xs
unfolding update
Holds-update t q xs i p h out = record {
  chain = Chain-frame t (update t i p) q.head xs h.chain (λ j m. ground (arith, has_ne i j xs));
  distinct = h.distinct;
  tail = h.tail;
  length = h.length;
}

pub insert_sorted_same :
    (key : Pcb → ℕ) (t t' : Table) (i : ℕ) (xs : List ℕ)
    → ((j : ℕ) → key (t' j) ≡ key (t j))
    → insert_sorted key t' i xs ≡ insert_sorted key t i xs
unfolding insert_sorted
insert_sorted_same key t t' i [] same = refl
insert_sorted_same key t t' i (x ∷ xs) same =
    rw (same x, same i, insert_sorted_same key t t' i xs same)

pub has-insert_sorted :
    (key : Pcb → ℕ) (t : Table) (i j : ℕ) (xs : List ℕ)
    → has j (insert_sorted key t i xs) ≡ ((j == i) || has j xs)
unfolding insert_sorted
has-insert_sorted key t i j [] = refl
has-insert_sorted key t i j (x ∷ xs) = ground (arith, has-insert_sorted key t i j xs)

-- A queue is unchanged where the `next` fields of its PCBs are.
pub Holds-frame :
    (t t' : Table) (q : Queue) (xs : List ℕ)
    → Holds t q xs
    → ((j : ℕ) → has j xs ≡ true → (t' j).next ≡ (t j).next)
    → Holds t' q xs
Holds-frame t t' q xs h same = record {
  chain = Chain-frame t t' q.head xs h.chain same;
  distinct = h.distinct;
  tail = h.tail;
  length = h.length;
}

-- What a process that is made ready leaves.
pub record Readied (k : Kernel) (i : ℕ) (k' : Kernel) (xs : List ℕ) : Type 0 where
  pub holds : Holds k'.ptable k'.ready (insert_sorted priority_of k.ptable i xs)
  pub order : k'.ready.order ≡ o_prio
  pub self : k'.ptable i ≡ record (k.ptable i) { state = State.ready; next = (k'.ptable i).next }
  pub fields : (j : ℕ) → (j ≡ i) ⊎ (k'.ptable j ≡ record (k.ptable j) { next = (k'.ptable j).next })
  pub spared :
      (j : ℕ)
      → (has j (insert_sorted priority_of k.ptable i xs) ≡ true) ⊎ (k'.ptable j ≡ k.ptable j)
  pub rest : k' ≡ record k { ptable = k'.ptable; ready = k'.ready }

abbrev pub ReadyResult : Kernel → ℕ → List ℕ → Outcome (Unit {0} × Kernel) → Type 0
ReadyResult k i xs (ok (u, k')) = Readied k i k' xs
ReadyResult k i xs panic = ⊥
ReadyResult k i xs out_of_fuel = ⊥

-- make_ready's write to the process' slot.
abbrev readied : Table → ℕ → Table
readied t i = update t i (record (t i) { state = State.ready; next = none })

readied_priority : (t : Table) (i j : ℕ) → priority_of (readied t i j) ≡ priority_of (t j)
unfolding update
readied_priority t i j = ground arith

readied_self :
    (t : Table) (i : ℕ) → readied t i i ≡ record (t i) { state = State.ready; next = none }
unfolding update
readied_self t i = ground arith

readied_other : (t : Table) (i j : ℕ) → (j == i) ≡ false → readied t i j ≡ t j
unfolding update
readied_other t i j ne = rw ne

prio-insert_at :
    (t : Table) (i : ℕ) (xs : List ℕ) → insert_at o_prio t i xs ≡ insert_sorted priority_of t i xs
unfolding insert_at
prio-insert_at t i xs = refl

ready_from :
    (k : Kernel) (i : ℕ) (xs : List ℕ) (r : Outcome (Status × Table × Queue))
    → k.ready.order ≡ o_prio
    → InsertResult
        (readied k.ptable i)
        k.ready
        i
        (insert_at k.ready.order (readied k.ptable i) i xs)
        r
    → ReadyResult k i xs (
        and_then
          (lift_queue QueueId.ready (record k { ptable = readied k.ptable i }) r)
          (λ s. need s))
unfolding lift_queue
ready_from k i xs panic prio d = elim d [ ]
ready_from k i xs out_of_fuel prio d = elim d [ ]
ready_from k i xs (ok (s, t', q')) prio (e, d) = simp e (record {
  holds = subst (λ ys. Holds t' q' ys) out d.holds;
  order = d.order ∙ prio;
  self = (d.fields i ∙ ap (λ (p : Pcb). record p { next = (t' i).next }) (readied_self k.ptable i));
  fields = λ j. elim (Bool-cases (j == i)) [
    | inl e ↦ inl (ground arith)
    | inr ne ↦ inr (
        d.fields j
        ∙ ap (λ (p : Pcb). record p { next = (t' j).next }) (readied_other k.ptable i j ne))
  ];
  spared = λ j. elim (Bool-cases (j == i)) [
    | inl e ↦ inl (has-insert_sorted priority_of k.ptable i j xs ∙ rw e)
    | inr ne ↦ elim (d.spared j) [
      | inl there ↦ inl (ap (has j) (sym out) ∙ there)
      | inr same ↦ inr (same ∙ readied_other k.ptable i j ne)
    ]
  ];
  rest = refl;
})
  where
    out :
        insert_at k.ready.order (readied k.ptable i) i xs ≡ insert_sorted priority_of k.ptable i xs
    out =
        ap (λ o. insert_at o (readied k.ptable i) i xs) prio
        ∙ prio-insert_at (readied k.ptable i) i xs
        ∙ insert_sorted_same priority_of k.ptable (readied k.ptable i) i xs
            (readied_priority k.ptable i)

-- With a ready queue by priority, schedule puts a process that is not killed, and is not in that
-- queue, into it before the first process with a greater priority value, as READY whatever its
-- state was. It changes no other queue, and no field of another process but `next`.
pub schedule_lem :
    (k : Kernel) (i : ℕ) (xs : List ℕ)
    → Holds k.ptable k.ready xs
    → k.ready.order ≡ o_prio
    → has i xs ≡ false
    → is_killed (k.ptable i).state ≡ false
    → k.ready.length < 0xffff_ffff
    → ReadyResult k i xs (schedule i k)
unfolding schedule schedule_fuel make_ready insert
schedule_lem k i xs h prio out alive small = rw alive (
    ready_from k i xs (pcb_queue_insert (readied k.ptable i) k.ready i) prio (
      pcb_queue_insert_lem (readied k.ptable i) k.ready i xs
        (Holds-update k.ptable k.ready xs i
          (record (k.ptable i) { state = State.ready; next = none }) h out)
        (omega (arith, prio)) out (ap (λ (p : Pcb). p.next) (readied_self k.ptable i)) small))

-- What a dispatched process leaves.
pub record Dispatched (k : Kernel) (x : ℕ) (xs : List ℕ) (k' : Kernel) : Type 0 where
  pub current : k'.current ≡ some x
  pub holds : Holds k'.ptable k'.ready xs
  pub running :
      k'.ptable x
      ≡ record (k.ptable x) { state = State.running; ticks = quantum_standard; next = none }
  pub spared : (j : ℕ) → (j ≡ x) ⊎ (k'.ptable j ≡ k.ptable j)
  pub rest : k' ≡ record k { current = some x; ptable = k'.ptable; ready = k'.ready }

abbrev pub DispatchResult : Kernel → List ℕ → Outcome (Unit {0} × Kernel) → Type 0
DispatchResult k [] r = r ≡ panic
DispatchResult k (x ∷ xs) (ok (u, k')) = Dispatched k x xs k'
DispatchResult k (x ∷ xs) panic = ⊥
DispatchResult k (x ∷ xs) out_of_fuel = ⊥

-- dispatch's write to the slot.
abbrev started : Table → ℕ → Table
started t i = update t i (record (t i) { state = State.running; ticks = quantum_standard })

started_self :
    (t : Table) (i : ℕ)
    → started t i i ≡ record (t i) { state = State.running; ticks = quantum_standard }
unfolding update
started_self t i = ground arith

started_other : (t : Table) (i j : ℕ) → (j == i) ≡ false → started t i j ≡ t j
unfolding update
started_other t i j ne = rw ne

dispatched :
    (k : Kernel) (x : ℕ) (xs : List ℕ) (t' : Table) (q' : Queue)
    → has x xs ≡ false
    → Beheaded k.ptable k.ready x xs t' q'
    → Dispatched k x xs (record k { current = some x; ptable = started t' x; ready = q' })
dispatched k x xs t' q' out d = record {
  current = refl;
  holds =
      Holds-update t' q' xs x (record (t' x) { state = State.running; ticks = quantum_standard })
        d.holds out;
  running =
      started_self t' x
      ∙ ap (λ (p : Pcb). record p { state = State.running; ticks = quantum_standard }) d.detached;
  spared = λ j. elim (Bool-cases (j == x)) [
    | inl e ↦ inl (ground arith)
    | inr ne ↦ elim (d.spared j) [ inl e ↦ inl e | inr same ↦ inr (started_other t' x j ne ∙ same) ]
  ];
  rest = refl;
}

-- What dispatch does with what it took off the queue.
abbrev start : Status × Option ℕ → M (Unit {0})
start r =
    need r.0
    >> (deref r.1 >>= λ i.
        modify (λ s. record s { current = some i })
        >> write_pcb i (λ p. record p { state = State.running; ticks = quantum_standard }))

start_from :
    (k : Kernel) (xs : List ℕ) (r : Status × Option ℕ × Table × Queue)
    → Distinct xs
    → RemoveResult k.ptable k.ready xs r
    → DispatchResult k xs (
        let (s, got, t, q) = r in
        start (s, got) (set_queue QueueId.ready q (record k { ptable = t })))
start_from k [] (s, got, t', q') d (e, first, t_same, q_same) = rw e
start_from k (x ∷ xs) (s, got, t', q') d (e, first, removed) =
    simp (e, first) (dispatched k x xs t' q' d.0 removed)

assert-true :
    (b : Bool) (k : Kernel) (f : Unit {0} → M (Unit {0}))
    → b ≡ true
    → and_then (assert b k) f ≡ f tt k
assert-true b k f e = rw e

-- With no current process, dispatch takes the first process off the ready queue and makes it the
-- current one, with a full quantum and in state RUNNING whatever its state was, KILLED included.
-- It changes no other queue and no other process. It panics if no process is ready.
pub dispatch_lem :
    (k : Kernel) (xs : List ℕ)
    → Holds k.ptable k.ready xs
    → k.current ≡ none
    → k.ready.length < 0x1_0000_0000
    → DispatchResult k xs (dispatch k)
unfolding dispatch remove
dispatch_lem k xs h idle small =
    subst (DispatchResult k xs)
      (sym
        (assert-true (not (is_some k.current)) k (λ u. remove QueueId.ready >>= start) (rw idle)))
      (start_from k xs (pcb_queue_remove k.ptable k.ready) h.distinct
        (pcb_queue_remove_lem k.ptable k.ready xs h small))
