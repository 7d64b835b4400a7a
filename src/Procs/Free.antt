-- ===== src/Procs/Free.antt =====
-- pcb_alloc, pcb_free and pcb_init: the list of free PCBs.
use mathlib.Core.Path.{subst}
use os.Base.{
  ℕ, zero, suc, ◌+◌, ◌≤◌, ◌<◌, ◌≡◌, refl, ap, ap₂, ◌∙◌, ◌⊎◌, false, Option, none, some, List, [],
  ◌∷◌, ◌++◌, append_assoc, append-nil, Outcome, ok, panic, out_of_fuel, arith, length,
  length-append, has, leb, ltb, ◌==◌, if◌then◌else◌, Bool-cases, inl, inr,
}
use os.Pcb.{Pcb, Table, State, Status, update, is_success, n_procs}
use os.Queue.{
  Queue, o_fifo, o_prio, o_pid, o_wakeup, pcb_queue_insert, pcb_queue_remove, pcb_queue_reset,
}
use os.Queue.Chain.{Holds}
use os.Queue.Insert.{InsertResult, insert_at, pcb_queue_insert_lem}
use os.Queue.Remove.{Beheaded, RemoveResult, pcb_queue_remove_lem}
use os.Kernel.{Kernel, QueueId, set_queue, and_then, pure, insert, remove, lift_queue}
use os.Procs.{need, pcb_alloc, pcb_free, free_all, qinit, pcb_init, first_user_pid}
use os.Procs.Ready.{Holds-update}

-- What pcb_free leaves.
pub record Freed (k : Kernel) (i : ℕ) (xs : List ℕ) (k' : Kernel) : Type 0 where
  pub holds : Holds k'.ptable k'.freelist (xs ++ i ∷ [])
  pub order : k'.freelist.order ≡ o_fifo
  pub unused : (k'.ptable i).state ≡ State.unused
  pub fields : (j : ℕ) → (j ≡ i) ⊎ (k'.ptable j ≡ record (k.ptable j) { next = (k'.ptable j).next })
  pub rest : k' ≡ record k { ptable = k'.ptable; freelist = k'.freelist }

abbrev pub FreedResult : Kernel → ℕ → List ℕ → Outcome (Unit {0} × Kernel) → Type 0
FreedResult k i xs (ok (u, k')) = Freed k i xs k'
FreedResult k i xs panic = ⊥
FreedResult k i xs out_of_fuel = ⊥

-- pcb_free's write to the slot.
abbrev cleared : Table → ℕ → Table
cleared t i = update t i (record (t i) { state = State.unused; next = none })

cleared_self :
    (t : Table) (i : ℕ) → cleared t i i ≡ record (t i) { state = State.unused; next = none }
unfolding update
cleared_self t i = ground arith

cleared_other : (t : Table) (i j : ℕ) → (j == i) ≡ false → cleared t i j ≡ t j
unfolding update
cleared_other t i j ne = rw ne

fifo-insert_at : (t : Table) (i : ℕ) (xs : List ℕ) → insert_at o_fifo t i xs ≡ xs ++ i ∷ []
unfolding insert_at
fifo-insert_at t i xs = refl

freed_from :
    (k : Kernel) (i : ℕ) (xs : List ℕ) (r : Outcome (Status × Table × Queue))
    → k.freelist.order ≡ o_fifo
    → InsertResult
        (cleared k.ptable i)
        k.freelist
        i
        (insert_at k.freelist.order (cleared k.ptable i) i xs)
        r
    → FreedResult k i xs (
        and_then
          (lift_queue QueueId.pcb_freelist (record k { ptable = cleared k.ptable i }) r)
          (λ s. need s))
unfolding lift_queue
freed_from k i xs panic fifo d = elim d [ ]
freed_from k i xs out_of_fuel fifo d = elim d [ ]
freed_from k i xs (ok (s, t', q')) fifo (e, d) = simp e (record {
  holds =
      subst (λ ys. Holds t' q' ys)
        (ap (λ o. insert_at o (cleared k.ptable i) i xs) fifo
          ∙ fifo-insert_at (cleared k.ptable i) i xs)
        d.holds;
  order = d.order ∙ fifo;
  unused =
      ap (λ (p : Pcb). p.state)
        (d.fields i ∙ ap (λ (p : Pcb). record p { next = (t' i).next }) (cleared_self k.ptable i));
  fields = λ j. elim (Bool-cases (j == i)) [
    | inl e ↦ inl (ground arith)
    | inr ne ↦ inr (
        d.fields j
        ∙ ap (λ (p : Pcb). record p { next = (t' j).next }) (cleared_other k.ptable i j ne))
  ];
  rest = refl;
})

-- With a FIFO free list, pcb_free marks a PCB that is not in it as UNUSED and puts it at the end.
-- It changes no queue but that, and no field of another PCB but `next`.
pub pcb_free_lem :
    (k : Kernel) (i : ℕ) (xs : List ℕ)
    → Holds k.ptable k.freelist xs
    → k.freelist.order ≡ o_fifo
    → has i xs ≡ false
    → k.freelist.length < 0xffff_ffff
    → FreedResult k i xs (pcb_free (some i) k)
unfolding pcb_free insert
pcb_free_lem k i xs h fifo out small =
    freed_from k i xs (pcb_queue_insert (cleared k.ptable i) k.freelist i) fifo (
      pcb_queue_insert_lem (cleared k.ptable i) k.freelist i xs
        (Holds-update k.ptable k.freelist xs i
          (record (k.ptable i) { state = State.unused; next = none }) h out)
        (omega (arith, fifo)) out (ap (λ (p : Pcb). p.next) (cleared_self k.ptable i)) small)

-- The `n` slots from `i` on.
abbrev pub slots : ℕ → ℕ → List ℕ
slots i zero = []
slots i (suc n) = i ∷ slots (i + 1) n

-- What free_all leaves when the first `i` slots were free before.
pub record AllFreed (k : Kernel) (i n : ℕ) (xs : List ℕ) (k' : Kernel) : Type 0 where
  pub holds : Holds k'.ptable k'.freelist (xs ++ slots i n)
  pub order : k'.freelist.order ≡ o_fifo
  pub unused :
      (j : ℕ)
      → j < i + n
      → ((i ≤ j) ⊎ ((k.ptable j).state ≡ State.unused))
      → (k'.ptable j).state ≡ State.unused
  pub rest : k' ≡ record k { ptable = k'.ptable; freelist = k'.freelist }

abbrev pub AllFreedResult : Kernel → ℕ → ℕ → List ℕ → Outcome (Unit {0} × Kernel) → Type 0
AllFreedResult k i n xs (ok (u, k')) = AllFreed k i n xs k'
AllFreedResult k i n xs panic = ⊥
AllFreedResult k i n xs out_of_fuel = ⊥

-- Every slot of the list lies below `i`.
abbrev Below : ℕ → List ℕ → Type 0
Below i [] = Unit {0}
Below i (x ∷ xs) = (x < i) × Below i xs

Below-has : (i : ℕ) (xs : List ℕ) → Below i xs → has i xs ≡ false
Below-has i [] b = refl
Below-has i (x ∷ xs) (lt, b) = ground (arith, Below-has i xs b)

Below-append : (i : ℕ) (xs : List ℕ) → Below i xs → Below (i + 1) (xs ++ i ∷ [])
Below-append i [] b = (omega arith, tt)
Below-append i (x ∷ xs) (lt, b) = (omega arith, Below-append i xs b)

free_all_step :
    (k k1 : Kernel) (i n : ℕ) (xs : List ℕ) (r : Outcome (Unit {0} × Kernel))
    → Freed k i xs k1
    → AllFreedResult k1 (i + 1) n (xs ++ i ∷ []) r
    → AllFreedResult k i (suc n) xs r
free_all_step k k1 i n xs panic d a = elim a [ ]
free_all_step k k1 i n xs out_of_fuel d a = elim a [ ]
free_all_step k k1 i n xs (ok (u, k')) d a = record {
  holds =
      subst (λ ys. Holds k'.ptable k'.freelist ys) (append_assoc xs (i ∷ []) (slots (i + 1) n))
        a.holds;
  order = a.order;
  unused = λ j lt was. a.unused j (omega arith) (kept j was);
  rest =
      a.rest ∙ ap (λ (c : Kernel). record c { ptable = k'.ptable; freelist = k'.freelist }) d.rest;
}
  where
    kept :
        (j : ℕ)
        → (i ≤ j) ⊎ ((k.ptable j).state ≡ State.unused)
        → (i + 1 ≤ j) ⊎ ((k1.ptable j).state ≡ State.unused)
    kept j was = elim (d.fields j) [
      | inl same ↦ inr (ap (λ c. (k1.ptable c).state) same ∙ d.unused)
      | inr e ↦ elim (Bool-cases (leb (i + 1) j)) [
        | inl above ↦ inl (ground arith)
        | inr up_to ↦ elim was [
          | inl le ↦
              let same : j ≡ i = ground arith in inr (ap (λ c. (k1.ptable c).state) same ∙ d.unused)
          | inr free ↦ inr (ap (λ (p : Pcb). p.state) e ∙ free)
        ]
      ]
    ]

free_all_from :
    (k : Kernel) (i n : ℕ) (xs : List ℕ) (r : Outcome (Unit {0} × Kernel))
    → FreedResult k i xs r
    → ((k1 : Kernel)
        → Freed k i xs k1
        → AllFreedResult k1 (i + 1) n (xs ++ i ∷ []) (free_all n (i + 1) k1))
    → AllFreedResult k i (suc n) xs (and_then r (λ u. free_all n (i + 1)))
free_all_from k i n xs panic d next = elim d [ ]
free_all_from k i n xs out_of_fuel d next = elim d [ ]
free_all_from k i n xs (ok (u, k1)) d next =
    free_all_step k k1 i n xs (free_all n (i + 1) k1) d (next k1 d)

free_all_lem :
    (n i : ℕ) (k : Kernel) (xs : List ℕ)
    → Holds k.ptable k.freelist xs
    → k.freelist.order ≡ o_fifo
    → Below i xs
    → length xs + n < 0xffff_ffff
    → AllFreedResult k i n xs (free_all n i k)
unfolding free_all
free_all_lem zero i k xs h fifo below small = record {
  holds = rw (append-nil xs) h;
  order = fifo;
  unused = λ j lt was. elim was [ inl le ↦ absurd (omega arith) | inr e ↦ e ];
  rest = refl;
}
free_all_lem (suc n) i k xs h fifo below small =
    free_all_from k i n xs (pcb_free (some i) k)
      (pcb_free_lem k i xs h fifo (Below-has i xs below) (omega (arith, h.length)))
      (λ k1 d.
        free_all_lem n (i + 1) k1 (xs ++ i ∷ []) d.holds d.order (Below-append i xs below)
          (omega (arith, length-append xs (i ∷ []))))

-- The queue that pcb_queue_reset makes.
abbrev pub fresh : ℕ → Queue
fresh order = record { head = none; tail = none; length = 0; order = order }

-- The kernel when pcb_init has reset the queues.
abbrev pub reset : Kernel → Kernel
reset k = record k {
  current = none;
  next_pid = first_user_pid;
  freelist = fresh o_fifo;
  ready = fresh o_prio;
  waiting = fresh o_pid;
  sleeping = fresh o_wakeup;
  zombie = fresh o_pid;
  sioread = fresh o_fifo;
}

-- What pcb_init leaves.
pub record Initial (k k' : Kernel) : Type 0 where
  pub holds : Holds k'.ptable k'.freelist (slots 0 n_procs)
  pub unused : (j : ℕ) → (n_procs ≤ j) ⊎ ((k'.ptable j).state ≡ State.unused)
  pub rest : k' ≡ record (reset k) { ptable = k'.ptable; freelist = k'.freelist }

abbrev pub InitResult : Kernel → Outcome (Unit {0} × Kernel) → Type 0
InitResult k (ok (u, k')) = Initial k k'
InitResult k panic = ⊥
InitResult k out_of_fuel = ⊥

init_from :
    (k : Kernel) (r : Outcome (Unit {0} × Kernel))
    → AllFreedResult (reset k) 0 n_procs [] r
    → InitResult k r
init_from k panic a = elim a [ ]
init_from k out_of_fuel a = elim a [ ]
init_from k (ok (u, k')) a = record {
  holds = a.holds;
  unused = λ j. elim (Bool-cases (ltb j n_procs)) [
    | inl lt ↦ inr (a.unused j (ground arith) (inl (omega arith)))
    | inr ge ↦ inl (ground arith)
  ];
  rest = a.rest;
}

-- From any state of the tables, pcb_init does not panic. The free list then holds the 25 slots of
-- the process table in order, all of them UNUSED; the other queues are empty, with the orders
-- that the scheduler relies on; there is no current process, and the next PID is the first.
pub pcb_init_lem : (k : Kernel) → InitResult k (pcb_init k)
unfolding pcb_init qinit pcb_queue_reset
pcb_init_lem k = init_from k (free_all n_procs 0 (reset k)) (
    free_all_lem n_procs 0 (reset k) []
      (record { chain = refl; distinct = tt; tail = refl; length = refl }) refl tt (omega arith))

-- What pcb_alloc leaves when the free list holds the given PCBs.
abbrev pub AllocatedResult : Kernel → List ℕ → Outcome ((Status × Option ℕ) × Kernel) → Type 0
AllocatedResult k [] (ok ((s, got), k')) = (s ≡ Status.e_no_pcbs) × (got ≡ none) × (k' ≡ k)
AllocatedResult k (x ∷ xs) (ok ((s, got), k')) =
    (s ≡ Status.success)
    × (got ≡ some x)
    × Beheaded k.ptable k.freelist x xs k'.ptable k'.freelist
    × (k' ≡ record k { ptable = k'.ptable; freelist = k'.freelist })
AllocatedResult k xs panic = ⊥
AllocatedResult k xs out_of_fuel = ⊥

allocated_from :
    (k : Kernel) (xs : List ℕ) (r : Status × Option ℕ × Table × Queue)
    → RemoveResult k.ptable k.freelist xs r
    → AllocatedResult k xs (
        let (s, got, t, q) = r in
        (if is_success s then pure (Status.success, got) else pure (Status.e_no_pcbs, none))
          (set_queue QueueId.pcb_freelist q (record k { ptable = t })))
allocated_from k [] (s, got, t', q') (e, first, t_same, q_same) =
    rw e (refl, refl, ap₂ (λ t q. record k { ptable = t; freelist = q }) t_same q_same)
allocated_from k (x ∷ xs) (s, got, t', q') (e, first, removed) = simp e (refl, first, removed, refl)

-- pcb_alloc takes the first PCB of the free list, with a NULL `next`, and leaves the others in
-- their order; if there is none it returns E_NO_PCBS and changes nothing. It changes no other
-- queue and no other PCB.
pub pcb_alloc_lem :
    (k : Kernel) (xs : List ℕ)
    → Holds k.ptable k.freelist xs
    → k.freelist.length < 0x1_0000_0000
    → AllocatedResult k xs (pcb_alloc k)
unfolding pcb_alloc remove
pcb_alloc_lem k xs h small =
    allocated_from k xs (pcb_queue_remove k.ptable k.freelist)
      (pcb_queue_remove_lem k.ptable k.freelist xs h small)
