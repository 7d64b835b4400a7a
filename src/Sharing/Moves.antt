-- ===== src/Sharing/Moves.antt =====
-- Moving a PCB from one queue to another.
use mathlib.Core.Path.{subst}
use os.Base.{
  sym, ap, ◌∙◌, ℕ, ◌+◌, ◌≡◌, refl, true, false, ◌||◌, none, List, [], ◌∷◌, arith, length, has, ◌==◌,
  if◌then◌else◌, Bool-cases, inl, inr,
}
use os.Pcb.{Table}
use os.Queue.{Queue, o_wakeup, pcb_queue_insert, pcb_queue_remove}
use os.Queue.Chain.{Holds, Distinct, has-append}
use os.Queue.Insert.{insert_at}
use os.Procs.Ready.{Holds-frame, has-insert_sorted}
use os.Kernel.{Kernel, QueueId, queue, set_queue}
use os.Sharing.{index, same, Lists, put, total, order_of, Layout}

abbrev at : ℕ → QueueId
at n =
    if n == 0
    then QueueId.pcb_freelist
    else if n == 1
    then QueueId.ready
    else if n == 2
    then QueueId.waiting
    else if n == 3
    then QueueId.sleeping
    else if n == 4
    then QueueId.zombie
    else QueueId.sioread

at-index : (id : QueueId) → at (index id) ≡ id
at-index QueueId.pcb_freelist = refl
at-index QueueId.ready = refl
at-index QueueId.waiting = refl
at-index QueueId.sleeping = refl
at-index QueueId.zombie = refl
at-index QueueId.sioread = refl

pub same_eq : (a b : QueueId) → same a b ≡ true → a ≡ b
same_eq a b e =
    let e' : index a ≡ index b = ground arith in sym (at-index a) ∙ ap at e' ∙ at-index b

pub same_refl : (a : QueueId) → same a a ≡ true
same_refl a = ground arith

pub queue-set_queue_same : (id : QueueId) (q : Queue) (k : Kernel) → queue id (set_queue id q k) ≡ q
queue-set_queue_same QueueId.pcb_freelist q k = refl
queue-set_queue_same QueueId.ready q k = refl
queue-set_queue_same QueueId.waiting q k = refl
queue-set_queue_same QueueId.sleeping q k = refl
queue-set_queue_same QueueId.zombie q k = refl
queue-set_queue_same QueueId.sioread q k = refl

pub queue-ptable :
    (id : QueueId) (t : Table) (k : Kernel) → queue id (record k { ptable = t }) ≡ queue id k
queue-ptable QueueId.pcb_freelist t k = refl
queue-ptable QueueId.ready t k = refl
queue-ptable QueueId.waiting t k = refl
queue-ptable QueueId.sleeping t k = refl
queue-ptable QueueId.zombie t k = refl
queue-ptable QueueId.sioread t k = refl

pub queue-set_queue_other :
    (id other : QueueId) (q : Queue) (k : Kernel)
    → same id other ≡ false
    → queue other (set_queue id q k) ≡ queue other k
queue-set_queue_other QueueId.pcb_freelist QueueId.pcb_freelist q k ne = absurd (ground arith)
queue-set_queue_other QueueId.pcb_freelist QueueId.ready q k ne = refl
queue-set_queue_other QueueId.pcb_freelist QueueId.waiting q k ne = refl
queue-set_queue_other QueueId.pcb_freelist QueueId.sleeping q k ne = refl
queue-set_queue_other QueueId.pcb_freelist QueueId.zombie q k ne = refl
queue-set_queue_other QueueId.pcb_freelist QueueId.sioread q k ne = refl
queue-set_queue_other QueueId.ready QueueId.pcb_freelist q k ne = refl
queue-set_queue_other QueueId.ready QueueId.ready q k ne = absurd (ground arith)
queue-set_queue_other QueueId.ready QueueId.waiting q k ne = refl
queue-set_queue_other QueueId.ready QueueId.sleeping q k ne = refl
queue-set_queue_other QueueId.ready QueueId.zombie q k ne = refl
queue-set_queue_other QueueId.ready QueueId.sioread q k ne = refl
queue-set_queue_other QueueId.waiting QueueId.pcb_freelist q k ne = refl
queue-set_queue_other QueueId.waiting QueueId.ready q k ne = refl
queue-set_queue_other QueueId.waiting QueueId.waiting q k ne = absurd (ground arith)
queue-set_queue_other QueueId.waiting QueueId.sleeping q k ne = refl
queue-set_queue_other QueueId.waiting QueueId.zombie q k ne = refl
queue-set_queue_other QueueId.waiting QueueId.sioread q k ne = refl
queue-set_queue_other QueueId.sleeping QueueId.pcb_freelist q k ne = refl
queue-set_queue_other QueueId.sleeping QueueId.ready q k ne = refl
queue-set_queue_other QueueId.sleeping QueueId.waiting q k ne = refl
queue-set_queue_other QueueId.sleeping QueueId.sleeping q k ne = absurd (ground arith)
queue-set_queue_other QueueId.sleeping QueueId.zombie q k ne = refl
queue-set_queue_other QueueId.sleeping QueueId.sioread q k ne = refl
queue-set_queue_other QueueId.zombie QueueId.pcb_freelist q k ne = refl
queue-set_queue_other QueueId.zombie QueueId.ready q k ne = refl
queue-set_queue_other QueueId.zombie QueueId.waiting q k ne = refl
queue-set_queue_other QueueId.zombie QueueId.sleeping q k ne = refl
queue-set_queue_other QueueId.zombie QueueId.zombie q k ne = absurd (ground arith)
queue-set_queue_other QueueId.zombie QueueId.sioread q k ne = refl
queue-set_queue_other QueueId.sioread QueueId.pcb_freelist q k ne = refl
queue-set_queue_other QueueId.sioread QueueId.ready q k ne = refl
queue-set_queue_other QueueId.sioread QueueId.waiting q k ne = refl
queue-set_queue_other QueueId.sioread QueueId.sleeping q k ne = refl
queue-set_queue_other QueueId.sioread QueueId.zombie q k ne = refl
queue-set_queue_other QueueId.sioread QueueId.sioread q k ne = absurd (ground arith)

pub ptable-set_queue :
    (id : QueueId) (q : Queue) (k : Kernel) → (set_queue id q k).ptable ≡ k.ptable
ptable-set_queue QueueId.pcb_freelist q k = refl
ptable-set_queue QueueId.ready q k = refl
ptable-set_queue QueueId.waiting q k = refl
ptable-set_queue QueueId.sleeping q k = refl
ptable-set_queue QueueId.zombie q k = refl
ptable-set_queue QueueId.sioread q k = refl

total-put :
    (id : QueueId) (xs : List ℕ) (all : Lists)
    → total (put id xs all) + length (all id) ≡ total all + length xs
total-put QueueId.pcb_freelist xs all = omega arith
total-put QueueId.ready xs all = omega arith
total-put QueueId.waiting xs all = omega arith
total-put QueueId.sleeping xs all = omega arith
total-put QueueId.zombie xs all = omega arith
total-put QueueId.sioread xs all = omega arith

pub has-insert_at :
    (order : ℕ) (t : Table) (i j : ℕ) (xs : List ℕ)
    → has j (insert_at order t i xs) ≡ ((j == i) || has j xs)
unfolding insert_at
has-insert_at order t i j xs = ground (
  arith,
  has-append j xs (i ∷ []),
  has-insert_sorted os.Queue.priority_of t i j xs,
  has-insert_sorted os.Queue.pid_of t i j xs,
  has-insert_sorted os.Queue.wakeup_of t i j xs,
)

-- A queue whose list changes together with the list of the loose PCBs.
module _ (k : Kernel) (id : QueueId) (t : Table) (q : Queue) (all : Lists)
    (xs loose loose' : List ℕ) (l : Layout k all loose) (holds : Holds t q xs)
    (order : q.order ≡ order_of id)
    (kept : (j : ℕ) → has j xs ≡ false → has j loose' ≡ false → (t j).next ≡ (k.ptable j).next)
    (known : (j : ℕ) → (has j xs || has j loose') ≡ (has j (all id) || has j loose))
    (apart : (j : ℕ) → has j loose' ≡ true → has j xs ≡ false)
    (detached : (j : ℕ) → has j loose' ≡ true → (t j).next ≡ none) (distinct : Distinct loose')
    (count : length xs + length loose' ≡ length (all id) + length loose) where
  elsewhere :
      (other : QueueId) (j : ℕ)
      → same id other ≡ false
      → has j (all other) ≡ true
      → (has j xs || has j loose') ≡ false
  elsewhere other j ne there = elim (Bool-cases (has j (all id))) [
    | inl both ↦ absurd (ground (arith, l.apart id other j both there))
    | inr out ↦ elim (Bool-cases (has j loose)) [
      | inl free ↦ absurd (ground (arith, l.outside j free other))
      | inr held ↦ ground (arith, known j)
    ]
  ]

  moved-Holds :
      (other : QueueId)
      → Holds t (queue other (set_queue id q (record k { ptable = t }))) (put id xs all other)
  moved-Holds other = elim (Bool-cases (same id other)) [
    | inl e ↦
        subst (λ o. Holds t (queue o (set_queue id q (record k { ptable = t }))) (put id xs all o))
          (same_eq id other e)
          (rw (same_refl id, queue-set_queue_same id q (record k { ptable = t })) holds)
    | inr ne ↦
        rw (ne, queue-set_queue_other id other q (record k { ptable = t }) ne)
          (subst (λ c. Holds t c (all other)) (sym (queue-ptable other t k))
            (Holds-frame k.ptable t (queue other k) (all other) (l.holds other) (λ j there.
              let free = elsewhere other j ne there in kept j (ground arith) (ground arith))))
  ]

  moved_order :
      (other : QueueId)
      → (queue other (set_queue id q (record k { ptable = t }))).order ≡ order_of other
  moved_order other = elim (Bool-cases (same id other)) [
    | inl e ↦
        subst (λ o. (queue o (set_queue id q (record k { ptable = t }))).order ≡ order_of o)
          (same_eq id other e)
          (ap (λ (c : Queue). c.order) (queue-set_queue_same id q (record k { ptable = t }))
            ∙ order)
    | inr ne ↦
        ap (λ (c : Queue). c.order)
          (queue-set_queue_other id other q (record k { ptable = t }) ne ∙ queue-ptable other t k)
        ∙ l.order other
  ]

  moved_apart :
      (a b : QueueId) (j : ℕ)
      → has j (put id xs all a) ≡ true
      → has j (put id xs all b) ≡ true
      → same a b ≡ true
  moved_apart a b j x y = elim (Bool-cases (same id a)) [
    | inl e ↦ elim (Bool-cases (same id b)) [
      | inl f ↦ ground arith
      | inr f ↦
          let there : has j (all b) ≡ true = ground arith in
          absurd (ground (arith, elsewhere b j f there))
    ]
    | inr e ↦
        let there : has j (all a) ≡ true = ground arith in
        elim (Bool-cases (same id b)) [
          | inl f ↦ absurd (ground (arith, elsewhere a j e there))
          | inr f ↦ l.apart a b j there (ground arith)
        ]
  ]

  moved_outside :
      (j : ℕ) → has j loose' ≡ true → (other : QueueId) → has j (put id xs all other) ≡ false
  moved_outside j free other = elim (Bool-cases (same id other)) [
    | inl e ↦ ground (arith, apart j free)
    | inr ne ↦ elim (Bool-cases (has j (all other))) [
      | inl there ↦ absurd (ground (arith, elsewhere other j ne there))
      | inr out ↦ ground arith
    ]
  ]

  pub Layout-moved : Layout (set_queue id q (record k { ptable = t })) (put id xs all) loose'
  Layout-moved = record {
    holds = λ other.
        subst
          (λ c.
            Holds c (queue other (set_queue id q (record k { ptable = t }))) (put id xs all other))
          (sym (ptable-set_queue id q (record k { ptable = t }))) (moved-Holds other);
    order = moved_order;
    apart = moved_apart;
    outside = moved_outside;
    detached = λ j free.
        subst (λ (c : Table). (c j).next ≡ none)
          (sym (ptable-set_queue id q (record k { ptable = t }))) (detached j free);
    distinct = distinct;
    few = omega (arith, l.few, count, total-put id xs all);
  }
