-- ===== src/Sharing/Calls.antt =====
-- kernel commands that move one PCB: insert and remove on the queue of a handle, and writes that
-- leave the `next` fields.
use mathlib.Core.Path.{subst}
use os.Base.{
  sym, ap, ◌∙◌, ℕ, ◌+◌, ◌≤◌, ◌≡◌, refl, true, false, Option, none, some, List, [], ◌∷◌, arith,
  length, length-append, has, ◌==◌, Bool-cases, inl, inr, Outcome, ok, panic, out_of_fuel,
}
use os.Pcb.{Pcb, Table, Status}
use os.Queue.{Queue, o_wakeup, pcb_queue_insert, pcb_queue_remove}
use os.Queue.Chain.{Holds}
use os.Queue.Insert.{insert_at, InsertResult, pcb_queue_insert_lem}
use os.Queue.Remove.{Beheaded, RemoveResult, pcb_queue_remove_lem}
use os.Kernel.{Kernel, QueueId, queue, set_queue, insert, remove, lift_queue}
use os.Clock.Step.{length-insert_sorted}
use os.Sharing.{Lists, put, total, order_of, Layout}
use os.Sharing.Moves.{has-insert_at, Layout-moved}

pub length-insert_at :
    (order : ℕ) (t : Table) (i : ℕ) (xs : List ℕ) → length (insert_at order t i xs) ≡ length xs + 1
unfolding insert_at
length-insert_at order t i xs = ground (
  arith,
  length-append xs (i ∷ []),
  length-insert_sorted os.Queue.priority_of t i xs,
  length-insert_sorted os.Queue.pid_of t i xs,
  length-insert_sorted os.Queue.wakeup_of t i xs,
)

pub length-total : (all : Lists) (id : QueueId) → length (all id) ≤ total all
length-total all QueueId.pcb_freelist = omega arith
length-total all QueueId.ready = omega arith
length-total all QueueId.waiting = omega arith
length-total all QueueId.sleeping = omega arith
length-total all QueueId.zombie = omega arith
length-total all QueueId.sioread = omega arith

order_of-bound : (id : QueueId) → order_of id ≤ o_wakeup
order_of-bound QueueId.pcb_freelist = omega arith
order_of-bound QueueId.ready = omega arith
order_of-bound QueueId.waiting = omega arith
order_of-bound QueueId.sleeping = omega arith
order_of-bound QueueId.zombie = omega arith
order_of-bound QueueId.sioread = omega arith

-- What is left as it was when queues and `next` fields change.
pub record Quiet (k k' : Kernel) : Type 0 where
  pub fields : (j : ℕ) → k'.ptable j ≡ record (k.ptable j) { next = (k'.ptable j).next }
  pub current : k'.current ≡ k.current
  pub time : k'.system_time ≡ k.system_time
  pub memory : k'.kmem ≡ k.kmem
  pub first : k'.init_pcb ≡ k.init_pcb

Quiet-set_queue :
    (id : QueueId) (q : Queue) (t : Table) (k : Kernel)
    → ((j : ℕ) → t j ≡ record (k.ptable j) { next = (t j).next })
    → Quiet k (set_queue id q (record k { ptable = t }))
Quiet-set_queue QueueId.pcb_freelist q t k f = record {
  fields = f;
  current = refl;
  time = refl;
  memory = refl;
  first = refl;
}
Quiet-set_queue QueueId.ready q t k f = record {
  fields = f;
  current = refl;
  time = refl;
  memory = refl;
  first = refl;
}
Quiet-set_queue QueueId.waiting q t k f = record {
  fields = f;
  current = refl;
  time = refl;
  memory = refl;
  first = refl;
}
Quiet-set_queue QueueId.sleeping q t k f = record {
  fields = f;
  current = refl;
  time = refl;
  memory = refl;
  first = refl;
}
Quiet-set_queue QueueId.zombie q t k f = record {
  fields = f;
  current = refl;
  time = refl;
  memory = refl;
  first = refl;
}
Quiet-set_queue QueueId.sioread q t k f = record {
  fields = f;
  current = refl;
  time = refl;
  memory = refl;
  first = refl;
}

-- The lists after a loose PCB has been put into a queue.
abbrev pub stored : QueueId → ℕ → Table → Lists → Lists
stored id i t all = put id (insert_at (order_of id) t i (all id)) all

abbrev pub StoreResult : QueueId → ℕ → Kernel → Lists → List ℕ → Outcome (Status × Kernel) → Type 0
StoreResult id i k all loose (ok (s, k')) =
    (s ≡ Status.success) × Layout k' (stored id i k.ptable all) loose × Quiet k k'
StoreResult id i k all loose panic = ⊥
StoreResult id i k all loose out_of_fuel = ⊥

module _ (id : QueueId) (i : ℕ) (k : Kernel) (all : Lists) (loose : List ℕ)
    (l : Layout k all (i ∷ loose)) where
  still : (j : ℕ) → has j loose ≡ true → has j (insert_at (order_of id) k.ptable i (all id)) ≡ false
  still j free = ground (
    arith,
    has-insert_at (order_of id) k.ptable i j (all id),
    l.outside j (ground arith) id,
    l.distinct.0,
  )

  stored_from :
      (r : Outcome (Status × Table × Queue))
      → InsertResult k.ptable (queue id k) i (insert_at (order_of id) k.ptable i (all id)) r
      → StoreResult id i k all loose (lift_queue id k r)
  unfolding lift_queue
  stored_from panic d = elim d [ ]
  stored_from out_of_fuel d = elim d [ ]
  stored_from (ok (s, t, q)) (e, d) = (
    e,
    Layout-moved k id t q all (insert_at (order_of id) k.ptable i (all id)) (i ∷ loose) loose l
        d.holds (d.order ∙ l.order id)
        (λ j out free. elim (d.spared j) [
          | inl there ↦ absurd (ground arith)
          | inr e ↦ ap (λ (p : Pcb). p.next) e
        ])
        (λ j. ground (arith, has-insert_at (order_of id) k.ptable i j (all id))) still
        (λ j free. elim (d.spared j) [
          | inl there ↦ absurd (ground (arith, still j free))
          | inr e ↦ ap (λ (p : Pcb). p.next) e ∙ l.detached j (ground arith)
        ])
        l.distinct.1 (omega (arith, length-insert_at (order_of id) k.ptable i (all id))),
    Quiet-set_queue id q t k d.fields,
  )

  pub Layout-insert : StoreResult id i k all loose (insert id i k)
  unfolding insert
  Layout-insert = stored_from (pcb_queue_insert k.ptable (queue id k) i) (
      subst
        (λ o.
          InsertResult k.ptable (queue id k) i (insert_at o k.ptable i (all id))
            (pcb_queue_insert k.ptable (queue id k) i))
        (l.order id)
        (pcb_queue_insert_lem k.ptable (queue id k) i (all id) (l.holds id)
          (subst (λ o. o ≤ o_wakeup) (sym (l.order id)) (order_of-bound id))
          (l.outside i (ground arith) id) (l.detached i (ground arith))
          (omega (arith, (l.holds id).length, l.few, length-total all id))))

abbrev pub TakeResult :
    QueueId → ℕ → List ℕ → Kernel → Lists → List ℕ → Outcome ((Status × Option ℕ) × Kernel) → Type 0
TakeResult id x xs k all loose (ok ((s, got), k')) =
    (s ≡ Status.success) × (got ≡ some x) × Layout k' (put id xs all) (x ∷ loose) × Quiet k k'
TakeResult id x xs k all loose panic = ⊥
TakeResult id x xs k all loose out_of_fuel = ⊥

module _ (id : QueueId) (x : ℕ) (xs : List ℕ) (k : Kernel) (all : Lists) (loose : List ℕ)
    (l : Layout k all loose) (held : all id ≡ x ∷ xs) where
  held_Holds : Holds k.ptable (queue id k) (x ∷ xs)
  held_Holds = subst (Holds k.ptable (queue id k)) held (l.holds id)

  has-held : (j : ℕ) → has j (all id) ≡ has j (x ∷ xs)
  has-held j = ap (has j) held

  first_loose : has x loose ≡ false
  first_loose = elim (Bool-cases (has x loose)) [
    | inl free ↦ absurd (ground (arith, l.outside x free id, has-held x))
    | inr e ↦ e
  ]

  rest_apart : (j : ℕ) → has j (x ∷ loose) ≡ true → has j xs ≡ false
  rest_apart j free = elim (Bool-cases (j == x)) [
    | inl at ↦
        let at' : x ≡ j = ground arith in subst (λ c. has c xs ≡ false) at' held_Holds.distinct.0
    | inr ne ↦ ground (arith, has-held j, l.outside j (ground arith) id)
  ]

  fields_of :
      (t : Table) (q : Queue)
      → Beheaded k.ptable (queue id k) x xs t q
      → (j : ℕ) → t j ≡ record (k.ptable j) { next = (t j).next }
  fields_of t q d j = elim (d.spared j) [
    | inl e ↦
        subst (λ c. t c ≡ record (k.ptable c) { next = (t c).next }) (sym e)
          (d.detached
            ∙ ap (λ n. record (k.ptable x) { next = n })
                (sym (ap (λ (p : Pcb). p.next) d.detached)))
    | inr e ↦ e ∙ ap (λ n. record (k.ptable j) { next = n }) (sym (ap (λ (p : Pcb). p.next) e))
  ]

  loose_next :
      (t : Table) (q : Queue)
      → Beheaded k.ptable (queue id k) x xs t q
      → (j : ℕ) → has j (x ∷ loose) ≡ true
      → (t j).next ≡ none
  loose_next t q d j free = elim (d.spared j) [
    | inl e ↦ subst (λ c. (t c).next ≡ none) (sym e) (ap (λ (p : Pcb). p.next) d.detached)
    | inr e ↦ ap (λ (p : Pcb). p.next) e ∙ elim (Bool-cases (j == x)) [
      | inl at ↦
          let at' : j ≡ x = ground arith in
          sym (ap (λ (p : Pcb). p.next) e)
          ∙ subst (λ c. (t c).next ≡ none) (sym at') (ap (λ (p : Pcb). p.next) d.detached)
      | inr ne ↦ l.detached j (ground arith)
    ]
  ]

  taken_from :
      (s : Status) (got : Option ℕ) (t : Table) (q : Queue)
      → RemoveResult k.ptable (queue id k) (x ∷ xs) (s, got, t, q)
      → TakeResult id x xs k all loose (ok ((s, got), set_queue id q (record k { ptable = t })))
  taken_from s got t q (e, g, d) = (
    e,
    g,
    Layout-moved k id t q all xs loose (x ∷ loose) l d.holds (d.order ∙ l.order id)
        (λ j out free. elim (d.spared j) [
          | inl e ↦ absurd (ground arith)
          | inr e ↦ ap (λ (p : Pcb). p.next) e
        ])
        (λ j. ground (arith, has-held j)) rest_apart (loose_next t q d) (first_loose, l.distinct)
        (omega (arith, ap length held)),
    Quiet-set_queue id q t k (fields_of t q d),
  )

  pub Layout-remove : TakeResult id x xs k all loose (remove id k)
  unfolding remove
  Layout-remove =
      let r = pcb_queue_remove k.ptable (queue id k) in
      taken_from r.0 r.1 r.2 r.3 (
        pcb_queue_remove_lem k.ptable (queue id k) (x ∷ xs) held_Holds
          (omega (arith, (l.holds id).length, l.few, length-total all id)))
