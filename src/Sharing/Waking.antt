-- ===== src/Sharing/Waking.antt =====
-- procs.c: a process that is taken off a queue, gets a return value and is scheduled, in a kernel
-- whose queues are all in order.
use mathlib.Core.Path.{subst}
use os.Base.{
  sym, ap, ◌∙◌, ◌⊎◌, ℕ, ◌+◌, ◌%◌, ◌≡◌, refl, true, false, Option, List, [], ◌∷◌, arith, has, ◌==◌,
  Bool-cases, inl, inr, Outcome, ok, panic, out_of_fuel,
}
use os.Pcb.{Pcb, Table, State, is_killed}
use os.Queue.{priority_of}
use os.Queue.Chain.{Holds, Chain}
use os.Queue.Insert.{insert_sorted}
use os.Kernel.{Kernel, QueueId, reg, off_eax, set_ret, write_mem}
use os.Kernel
use os.Procs.{schedule}
use os.Procs.Ready.{Holds-frame, has-insert_sorted, insert_sorted_same, ReadyResult, schedule_lem}
use os.Sharing.{Lists, put, Layout}
use os.Sharing.Calls.{Quiet, length-total}

-- A queue holds one list only.
pub Chain-same : (t : Table) (p : Option ℕ) (xs ys : List ℕ) → Chain t p xs → Chain t p ys → xs ≡ ys
Chain-same t p [] [] c d = refl
Chain-same t p [] (y ∷ ys) c d = absurd (ground (arith, c, d.0))
Chain-same t p (x ∷ xs) [] c d = absurd (ground (arith, c.0, d))
Chain-same t p (x ∷ xs) (y ∷ ys) c d =
    let same : y ≡ x = ground (arith, c.0, d.0) in
    let rest : Chain t (t x).next ys = subst (λ z. Chain t (t z).next ys) same d.1 in
    ap (λ l. x ∷ l) (Chain-same t (t x).next xs ys c.1 rest) ∙ ap (λ z. z ∷ ys) (sym same)

-- The process `x` was first in the queue of readers, before `xs`, and `ys` were ready. Now it is
-- ready, and its return value is `num`.
pub record Woke (k : Kernel) (x num : ℕ) (xs ys : List ℕ) (k' : Kernel) : Type 0 where
  pub asleep : Holds k'.ptable k'.sioread xs
  pub ready : Holds k'.ptable k'.ready (insert_sorted priority_of k.ptable x ys)
  pub self : k'.ptable x ≡ record (k.ptable x) { state = State.ready; next = (k'.ptable x).next }
  pub others : (j : ℕ) → (j ≡ x) ⊎ (k'.ptable j ≡ record (k.ptable j) { next = (k'.ptable j).next })
  pub result : k'.kmem.mem (reg (k.ptable x) off_eax) ≡ num

abbrev pub WokeResult : Kernel → ℕ → ℕ → List ℕ → List ℕ → Outcome (Unit {0} × Kernel) → Type 0
WokeResult k x num xs ys (ok (u, k')) = Woke k x num xs ys k'
WokeResult k x num xs ys panic = ⊥
WokeResult k x num xs ys out_of_fuel = ⊥

module _ (k k0 : Kernel) (all : Lists) (loose : List ℕ) (x num : ℕ) (xs ys : List ℕ)
    (l : Layout k (put QueueId.sioread xs all) (x ∷ loose)) (q : Quiet k0 k)
    (readers : all QueueId.ready ≡ ys) where
  abbrev returned : Kernel
  returned = record k {
    kmem = record (k.kmem) { mem = write_mem k.kmem.mem (reg (k.ptable x) off_eax) num };
  }

  ready_held : Holds k.ptable k.ready ys
  ready_held = subst (Holds k.ptable k.ready) readers (l.holds QueueId.ready)

  not_ready : (j : ℕ) → has j (x ∷ xs) ≡ true → has j ys ≡ false
  not_ready j m = elim (Bool-cases (has j ys)) [
    | inr e ↦ e
    | inl there ↦ elim (Bool-cases (j == x)) [
      | inl at ↦
          absurd
            (ground (arith, l.outside j (ground arith) QueueId.ready, ap (has j) readers, there))
      | inr ne ↦ absurd (
          ground (
            arith,
            l.apart QueueId.sioread QueueId.ready j (ground arith) (ap (has j) readers ∙ there),
          ))
    ]
  ]

  not_inserted : (j : ℕ) → has j xs ≡ true → has j (insert_sorted priority_of k.ptable x ys) ≡ false
  not_inserted j m = elim (Bool-cases (j == x)) [
    | inl at ↦ absurd (ground (arith, l.outside j (ground arith) QueueId.sioread, m))
    | inr ne ↦
        let out : has j ys ≡ false = not_ready j (ground arith) in
        has-insert_sorted priority_of k.ptable x j ys ∙ ground (arith, ne, out)
  ]

  same_order : insert_sorted priority_of k.ptable x ys ≡ insert_sorted priority_of k0.ptable x ys
  same_order =
      insert_sorted_same priority_of k0.ptable k.ptable x ys
        (λ j. ap (λ (p : Pcb). p.priority) (q.fields j))

  written : (a : ℕ) → write_mem k.kmem.mem a num a ≡ num
  written a = ground arith

  woke :
      (r : Outcome (Unit {0} × Kernel)) → ReadyResult returned x ys r → WokeResult k0 x num xs ys r
  woke panic d = d
  woke out_of_fuel d = d
  woke (ok (u, k')) d = record {
    asleep =
        subst (λ c. Holds k'.ptable c xs) (sym (ap (λ (c : Kernel). c.sioread) d.rest))
          (Holds-frame k.ptable k'.ptable k.sioread xs (l.holds QueueId.sioread) (λ j m.
            elim (d.spared j) [
              | inl there ↦ absurd (ground (arith, not_inserted j m, there))
              | inr same ↦ ap (λ (p : Pcb). p.next) same
            ]));
    ready = subst (λ zs. Holds k'.ptable k'.ready zs) same_order d.holds;
    self =
        d.self
        ∙ ap (λ (p : Pcb). record p { state = State.ready; next = (k'.ptable x).next })
            (q.fields x);
    others = λ j. elim (d.fields j) [
      | inl at ↦ inl at
      | inr e ↦ inr (e ∙ ap (λ (p : Pcb). record p { next = (k'.ptable j).next }) (q.fields j))
    ];
    result =
        ap (λ c. k'.kmem.mem ((c + off_eax) % 0x1_0000_0000))
          (sym (ap (λ (p : Pcb). p.context) (q.fields x)))
        ∙ ap (λ (c : Kernel). c.kmem.mem (reg (k.ptable x) off_eax)) d.rest
        ∙ written (reg (k.ptable x) off_eax);
  }

  pub wake_Woke :
      is_killed (k.ptable x).state ≡ false
      → WokeResult k0 x num xs ys (Kernel.◌>>◌ (set_ret x num) (schedule x) k)
  unfolding set_ret
  wake_Woke alive = woke (schedule x returned) (
      schedule_lem returned x ys ready_held (l.order QueueId.ready) (not_ready x (ground arith))
        alive
        (omega (
          arith,
          (l.holds QueueId.ready).length,
          l.few,
          length-total (put QueueId.sioread xs all) QueueId.ready,
        )))
