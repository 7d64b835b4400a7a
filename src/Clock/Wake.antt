-- ===== src/Clock/Wake.antt =====
-- The loop of clk_isr that wakes the processes whose time has come.
use mathlib.Core.Path.{subst}
use os.Base.{
  ℕ, zero, suc, ◌<◌, ◌≡◌, refl, sym, ap, ◌∙◌, ◌⊎◌, Bool, true, false, ◌||◌, Option, List, [], ◌∷◌,
  Outcome, ok, panic, out_of_fuel, arith, length, has, leb, ltb, ◌==◌, Bool-cases, inl, inr,
}
use os.Pcb.{Pcb, Table, State, Status, is_killed}
use os.Queue.{Queue, priority_of, wakeup_of, pcb_queue_empty, pcb_queue_peek, pcb_queue_remove}
use os.Queue.Chain.{Holds}
use os.Queue.Insert.{front, back, insert_sorted}
use os.Queue.Remove.{RemoveResult, pcb_queue_remove_lem}
use os.Kernel.{Kernel, QueueId, set_queue, M, and_then, ◌>>=◌, ◌>>◌, deref, remove}
use os.Procs.{need, schedule}
use os.Procs.Ready.{Holds-frame, schedule_lem}
use os.Clock.{wake_loop}
use os.Clock.Step.{
  woken, Same, Stepped, StepResult, taken, front-Same, back-Same, woken-Same, stepped_from,
  Stepped-Same, Before, Stepped-Before,
}

-- What the loop leaves when `xs` sleep and `ys` are ready.
pub record Woken (k : Kernel) (xs ys : List ℕ) (k' : Kernel) : Type 0 where
  pub asleep : Holds k'.ptable k'.sleeping (back wakeup_of k.ptable k.system_time xs)
  pub ready :
      Holds k'.ptable k'.ready (woken k.ptable (front wakeup_of k.ptable k.system_time xs) ys)
  pub made :
      (j : ℕ)
      → ((has j (front wakeup_of k.ptable k.system_time xs) ≡ true)
          × (k'.ptable j ≡ record (k.ptable j) { state = State.ready; next = (k'.ptable j).next }))
        ⊎ ((has j (front wakeup_of k.ptable k.system_time xs) ≡ false)
            × (k'.ptable j ≡ record (k.ptable j) { next = (k'.ptable j).next }))
  pub rest : k' ≡ record k { ptable = k'.ptable; ready = k'.ready; sleeping = k'.sleeping }

abbrev pub WokenResult : Kernel → List ℕ → List ℕ → Outcome (Unit {0} × Kernel) → Type 0
WokenResult k xs ys (ok (u, k')) = Woken k xs ys k'
WokenResult k xs ys panic = ⊥
WokenResult k xs ys out_of_fuel = ⊥

or_right : (a b : Bool) → b ≡ true → (a || b) ≡ true
or_right a b e = ground arith

or_none : (a b : Bool) → a ≡ false → b ≡ false → (a || b) ≡ false
or_none a b d e = ground arith

-- A round and then the other rounds.
woken_step :
    (k k1 : Kernel) (x : ℕ) (xs ys : List ℕ) (r : Outcome (Unit {0} × Kernel))
    → leb (k.ptable x).wakeup k.system_time ≡ true
    → Stepped k x xs ys k1
    → WokenResult k1 xs (insert_sorted priority_of k.ptable x ys) r
    → WokenResult k (x ∷ xs) ys r
woken_step k k1 x xs ys panic passed s w = elim w [ ]
woken_step k k1 x xs ys out_of_fuel passed s w = elim w [ ]
woken_step k k1 x xs ys (ok (u, k')) passed s w = record {
  asleep = rw passed (subst (λ l. Holds k'.ptable k'.sleeping l) later w.asleep);
  ready = rw passed (subst (λ l. Holds k'.ptable k'.ready l) all w.ready);
  made = λ j. rw passed (elim (w.made j) [
    | inl (there, e) ↦
        inl (
          or_right (j == x) _ (ap (has j) (sym now_front) ∙ there),
          e ∙ readied_again j (s.fields j),
        )
    | inr (out, e) ↦ elim (s.fields j) [
      | inl (at, e2) ↦
          inl (ground arith, e ∙ ap (λ (p : Pcb). record p { next = (k'.ptable j).next }) e2)
      | inr (ne, e2) ↦ inr (
        or_none (j == x) _ ne (ap (has j) (sym now_front) ∙ out),
        e ∙ ap (λ (p : Pcb). record p { next = (k'.ptable j).next }) e2,
      )
    ]
  ]);
  rest =
      w.rest
      ∙ ap
          (λ (c : Kernel). record c {
            ptable = k'.ptable;
            ready = k'.ready;
            sleeping = k'.sleeping;
          })
          s.rest;
}
  where
    readied_again :
        (j : ℕ)
        → ((j ≡ x)
            × (k1.ptable j
                ≡ record (k.ptable j) { state = State.ready; next = (k1.ptable j).next }))
          ⊎ (((j == x) ≡ false) × (k1.ptable j ≡ record (k.ptable j) { next = (k1.ptable j).next }))
        → record (k1.ptable j) { state = State.ready; next = (k'.ptable j).next }
          ≡ record (k.ptable j) { state = State.ready; next = (k'.ptable j).next }
    readied_again j (inl (at, e)) =
        ap (λ (p : Pcb). record p { state = State.ready; next = (k'.ptable j).next }) e
    readied_again j (inr (ne, e)) =
        ap (λ (p : Pcb). record p { state = State.ready; next = (k'.ptable j).next }) e

    same : Same k.ptable k1.ptable
    same = Stepped-Same k x xs ys k1 s

    now : k1.system_time ≡ k.system_time
    now = ap (λ (c : Kernel). c.system_time) s.rest

    now_front :
        front wakeup_of k1.ptable k1.system_time xs ≡ front wakeup_of k.ptable k.system_time xs
    now_front =
        ap (λ v. front wakeup_of k1.ptable v xs) now
        ∙ front-Same k.ptable k1.ptable same k.system_time xs

    later : back wakeup_of k1.ptable k1.system_time xs ≡ back wakeup_of k.ptable k.system_time xs
    later =
        ap (λ v. back wakeup_of k1.ptable v xs) now
        ∙ back-Same k.ptable k1.ptable same k.system_time xs

    all :
        woken k1.ptable
          (front wakeup_of k1.ptable k1.system_time xs)
          (insert_sorted priority_of k.ptable x ys)
        ≡ woken k.ptable
            (front wakeup_of k.ptable k.system_time xs)
            (insert_sorted priority_of k.ptable x ys)
    all =
        ap (λ l. woken k1.ptable l (insert_sorted priority_of k.ptable x ys)) now_front
        ∙ woken-Same k.ptable k1.ptable same (front wakeup_of k.ptable k.system_time xs)
            (insert_sorted priority_of k.ptable x ys)

woken_from :
    (k : Kernel) (x fuel : ℕ) (xs ys : List ℕ) (r : Outcome (Unit {0} × Kernel))
    → leb (k.ptable x).wakeup k.system_time ≡ true
    → StepResult k x xs ys r
    → ((k1 : Kernel)
        → Stepped k x xs ys k1
        → WokenResult k1 xs (insert_sorted priority_of k.ptable x ys) (wake_loop fuel k1))
    → WokenResult k (x ∷ xs) ys (and_then r (λ u. wake_loop fuel))
woken_from k x fuel xs ys panic passed s next = elim s [ ]
woken_from k x fuel xs ys out_of_fuel passed s next = elim s [ ]
woken_from k x fuel xs ys (ok (u, k1)) passed s next =
    woken_step k k1 x xs ys (wake_loop fuel k1) passed s (next k1 s)

-- What the loop does with what it takes off the queue.
abbrev wake : ℕ → Status × Option ℕ → M (Unit {0})
wake fuel r = need r.0 >> (deref r.1 >>= λ first. schedule first >> wake_loop fuel)

wake_round :
    (k : Kernel) (x fuel : ℕ) (xs ys : List ℕ) (r : Status × Option ℕ × Table × Queue)
    → Before k (x ∷ xs) ys
    → leb (k.ptable x).wakeup k.system_time ≡ true
    → RemoveResult k.ptable k.sleeping (x ∷ xs) r
    → ((k1 : Kernel)
        → Stepped k x xs ys k1
        → WokenResult k1 xs (insert_sorted priority_of k.ptable x ys) (wake_loop fuel k1))
    → WokenResult k (x ∷ xs) ys (
        let (s, got, t, q) = r in
        wake fuel (s, got) (set_queue QueueId.sleeping q (record k { ptable = t })))
wake_round k x fuel xs ys (s, got, t, q) b passed (e, first, d) next =
    simp (e, first)
      (woken_from k x fuel xs ys (schedule x (taken k t q)) passed
        (stepped_from k x xs ys (b.asleep.distinct.0) apart t q (schedule x (taken k t q)) d (
          schedule_lem (taken k t q) x ys ready b.order (apart x (ground arith)) alive
            (omega (arith, b.few, b.ready.length))))
        next)
  where
    sided :
        (j : ℕ)
        → has j (x ∷ xs) ≡ true
        → (has j (x ∷ xs) ≡ false) ⊎ (has j ys ≡ false)
        → has j ys ≡ false
    sided j m (inl out) = absurd (ground arith)
    sided j m (inr e) = e

    apart : (j : ℕ) → has j (x ∷ xs) ≡ true → has j ys ≡ false
    apart j m = sided j m (b.apart j)

    living :
        (has x (x ∷ xs) ≡ false) ⊎ (is_killed (k.ptable x).state ≡ false)
        → is_killed (k.ptable x).state ≡ false
    living (inl out) = absurd (ground arith)
    living (inr e) = e

    alive : is_killed (t x).state ≡ false
    alive = ap (λ (p : Pcb). is_killed p.state) d.detached ∙ living (b.alive x)

    two_faced : (j : ℕ) → j ≡ x → has j ys ≡ true → ⊥
    two_faced j same m = ground (arith, apart j (ground arith))

    ready : Holds t k.ready ys
    ready = Holds-frame k.ptable t k.ready ys b.ready (λ j m. elim (d.spared j) [
      | inl same ↦ absurd (two_faced j same m)
      | inr kept ↦ ap (λ (p : Pcb). p.next) kept
    ])

-- With a ready queue by priority, no sleeper killed or in that queue, and more rounds than
-- processes that sleep, the loop does not panic. It wakes the sleepers up to the first whose
-- wakeup time has not come: they are READY, with no other field changed but `next`, and in the
-- ready queue by priority, and the others sleep on in the same order. It changes no other queue,
-- and no field of a process that is not woken but `next`.
pub wake_loop_lem :
    (fuel : ℕ) (k : Kernel) (xs ys : List ℕ)
    → Before k xs ys
    → length xs < fuel
    → WokenResult k xs ys (wake_loop fuel k)
unfolding wake_loop pcb_queue_empty pcb_queue_peek remove
wake_loop_lem zero k xs ys b lt = absurd (omega arith)
wake_loop_lem (suc fuel) k [] ys b lt =
    simp b.asleep.chain
      (record { asleep = b.asleep; ready = b.ready; made = λ j. inr (refl, refl); rest = refl })
wake_loop_lem (suc fuel) k (x ∷ xs) ys b lt =
    elim (Bool-cases (leb (k.ptable x).wakeup k.system_time)) [
      | inl passed ↦
          let late : ltb k.system_time (k.ptable x).wakeup ≡ false = ground arith in
          simp (b.asleep.chain.0, late)
            (wake_round k x fuel xs ys (pcb_queue_remove k.ptable k.sleeping) b passed
              (pcb_queue_remove_lem k.ptable k.sleeping (x ∷ xs) b.asleep
                (omega (arith, b.few, b.asleep.length)))
              (λ k1 s.
                wake_loop_lem fuel k1 xs (insert_sorted priority_of k.ptable x ys)
                  (Stepped-Before k k1 x xs ys b s) (omega arith)))
      | inr early ↦
          let late : ltb k.system_time (k.ptable x).wakeup ≡ true = ground arith in
          simp (b.asleep.chain.0, late)
            (record {
              asleep = rw early b.asleep;
              ready = rw early b.ready;
              made = λ j. rw early (inr (refl, refl));
              rest = refl;
            })
    ]
