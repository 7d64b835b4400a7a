-- ===== src/Clock/Step.antt =====
-- One round of the loop of clk_isr that wakes processes.
use mathlib.Core.Path.{subst}
use os.Base.{
  ℕ, ◌+◌, ◌<◌, ◌≡◌, refl, sym, ap, ◌∙◌, ◌⊎◌, true, false, ◌||◌, List, [], ◌∷◌, Outcome, ok, panic,
  out_of_fuel, arith, length, has, ◌==◌, Bool-cases, inl, inr,
}
use os.Pcb.{Pcb, Table, State, is_killed}
use os.Queue.{Queue, o_prio, priority_of, wakeup_of}
use os.Queue.Chain.{Holds, has_ne}
use os.Queue.Insert.{front, back, insert_sorted}
use os.Queue.Remove.{Beheaded}
use os.Kernel.{Kernel}
use os.Procs.Ready.{Holds-frame, has-insert_sorted, insert_sorted_same, ReadyResult}

-- The ready queue after the processes `xs` have been put into it one after another.
abbrev pub woken : Table → List ℕ → List ℕ → List ℕ
woken t [] ys = ys
woken t (x ∷ xs) ys = woken t xs (insert_sorted priority_of t x ys)

-- Tables that agree on all wakeup times and priorities.
pub record Same (t t' : Table) : Type 0 where
  pub wakeup : (j : ℕ) → wakeup_of (t' j) ≡ wakeup_of (t j)
  pub priority : (j : ℕ) → priority_of (t' j) ≡ priority_of (t j)

module _ (t t' : Table) (s : Same t t') where
  pub front-Same : (v : ℕ) (xs : List ℕ) → front wakeup_of t' v xs ≡ front wakeup_of t v xs
  front-Same v [] = refl
  front-Same v (x ∷ xs) = rw (s.wakeup x, front-Same v xs)

  pub back-Same : (v : ℕ) (xs : List ℕ) → back wakeup_of t' v xs ≡ back wakeup_of t v xs
  back-Same v [] = refl
  back-Same v (x ∷ xs) = rw (s.wakeup x, back-Same v xs)

  pub woken-Same : (xs ys : List ℕ) → woken t' xs ys ≡ woken t xs ys
  woken-Same [] ys = refl
  woken-Same (x ∷ xs) ys =
      ap (woken t' xs) (insert_sorted_same priority_of t t' x ys s.priority)
      ∙ woken-Same xs (insert_sorted priority_of t x ys)

-- One round: the first sleeper `x` is ready.
pub record Stepped (k : Kernel) (x : ℕ) (xs ys : List ℕ) (k' : Kernel) : Type 0 where
  pub asleep : Holds k'.ptable k'.sleeping xs
  pub ready : Holds k'.ptable k'.ready (insert_sorted priority_of k.ptable x ys)
  pub order : k'.ready.order ≡ o_prio
  pub fields :
      (j : ℕ)
      → ((j ≡ x)
          × (k'.ptable j ≡ record (k.ptable j) { state = State.ready; next = (k'.ptable j).next }))
        ⊎ (((j == x) ≡ false) × (k'.ptable j ≡ record (k.ptable j) { next = (k'.ptable j).next }))
  pub rest : k' ≡ record k { ptable = k'.ptable; ready = k'.ready; sleeping = k'.sleeping }

abbrev pub StepResult : Kernel → ℕ → List ℕ → List ℕ → Outcome (Unit {0} × Kernel) → Type 0
StepResult k x xs ys (ok (u, k')) = Stepped k x xs ys k'
StepResult k x xs ys panic = ⊥
StepResult k x xs ys out_of_fuel = ⊥

pub Stepped-Same :
    (k : Kernel) (x : ℕ) (xs ys : List ℕ) (k' : Kernel)
    → Stepped k x xs ys k'
    → Same k.ptable k'.ptable
Stepped-Same k x xs ys k' s = record {
  wakeup = λ j. elim (s.fields j) [
    | inl (at, e) ↦ ap (λ (p : Pcb). p.wakeup) e
    | inr (ne, e) ↦ ap (λ (p : Pcb). p.wakeup) e
  ];
  priority = λ j. elim (s.fields j) [
    | inl (at, e) ↦ ap (λ (p : Pcb). p.priority) e
    | inr (ne, e) ↦ ap (λ (p : Pcb). p.priority) e
  ];
}

-- The kernel when the first sleeper has been taken off its queue.
abbrev pub taken : Kernel → Table → Queue → Kernel
taken k t q = record k { ptable = t; sleeping = q }

module _ (k : Kernel) (x : ℕ) (xs ys : List ℕ) (fresh : has x xs ≡ false)
    (apart : (j : ℕ) → has j (x ∷ xs) ≡ true → has j ys ≡ false) where
  pub stepped_from :
      (t : Table) (q : Queue) (r : Outcome (Unit {0} × Kernel))
      → Beheaded k.ptable k.sleeping x xs t q
      → ReadyResult (taken k t q) x ys r
      → StepResult k x xs ys r
  stepped_from t q panic d s = elim s [ ]
  stepped_from t q out_of_fuel d s = elim s [ ]
  stepped_from t q (ok (u, k')) d s = record {
    asleep =
        subst (λ c. Holds k'.ptable c xs) (sym (ap (λ (c : Kernel). c.sleeping) s.rest))
          (Holds-frame t k'.ptable q xs d.holds (λ j m. elim (s.spared j) [
            | inl there ↦ absurd (apart_of j m there)
            | inr same ↦ ap (λ (p : Pcb). p.next) same
          ]));
    ready = subst (λ l. Holds k'.ptable k'.ready l) same_order s.holds;
    order = s.order;
    fields = λ j. elim (Bool-cases (j == x)) [
      | inl e ↦ inl (ground arith, at_x j (ground arith))
      | inr ne ↦ elim (s.fields j) [
        | inl same ↦ inl (same, at_x j same)
        | inr e ↦ elim (d.spared j) [
          | inl same ↦ inl (same, at_x j same)
          | inr kept ↦ inr (ne, e ∙ ap (λ (p : Pcb). record p { next = (k'.ptable j).next }) kept)
        ]
      ]
    ];
    rest =
        s.rest
        ∙ ap (λ c. record k { ptable = k'.ptable; ready = k'.ready; sleeping = c })
            (sym (ap (λ (c : Kernel). c.sleeping) s.rest));
  }
    where
      same_order : insert_sorted priority_of t x ys ≡ insert_sorted priority_of k.ptable x ys
      same_order = insert_sorted_same priority_of k.ptable t x ys (λ j. elim (d.spared j) [
        | inl same ↦
            ap (λ c. priority_of (t c)) same
            ∙ ap (λ (p : Pcb). p.priority) d.detached
            ∙ ap (λ c. priority_of (k.ptable c)) (sym same)
        | inr kept ↦ ap (λ (p : Pcb). p.priority) kept
      ])

      apart_of : (j : ℕ) → has j xs ≡ true → has j (insert_sorted priority_of t x ys) ≡ true → ⊥
      apart_of j m there =
          let ne : (x == j) ≡ false = has_ne x j xs fresh m in
          ground (arith, has-insert_sorted priority_of t x j ys, apart j (ground arith))

      at_x :
          (j : ℕ)
          → j ≡ x
          → k'.ptable j ≡ record (k.ptable j) { state = State.ready; next = (k'.ptable j).next }
      at_x j same =
          subst
            (λ c.
              k'.ptable c ≡ record (k.ptable c) { state = State.ready; next = (k'.ptable c).next })
            (sym same)
            (s.self
              ∙ ap (λ (p : Pcb). record p { state = State.ready; next = (k'.ptable x).next })
                  d.detached)

-- The loop's hypotheses: who sleeps, who is ready, and that no sleeper is ready or killed.
pub record Before (k : Kernel) (xs ys : List ℕ) : Type 0 where
  pub asleep : Holds k.ptable k.sleeping xs
  pub ready : Holds k.ptable k.ready ys
  pub order : k.ready.order ≡ o_prio
  pub apart : (j : ℕ) → (has j xs ≡ false) ⊎ (has j ys ≡ false)
  pub alive : (j : ℕ) → (has j xs ≡ false) ⊎ (is_killed (k.ptable j).state ≡ false)
  pub few : length xs + length ys < 0xffff_ffff

pub length-insert_sorted :
    (key : Pcb → ℕ) (t : Table) (i : ℕ) (xs : List ℕ)
    → length (insert_sorted key t i xs) ≡ length xs + 1
unfolding insert_sorted
length-insert_sorted key t i [] = refl
length-insert_sorted key t i (x ∷ xs) = ground (arith, length-insert_sorted key t i xs)

pub Stepped-Before :
    (k k1 : Kernel) (x : ℕ) (xs ys : List ℕ)
    → Before k (x ∷ xs) ys
    → Stepped k x xs ys k1
    → Before k1 xs (insert_sorted priority_of k.ptable x ys)
Stepped-Before k k1 x xs ys b s = record {
  asleep = s.asleep;
  ready = s.ready;
  order = s.order;
  apart = λ j. elim (Bool-cases (has j xs)) [
    | inr out ↦ inl out
    | inl there ↦ inr (has-insert_sorted priority_of k.ptable x j ys ∙ not_ready j there)
  ];
  alive = λ j. elim (Bool-cases (has j xs)) [ inr out ↦ inl out | inl there ↦ inr (kept j there) ];
  few = omega (arith, b.few, length-insert_sorted priority_of k.ptable x ys);
}
  where
    not_ready : (j : ℕ) → has j xs ≡ true → ((j == x) || has j ys) ≡ false
    not_ready j there =
        let ne : (x == j) ≡ false = has_ne x j xs b.asleep.distinct.0 there in
        ground (arith, b.apart j)

    was :
        (j : ℕ)
        → has j xs ≡ true
        → (has j (x ∷ xs) ≡ false) ⊎ (is_killed (k.ptable j).state ≡ false)
        → is_killed (k.ptable j).state ≡ false
    was j there (inl out) = absurd (ground arith)
    was j there (inr e) = e

    kept : (j : ℕ) → has j xs ≡ true → is_killed (k1.ptable j).state ≡ false
    kept j there = elim (s.fields j) [
      | inl (at, e) ↦ ap (λ (p : Pcb). is_killed p.state) e
      | inr (ne, e) ↦ ap (λ (p : Pcb). is_killed p.state) e ∙ was j there (b.alive j)
    ]
