-- ===== src/Queue/Insert.antt =====
-- pcb_queue_insert: where a PCB goes in a queue of each order.
use mathlib.Core.Path.{subst}
use os.Base.{
  sym, ap, ◌⊎◌, ◌∙◌, ℕ, zero, suc, ◌+◌, ◌%◌, ◌≤◌, ◌<◌, ◌≡◌, refl, true, false, Option, none, some,
  List, [], ◌∷◌, ◌++◌, append-nil, arith, length, length-append, has, leb, ◌==◌, if◌then◌else◌,
  Bool-cases, inl, inr, ok, panic, out_of_fuel, Outcome,
}
use os.Pcb.{Pcb, Table, set_next, is_some, Status}
use os.Queue.{
  Queue, find_prev, link, insert_behind, predecessor, pcb_queue_insert, wakeup_of, pid_of,
  priority_of, o_fifo, o_prio, o_pid, o_wakeup, find_prev_pid, find_prev_priority, find_prev_wakeup,
  found,
}
use os.Queue.Chain.{
  Chain, last_of, Holds, next_self, next_other, set_next_other, set_next_fields,
  set_next_fields_twice, last_some, has-last, has_ne, Chain-frame, last_of-append, has-append,
  Distinct-middle, Chain-after, Chain-insert,
}

module _ (key : Pcb → ℕ) (t : Table) (v : ℕ) where
  -- The entries of a queue up to the first whose key is greater than `v`, and those from there on.
  abbrev pub front : List ℕ → List ℕ
  front [] = []
  front (x ∷ xs) = if leb (key (t x)) v then x ∷ front xs else []

  abbrev pub back : List ℕ → List ℕ
  back [] = []
  back (x ∷ xs) = if leb (key (t x)) v then back xs else x ∷ xs

  pub front-append-back : (xs : List ℕ) → front xs ++ back xs ≡ xs
  front-append-back [] = refl
  front-append-back (x ∷ xs) = ground (arith, front-append-back xs)

  -- The search returns the last entry of the front part.
  pub find_prev_lem :
      (fuel : ℕ) (prev curr : Option ℕ) (xs : List ℕ)
      → Chain t curr xs
      → length xs < fuel
      → find_prev key t v fuel prev curr ≡ ok (last_of prev (front xs))
  unfolding find_prev
  find_prev_lem zero prev curr xs c f = absurd (omega arith)
  find_prev_lem (suc fuel) prev curr [] c f = rw c
  find_prev_lem (suc fuel) prev curr (x ∷ xs) c f = rw c.0 (elim (Bool-cases (leb (key (t x)) v)) [
    | inl pass ↦ rw (pass, find_prev) (find_prev_lem fuel (some x) (t x).next xs c.1 (omega arith))
    | inr stop ↦ rw (stop, find_prev)
  ])

-- The abstract insertion: before the first entry with a greater key.
unfoldable pub insert_sorted : (Pcb → ℕ) → Table → ℕ → List ℕ → List ℕ
insert_sorted key t i [] = i ∷ []
insert_sorted key t i (x ∷ xs) =
    if leb (key (t x)) (key (t i)) then x ∷ insert_sorted key t i xs else i ∷ x ∷ xs

insert_sorted_lem :
    (key : Pcb → ℕ) (t : Table) (i : ℕ) (xs : List ℕ)
    → front key t (key (t i)) xs ++ i ∷ back key t (key (t i)) xs ≡ insert_sorted key t i xs
unfolding insert_sorted
insert_sorted_lem key t i [] = refl
insert_sorted_lem key t i (x ∷ xs) = ground (arith, insert_sorted_lem key t i xs)

-- Where a queue of the given order puts `i`: at the end, or by priority, PID or wakeup time.
unfoldable pub insert_at : ℕ → Table → ℕ → List ℕ → List ℕ
unfolding insert_sorted
insert_at order t i xs =
    if order == o_fifo
    then xs ++ i ∷ []
    else if order == o_prio
    then insert_sorted priority_of t i xs
    else if order == o_pid
    then insert_sorted pid_of t i xs
    else insert_sorted wakeup_of t i xs

-- What an insertion leaves, for the list `out` that the queue then holds.
pub record Inserted (t : Table) (q : Queue) (i : ℕ) (out : List ℕ) (t' : Table) (q' : Queue)
    : Type 0 where
  pub holds : Holds t' q' out
  pub order : q'.order ≡ q.order
  pub fields : (j : ℕ) → t' j ≡ record (t j) { next = (t' j).next }
  pub spared : (j : ℕ) → (has j out ≡ true) ⊎ (t' j ≡ t j)

module _ (t : Table) (q : Queue) (i x p : ℕ) (xs : List ℕ)
    (last : last_of (some x) xs ≡ some p) where
  -- The slot `i` is not `p`, which stands in the queue.
  ne_last : (ys : List ℕ) → has i (x ∷ xs ++ ys) ≡ false → (i == p) ≡ false
  ne_last ys out =
      let apart : has i (x ∷ xs) ≡ false = ground (arith, has-append i (x ∷ xs) ys) in
      has_ne i p (x ∷ xs) apart (has-last x xs p last)

  -- Whatever the writes are that put `i` behind `p`, the last slot of the front part.
  placed :
      (ys : List ℕ) (t' : Table) (tl : Option ℕ)
      → Holds t q (x ∷ xs ++ ys)
      → has i (x ∷ xs ++ ys) ≡ false
      → q.length < 0xffff_ffff
      → (t' i).next ≡ (t p).next
      → (t' p).next ≡ some i
      → ((j : ℕ) → (j == i) ≡ false → (j == p) ≡ false → (t' j).next ≡ (t j).next)
      → ((j : ℕ) → t' j ≡ record (t j) { next = (t' j).next })
      → tl ≡ last_of (some i) ys
      → Inserted t q i
          (x ∷ xs ++ i ∷ ys)
          t'
          (record q { tail = tl; length = (q.length + 1) % 0x1_0000_0000 })
  placed ys t' tl h out small new old same fields te = record {
    holds = record {
      chain = Chain-insert t t' q.head x xs ys i p h.chain h.distinct out last new old same;
      distinct = Distinct-middle (x ∷ xs) ys i h.distinct out;
      tail = te ∙ sym (last_of-append (some x) xs (i ∷ ys));
      length = omega (arith, h.length, length-append (x ∷ xs) ys, length-append (x ∷ xs) (i ∷ ys));
    };
    order = refl;
    fields = fields;
    spared = λ j. elim (Bool-cases (has j (x ∷ xs ++ i ∷ ys))) [
      | inl here ↦ inl here
      | inr gone ↦ inr (
          fields j
          ∙ ap (λ n. record (t j) { next = n })
              (same j (ground (arith, has-append j (x ∷ xs) (i ∷ ys))) (away j gone)))
    ];
  }
    where
      away : (j : ℕ) → has j (x ∷ xs ++ i ∷ ys) ≡ false → (j == p) ≡ false
      away j gone =
          let apart : has j (x ∷ xs) ≡ false = ground (arith, has-append j (x ∷ xs) (i ∷ ys)) in
          has_ne j p (x ∷ xs) apart (has-last x xs p last)

  link_behind :
      (ys : List ℕ)
      → Holds t q (x ∷ xs ++ ys)
      → has i (x ∷ xs ++ ys) ≡ false
      → (t i).next ≡ none
      → q.length < 0xffff_ffff
      → let (t', q') = link t q i (some p) in Inserted t q i (x ∷ xs ++ i ∷ ys) t' q'
  unfolding link
  link_behind [] h out free small =
      let stop : (t p).next ≡ none = Chain-after t q.head x xs [] p h.chain last in
      let ne = ne_last [] out in
      rw stop (
        placed [] (set_next t p (some i)) (some i) h out small
          (next_other t p (some i) i ne ∙ free ∙ sym stop) (next_self t p (some i))
          (λ j n m. next_other t p (some i) j m) (set_next_fields t p (some i)) refl)
  link_behind (y ∷ ys) h out free small =
      let more : (t p).next ≡ some y = (Chain-after t q.head x xs (y ∷ ys) p h.chain last).0 in
      let ne = ne_last (y ∷ ys) out in
      rw more (
        placed (y ∷ ys) (set_next (set_next t i (some y)) p (some i)) q.tail h out small
          (next_other _ p (some i) i ne ∙ next_self t i (some y) ∙ sym more)
          (next_self _ p (some i))
          (λ j n m. next_other _ p (some i) j m ∙ next_other t i (some y) j n)
          (set_next_fields_twice t i (some y) p (some i))
          (h.tail ∙ last_of-append (some x) xs (y ∷ ys)))

-- Linking `i` behind the front part `xs` of a queue that holds `xs ++ ys`.
link-Inserted :
    (t : Table) (q : Queue) (i : ℕ) (xs ys : List ℕ)
    → Holds t q (xs ++ ys)
    → has i (xs ++ ys) ≡ false
    → (t i).next ≡ none
    → q.length < 0xffff_ffff
    → let (t', q') = link t q i (last_of none xs) in Inserted t q i (xs ++ i ∷ ys) t' q'
unfolding link
link-Inserted t q i [] ys h out free small = record {
  holds = record {
    chain = (
      refl,
      subst (λ n. Chain (set_next t i q.head) n ys) (sym (next_self t i q.head))
          (Chain-frame t (set_next t i q.head) q.head ys h.chain
            (λ j m. next_other t i q.head j (ground arith))),
    );
    distinct = (out, h.distinct);
    tail = front_tail ys h.chain h.tail;
    length = omega (arith, h.length);
  };
  order = refl;
  fields = set_next_fields t i q.head;
  spared = λ j. elim (Bool-cases (j == i)) [
    | inl e ↦ inl (ground arith)
    | inr ne ↦ inr (set_next_other t i q.head j ne)
  ];
}
  where
    front_tail :
        (zs : List ℕ)
        → Chain t q.head zs
        → q.tail ≡ last_of none zs
        → (if is_some q.head then q.tail else some i) ≡ last_of (some i) zs
    front_tail [] c e = rw c
    front_tail (z ∷ zs) c e = rw c.0 e
link-Inserted t q i (x ∷ xs) ys h out free small =
    let (p, e) = last_some x xs in
    subst (λ d. let (t', q') = link t q i d in Inserted t q i (x ∷ xs ++ i ∷ ys) t' q') (sym e)
      (link_behind t q i x p xs e ys h out free small)

abbrev pub InsertResult : Table → Queue → ℕ → List ℕ → Outcome (Status × Table × Queue) → Type 0
InsertResult t q i out (ok (s, t', q')) = (s ≡ Status.success) × Inserted t q i out t' q'
InsertResult t q i out panic = ⊥
InsertResult t q i out out_of_fuel = ⊥

-- The predecessor found, and the two parts of the queue between which the PCB goes.
record Parted (t : Table) (q : Queue) (i : ℕ) (all : List ℕ) : Type 0 where
  before : List ℕ
  after : List ℕ
  whole : before ++ after ≡ all
  result : before ++ i ∷ after ≡ insert_at q.order t i all
  prev : predecessor t q i ≡ ok (some (last_of none before))

sorted_Parted :
    (key : Pcb → ℕ) (t : Table) (q : Queue) (i : ℕ) (all : List ℕ)
    → Holds t q all
    → predecessor t q i ≡ found (find_prev key t (key (t i)) (q.length + 1) none q.head)
    → insert_at q.order t i all ≡ insert_sorted key t i all
    → Parted t q i all
sorted_Parted key t q i all h pe ie = record {
  before = front key t (key (t i)) all;
  after = back key t (key (t i)) all;
  whole = front-append-back key t (key (t i)) all;
  result = insert_sorted_lem key t i all ∙ sym ie;
  prev =
      pe
      ∙ ap found (
          find_prev_lem key t (key (t i)) (q.length + 1) none q.head all h.chain
            (omega (arith, h.length)));
}

Parted_lem :
    (t : Table) (q : Queue) (i : ℕ) (all : List ℕ)
    → Holds t q all
    → q.order ≤ o_wakeup
    → Parted t q i all
unfolding predecessor find_prev_pid find_prev_priority find_prev_wakeup insert_at
Parted_lem t q i all h le = elim (Bool-cases (q.order == o_fifo)) [
  | inl fifo ↦ record {
    before = all;
    after = [];
    whole = append-nil all;
    result = rw fifo;
    prev = rw fifo (ap (λ d. ok (some d)) h.tail);
  }
  | inr a ↦ elim (Bool-cases (q.order == o_prio)) [
    | inl e ↦ sorted_Parted priority_of t q i all h (rw (a, e)) (rw (a, e))
    | inr b ↦ elim (Bool-cases (q.order == o_pid)) [
      | inl e ↦ sorted_Parted pid_of t q i all h (rw (a, b, e)) (rw (a, b, e))
      | inr c ↦
          let e : (q.order == o_wakeup) ≡ true = ground arith in
          sorted_Parted wakeup_of t q i all h (rw (a, b, c, e)) (rw (a, b, c))
    ]
  ]
]

insert_at-nil : (order : ℕ) (t : Table) (i : ℕ) → insert_at order t i [] ≡ i ∷ []
unfolding insert_at
insert_at-nil order t i = ground arith

-- A queue of one of the four orders that holds the PCBs `xs` takes a PCB that is not among them
-- and whose `next` is NULL: the call succeeds within its fuel and without a failed assertion, the
-- queue then holds `xs` with the PCB at the end (FIFO) or before the first PCB with a greater
-- priority, PID or wakeup time, no field but `next` changes in any PCB, and PCBs outside the queue
-- do not change at all.
pub pcb_queue_insert_lem :
    (t : Table) (q : Queue) (i : ℕ) (xs : List ℕ)
    → Holds t q xs
    → q.order ≤ o_wakeup
    → has i xs ≡ false
    → (t i).next ≡ none
    → q.length < 0xffff_ffff
    → InsertResult t q i (insert_at q.order t i xs) (pcb_queue_insert t q i)
unfolding pcb_queue_insert insert_behind
pcb_queue_insert_lem t q i [] h le out free small =
    simp (free, h.chain, insert_at-nil)
      (
        refl,
        record {
          holds = record {
            chain = (refl, free);
            distinct = (refl, tt);
            tail = refl;
            length = refl;
          };
          order = refl;
          fields = λ j. refl;
          spared = λ j. inr refl;
        },
      )
pcb_queue_insert_lem t q i (x ∷ xs) h le out free small =
    let parted = Parted_lem t q i (x ∷ xs) h le in
    let (p, e) = last_some x xs in
    simp (free, h.chain.0, h.tail ∙ e, parted.prev)
      (
        refl,
        subst
            (λ l. let (t', q') = link t q i (last_of none parted.before) in Inserted t q i l t' q')
            parted.result
            (link-Inserted t q i parted.before parted.after
              (subst (λ l. Holds t q l) (sym parted.whole) h)
              (subst (λ l. has i l ≡ false) (sym parted.whole) out) free small),
      )
