-- ===== src/Syscalls/Sleep.antt =====
-- sys_sleep: from the caller's request to the process that runs next.
use mathlib.Core.Path.{subst}
use os.Base.{
  ℕ, ◌+◌, ◌%◌, ◌<◌, ◌≡◌, refl, sym, ap, ◌∙◌, true, false, none, some, List, ◌∷◌, Outcome, ok, panic,
  out_of_fuel, arith, has, ◌==◌, if◌then◌else◌, inl, inr,
}
use os.Pcb.{Pcb, Table, State, Status, update, is_success, ptr_eq}
use os.Queue.{Queue, o_wakeup, wakeup_of, pcb_queue_insert}
use os.Queue.Chain.{Chain-frame, Holds, has_ne}
use os.Queue.Insert.{Inserted, InsertResult, insert_at, insert_sorted, pcb_queue_insert_lem}
use os.Kernel.{Kernel, QueueId, M, and_then, arg, insert, lift_queue}
use os.Procs.{dispatch}
use os.Procs.Ready.{has-insert_sorted, Holds-update, DispatchResult, dispatch_lem}
use os.Syscalls.{switch, yield_if_current, sleep_failed, sys_sleep}

-- The caller's PCB when its wakeup time is set.
abbrev pub timed : Table → ℕ → ℕ → Table
timed t i time = update t i (record (t i) { wakeup = time })

timed_self : (t : Table) (i time : ℕ) → timed t i time i ≡ record (t i) { wakeup = time }
unfolding update
timed_self t i time = ground arith

timed_other : (t : Table) (i time j : ℕ) → (j == i) ≡ false → timed t i time j ≡ t j
unfolding update
timed_other t i time j ne = rw ne

-- The queue of ready processes is not touched by an insertion into another one.
Holds-spared :
    (t t' : Table) (q q' other : Queue) (i : ℕ) (out ys : List ℕ)
    → Inserted t q i out t' q'
    → Holds t other ys
    → ((j : ℕ) → has j ys ≡ true → has j out ≡ false)
    → Holds t' other ys
Holds-spared t t' q q' other i out ys d h apart = record {
  chain = Chain-frame t t' other.head ys h.chain (λ j m. elim (d.spared j) [
    | inl there ↦ absurd (true_false (sym there ∙ apart j m))
    | inr same ↦ ap (λ (p : Pcb). p.next) same
  ]);
  distinct = h.distinct;
  tail = h.tail;
  length = h.length;
}
  where
    true_false : true ≡ false → ⊥
    true_false e = ground arith

-- The result of a call that puts the caller `i` to sleep until `time` and dispatches `y`.
pub record Slept (k : Kernel) (i time y : ℕ) (xs ys : List ℕ) (k' : Kernel) : Type 0 where
  pub current : k'.current ≡ some y
  pub asleep : Holds k'.ptable k'.sleeping (insert_sorted wakeup_of (timed k.ptable i time) i xs)
  pub ready : Holds k'.ptable k'.ready ys
  pub wakeup : (k'.ptable i).wakeup ≡ time
  pub state : (k'.ptable i).state ≡ (k.ptable i).state
  pub running : (k'.ptable y).state ≡ State.running

abbrev pub SleepResult : Kernel → ℕ → ℕ → ℕ → List ℕ → List ℕ → Outcome (Unit {0} × Kernel) → Type 0
SleepResult k i time y xs ys (ok (u, k')) = Slept k i time y xs ys k'
SleepResult k i time y xs ys panic = ⊥
SleepResult k i time y xs ys out_of_fuel = ⊥

wakeup-insert_at :
    (order : ℕ) (t : Table) (i : ℕ) (xs : List ℕ)
    → order ≡ o_wakeup
    → insert_at order t i xs ≡ insert_sorted wakeup_of t i xs
unfolding insert_at
wakeup-insert_at order t i xs e = rw e

module _ (k : Kernel) (i time y : ℕ) (xs ys : List ℕ) (ready : Holds k.ptable k.ready (y ∷ ys))
    (wakes : k.sleeping.order ≡ o_wakeup) (running : has i (y ∷ ys) ≡ false)
    (apart : (j : ℕ) → has j (y ∷ ys) ≡ true → has j xs ≡ false)
    (few : k.ready.length < 0x1_0000_0000) where
  abbrev sleepers : List ℕ
  sleepers = insert_sorted wakeup_of (timed k.ptable i time) i xs

  out_of_sleepers : (j : ℕ) → has j (y ∷ ys) ≡ true → has j sleepers ≡ false
  out_of_sleepers j m =
      has-insert_sorted wakeup_of (timed k.ptable i time) i j xs
      ∙ ground (arith, apart j m, has_ne i j (y ∷ ys) running m)

  -- The kernel when the caller is queued and no process is current.
  abbrev queued : Table → Queue → Kernel
  queued t' q' = record k { ptable = t'; sleeping = q'; current = none }

  slept_from :
      (t' : Table) (q' : Queue) (r : Outcome (Unit {0} × Kernel))
      → Inserted (timed k.ptable i time) k.sleeping i sleepers t' q'
      → DispatchResult (queued t' q') (y ∷ ys) r
      → SleepResult k i time y xs ys r
  slept_from t' q' panic d e = elim e [ ]
  slept_from t' q' out_of_fuel d e = elim e [ ]
  slept_from t' q' (ok (u, k')) d e = record {
    current = e.current;
    asleep =
        subst (λ q. Holds k'.ptable q sleepers) (sym (ap (λ (c : Kernel). c.sleeping) e.rest))
          (record {
            chain = Chain-frame t' k'.ptable q'.head sleepers d.holds.chain (λ j m.
                elim (e.spared j) [
                  | inl same ↦ absurd (in_and_out j y same m (ground arith))
                  | inr same ↦ ap (λ (p : Pcb). p.next) same
                ]);
            distinct = d.holds.distinct;
            tail = d.holds.tail;
            length = d.holds.length;
          });
    ready = e.holds;
    wakeup = ap (λ (p : Pcb). p.wakeup) caller;
    state = ap (λ (p : Pcb). p.state) caller;
    running = ap (λ (p : Pcb). p.state) e.running;
  }
    where
      in_and_out : (j z : ℕ) → j ≡ z → has j sleepers ≡ true → has z (y ∷ ys) ≡ true → ⊥
      in_and_out j z same m n = ground (arith, out_of_sleepers z n)

      caller : k'.ptable i ≡ record (k.ptable i) { wakeup = time; next = (t' i).next }
      caller = elim (e.spared i) [
        | inl same ↦ absurd (ground (arith, running))
        | inr same ↦
            same
            ∙ d.fields i
            ∙ ap (λ (p : Pcb). record p { next = (t' i).next }) (timed_self k.ptable i time)
      ]

  -- What sys_sleep does with the outcome of the insertion.
  abbrev finish : Status → M (Unit {0})
  finish status = if is_success status then yield_if_current i else sleep_failed i

  finish_from :
      (r : Outcome (Status × Table × Queue))
      → k.current ≡ some i
      → InsertResult (timed k.ptable i time) k.sleeping i sleepers r
      → SleepResult k i time y xs ys (
          and_then
            (lift_queue QueueId.sleeping (record k { ptable = timed k.ptable i time }) r)
            finish)
  unfolding lift_queue yield_if_current switch
  finish_from panic mine d = elim d [ ]
  finish_from out_of_fuel mine d = elim d [ ]
  finish_from (ok (s, t', q')) mine (e, d) =
      simp (e, is_mine)
        (slept_from t' q' (dispatch (queued t' q')) d (
          dispatch_lem (queued t' q') (y ∷ ys)
            (Holds-spared (timed k.ptable i time) t' k.sleeping q' k.ready i sleepers (y ∷ ys) d
              (Holds-update k.ptable k.ready (y ∷ ys) i (record (k.ptable i) { wakeup = time })
                ready running)
              out_of_sleepers)
            refl few))
    where
      is_mine : ptr_eq k.current (some i) ≡ true
      is_mine = rw mine (ground arith)

  -- The current process calls sys_sleep for a time that is not 0. It is in neither the ready
  -- queue nor the sleep queue and its `next` is NULL; some process is ready, no ready process
  -- sleeps, and the sleep queue is ordered by wakeup time. Then the call does not panic. The
  -- process is in the sleep queue before the first process that wakes up later, with the wakeup
  -- time that the clock and the argument give; the first ready process is the current one and
  -- RUNNING, and the others are ready in the same order. The state of the process that sleeps is
  -- not changed.
  pub sys_sleep_lem :
      (n : ℕ)
      → k.current ≡ some i
      → arg i 1 k ≡ ok (n, k)
      → (n == 0) ≡ false
      → time ≡ (k.system_time + n) % 0x1_0000_0000
      → Holds k.ptable k.sleeping xs
      → has i xs ≡ false
      → (k.ptable i).next ≡ none
      → k.sleeping.length < 0xffff_ffff
      → SleepResult k i time y xs ys (sys_sleep i k)
  unfolding sys_sleep insert
  sys_sleep_lem n mine given some_time at asleep awake free small =
      let t = timed k.ptable i time in
      let inserted : InsertResult t k.sleeping i sleepers (pcb_queue_insert t k.sleeping i) =
        subst (λ l. InsertResult t k.sleeping i l (pcb_queue_insert t k.sleeping i))
          (wakeup-insert_at k.sleeping.order t i xs wakes)
          (pcb_queue_insert_lem t k.sleeping i xs
            (Holds-update k.ptable k.sleeping xs i (record (k.ptable i) { wakeup = time }) asleep
              awake)
            (omega (arith, wakes)) awake
            (ap (λ (p : Pcb). p.next) (timed_self k.ptable i time) ∙ free) small) in
      simp (given, some_time, sym at) (finish_from (pcb_queue_insert t k.sleeping i) mine inserted)
