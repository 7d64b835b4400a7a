-- ===== src/Sharing/Running.antt =====
-- procs.c: schedule and dispatch on a kernel whose queues are all in order.
use mathlib.Core.Path.{subst}
use os.Base.{
  sym, ap, ◌∙◌, ℕ, ◌+◌, ◌≡◌, refl, true, false, not, ◌||◌, Option, none, some, List, [], ◌∷◌, arith,
  length, has, ◌==◌, if◌then◌else◌, Bool-cases, inl, inr, Outcome, ok, panic, out_of_fuel,
}
use os.Pcb.{Pcb, Table, State, Status, update, is_killed}
use os.Kmem.{Kmem}
use os.Queue.{Queue}
use os.Queue.Chain.{Holds}
use os.Procs.Ready.{Holds-frame}
use os.Kernel.{
  Kernel, QueueId, queue, M, and_then, ◌>>=◌, ◌>>◌, deref, modify, write_pcb, insert, remove,
}
use os.Procs.{quantum_standard, need, make_ready, schedule, schedule_fuel, dispatch}
use os.Syscalls.{switch}
use os.Sharing.{index, same, Lists, put, Layout}
use os.Sharing.Moves.{has-insert_at, queue-ptable}
use os.Sharing.Calls.{
  Quiet, stored, StoreResult, Layout-insert, TakeResult, Layout-remove, length-insert_at,
}

-- The queues and the `next` fields are as they were.
pub record SameQueues (k k' : Kernel) : Type 0 where
  pub queues : (id : QueueId) → queue id k' ≡ queue id k
  pub next : (j : ℕ) → (k'.ptable j).next ≡ (k.ptable j).next

pub Layout-frame :
    (k k' : Kernel) (all : Lists) (loose : List ℕ)
    → Layout k all loose
    → SameQueues k k'
    → Layout k' all loose
Layout-frame k k' all loose l s = record {
  holds = λ id.
      subst (λ q. Holds k'.ptable q (all id)) (sym (s.queues id))
        (Holds-frame k.ptable k'.ptable (queue id k) (all id) (l.holds id) (λ j m. s.next j));
  order = λ id. ap (λ (q : Queue). q.order) (s.queues id) ∙ l.order id;
  apart = l.apart;
  outside = l.outside;
  detached = λ j free. s.next j ∙ l.detached j free;
  distinct = l.distinct;
  few = l.few;
}

queue-rest :
    (k : Kernel) (c : Option ℕ) (pid time wheel index : ℕ) (m : Kmem) (id : QueueId)
    → queue id (record k {
      current = c;
      next_pid = pid;
      system_time = time;
      pinwheel = wheel;
      pindex = index;
      kmem = m;
    })
      ≡ queue id k
queue-rest k c pid time wheel index m QueueId.pcb_freelist = refl
queue-rest k c pid time wheel index m QueueId.ready = refl
queue-rest k c pid time wheel index m QueueId.waiting = refl
queue-rest k c pid time wheel index m QueueId.sleeping = refl
queue-rest k c pid time wheel index m QueueId.zombie = refl
queue-rest k c pid time wheel index m QueueId.sioread = refl

-- A state in the kernel: the current process, the number of sleepers, and the processes in no
-- queue. No process is marked killed, and the process `idle` is ready or in no queue.
pub record At (idle : ℕ) (cur : Option ℕ) (nap : ℕ) (loose : List ℕ) (k : Kernel) : Type 0 where
  pub all : Lists
  pub layout : Layout k all loose
  pub live : (j : ℕ) → is_killed (k.ptable j).state ≡ false
  pub sleepers : length (all QueueId.sleeping) ≡ nap
  pub idles : (has idle loose || has idle (all QueueId.ready)) ≡ true
  pub current : k.current ≡ cur

-- A process runs, and is the only one in no queue.
pub record Running (idle : ℕ) (k : Kernel) : Type 0 where
  pub process : ℕ
  pub nap : ℕ
  pub at : At idle (some process) nap (process ∷ []) k

-- The command returns, in a state that satisfies `p`.
abbrev pub Leads : {A : Type 0} → (A → Kernel → Type 0) → Outcome (A × Kernel) → Type 0
Leads p (ok (a, k)) = p a k
Leads p panic = ⊥
Leads p out_of_fuel = ⊥

pub Leads-and_then :
    {A B : Type 0} (p : A → Kernel → Type 0) (q : B → Kernel → Type 0) (r : Outcome (A × Kernel))
    (f : A → M B)
    → Leads p r
    → ((a : A) (k : Kernel) → p a k → Leads q (f a k))
    → Leads q (and_then r f)
Leads-and_then p q (ok (a, k)) f d g = g a k d
Leads-and_then p q panic f d g = d
Leads-and_then p q out_of_fuel f d g = d

pub Leads-weaken :
    {A : Type 0} (p q : A → Kernel → Type 0) (r : Outcome (A × Kernel))
    → Leads p r
    → ((a : A) (k : Kernel) → p a k → q a k)
    → Leads q r
Leads-weaken p q (ok (a, k)) d f = f a k d
Leads-weaken p q panic d f = d
Leads-weaken p q out_of_fuel d f = d

live-Quiet :
    (k k' : Kernel)
    → Quiet k k'
    → ((j : ℕ) → is_killed (k.ptable j).state ≡ false)
    → (j : ℕ) → is_killed (k'.ptable j).state ≡ false
live-Quiet k k' s live j = ap (λ (p : Pcb). is_killed p.state) (s.fields j) ∙ live j

-- The other fields of the kernel do not matter to the queues.
pub At-rest :
    (idle : ℕ) (cur : Option ℕ) (nap : ℕ) (loose : List ℕ) (k : Kernel) (c : Option ℕ)
    (pid time wheel index : ℕ) (m : Kmem)
    → At idle cur nap loose k
    → At idle c nap loose (record k {
      current = c;
      next_pid = pid;
      system_time = time;
      pinwheel = wheel;
      pindex = index;
      kmem = m;
    })
At-rest idle cur nap loose k c pid time wheel index m a = record {
  all = a.all;
  layout =
      Layout-frame k _ a.all loose a.layout
        (record { queues = queue-rest k c pid time wheel index m; next = λ j. refl });
  live = a.live;
  sleepers = a.sleepers;
  idles = a.idles;
  current = refl;
}

pub At-scalars :
    (idle : ℕ) (cur : Option ℕ) (nap : ℕ) (loose : List ℕ) (k : Kernel) (pid time wheel index : ℕ)
    (m : Kmem)
    → At idle cur nap loose k
    → At idle cur nap loose (record k {
      next_pid = pid;
      system_time = time;
      pinwheel = wheel;
      pindex = index;
      kmem = m;
    })
At-scalars idle cur nap loose k pid time wheel index m a =
    subst
      (λ c. At idle c nap loose (record k {
        next_pid = pid;
        system_time = time;
        pinwheel = wheel;
        pindex = index;
        kmem = m;
      }))
      a.current (At-rest idle cur nap loose k k.current pid time wheel index m a)

module _ (idle : ℕ) (cur : Option ℕ) (nap : ℕ) (loose : List ℕ) (k : Kernel) where
  -- A write to a PCB that keeps its `next` and does not kill it.
  pub At-update :
      (i : ℕ) (p : Pcb)
      → At idle cur nap loose k
      → p.next ≡ (k.ptable i).next
      → is_killed p.state ≡ false
      → At idle cur nap loose (record k { ptable = update k.ptable i p })
  unfolding update
  At-update i p a next alive = record {
    all = a.all;
    layout =
        Layout-frame k (record k { ptable = update k.ptable i p }) a.all loose a.layout
          (record { queues = λ id. queue-ptable id (update k.ptable i p) k; next = kept });
    live = λ j. elim (Bool-cases (j == i)) [ inl e ↦ rw e alive | inr e ↦ rw e (a.live j) ];
    sleepers = a.sleepers;
    idles = a.idles;
    current = a.current;
  }
    where
      kept : (j : ℕ) → (update k.ptable i p j).next ≡ (k.ptable j).next
      kept j = elim (Bool-cases (j == i)) [
        | inl e ↦
            let e' : j ≡ i = ground arith in rw e (next ∙ ap (λ c. (k.ptable c).next) (sym e'))
        | inr e ↦ rw e
      ]

-- The number of sleepers after a process has gone into a queue.
abbrev pub nap_after : QueueId → ℕ → ℕ
nap_after id nap = if same id QueueId.sleeping then nap + 1 else nap

sleepers_after :
    (id : QueueId) (i nap : ℕ) (t : Table) (all : Lists)
    → length (all QueueId.sleeping) ≡ nap
    → length (stored id i t all QueueId.sleeping) ≡ nap_after id nap
sleepers_after QueueId.pcb_freelist i nap t all e = e
sleepers_after QueueId.ready i nap t all e = e
sleepers_after QueueId.waiting i nap t all e = e
sleepers_after QueueId.sleeping i nap t all e =
    length-insert_at os.Queue.o_wakeup t i (all QueueId.sleeping) ∙ ap (λ n. n + 1) e
sleepers_after QueueId.zombie i nap t all e = e
sleepers_after QueueId.sioread i nap t all e = e

idles_after :
    (id : QueueId) (idle i : ℕ) (t : Table) (all : Lists) (loose : List ℕ)
    → (same id QueueId.ready || not (idle == i)) ≡ true
    → (has idle (i ∷ loose) || has idle (all QueueId.ready)) ≡ true
    → (has idle loose || has idle (stored id i t all QueueId.ready)) ≡ true
idles_after QueueId.pcb_freelist idle i t all loose safe e = ground arith
idles_after QueueId.ready idle i t all loose safe e =
    ground (arith, has-insert_at os.Queue.o_prio t i idle (all QueueId.ready))
idles_after QueueId.waiting idle i t all loose safe e = ground arith
idles_after QueueId.sleeping idle i t all loose safe e = ground arith
idles_after QueueId.zombie idle i t all loose safe e = ground arith
idles_after QueueId.sioread idle i t all loose safe e = ground arith

module _ (idle : ℕ) (cur : Option ℕ) (nap : ℕ) (loose : List ℕ) (k : Kernel) where
  abbrev pub Inserts : QueueId → Status → Kernel → Type 0
  Inserts id s k' = (s ≡ Status.success) × At idle cur (nap_after id nap) loose k'

  -- A process in no queue goes into one; `idle` only into the ready queue.
  pub At-insert :
      (id : QueueId) (i : ℕ)
      → At idle cur nap (i ∷ loose) k
      → (same id QueueId.ready || not (idle == i)) ≡ true
      → Leads (Inserts id) (insert id i k)
  At-insert id i a safe = insert_from (insert id i k) (Layout-insert id i k a.all loose a.layout)
    where
      insert_from :
          (r : Outcome (Status × Kernel)) → StoreResult id i k a.all loose r → Leads (Inserts id) r
      insert_from panic d = d
      insert_from out_of_fuel d = d
      insert_from (ok (s, k')) (e, layout, quiet) = (
        e,
        record {
          all = stored id i k.ptable a.all;
          layout = layout;
          live = live-Quiet k k' quiet a.live;
          sleepers = sleepers_after id i nap k.ptable a.all a.sleepers;
          idles = idles_after id idle i k.ptable a.all loose safe a.idles;
          current = quiet.current ∙ a.current;
        },
      )

pub Inserts-need :
    (idle : ℕ) (cur : Option ℕ) (nap : ℕ) (loose : List ℕ) (id : QueueId) (s : Status)
    (k k' : Kernel)
    → Inserts idle cur nap loose k id s k'
    → Leads (λ _. At idle cur (nap_after id nap) loose) (need s k')
Inserts-need idle cur nap loose id s k k' (e, a) = rw e a

-- schedule puts a process that is in no queue into the ready queue.
pub schedule-At :
    (idle : ℕ) (cur : Option ℕ) (nap : ℕ) (loose : List ℕ) (k : Kernel) (i : ℕ)
    → At idle cur nap (i ∷ loose) k
    → Leads (λ _. At idle cur nap loose) (schedule i k)
unfolding schedule schedule_fuel make_ready
schedule-At idle cur nap loose k i a =
    let p : Pcb = record (k.ptable i) { state = State.ready; next = none } in
    let k1 : Kernel = record k { ptable = update k.ptable i p } in
    let free = a.layout.detached i (ground arith) in
    let a1 = At-update idle cur nap (i ∷ loose) k i p a (sym free) refl in
    rw (a.live i) (
      Leads-and_then (Inserts idle cur nap loose k1 QueueId.ready) (λ _. At idle cur nap loose)
        (insert QueueId.ready i k1) (λ s. need s)
        (At-insert idle cur nap loose k1 QueueId.ready i a1 refl)
        (λ s k' d. Inserts-need idle cur nap loose QueueId.ready s k1 k' d))

-- What is taken off a queue is in no queue.
abbrev pub Takes : ℕ → Option ℕ → ℕ → List ℕ → ℕ → Status × Option ℕ → Kernel → Type 0
Takes idle cur nap loose x (s, got) k' =
    (s ≡ Status.success) × (got ≡ some x) × At idle cur nap (x ∷ loose) k'

module _ (idle : ℕ) (cur : Option ℕ) (nap nap' : ℕ) (loose : List ℕ) (k : Kernel) (id : QueueId)
    (x : ℕ) (xs : List ℕ) (a : At idle cur nap loose k) (held : a.all id ≡ x ∷ xs)
    (sleepers : length (put id xs a.all QueueId.sleeping) ≡ nap')
    (idles : (has idle (x ∷ loose) || has idle (put id xs a.all QueueId.ready)) ≡ true) where
  pub remove_from_queue :
      (r : Outcome ((Status × Option ℕ) × Kernel))
      → TakeResult id x xs k a.all loose r
      → Leads (Takes idle cur nap' loose x) r
  remove_from_queue panic d = d
  remove_from_queue out_of_fuel d = d
  remove_from_queue (ok ((s, got), k')) (e, g, layout, quiet) = (
    e,
    g,
    record {
      all = put id xs a.all;
      layout = layout;
      live = live-Quiet k k' quiet a.live;
      sleepers = sleepers;
      idles = idles;
      current = quiet.current ∙ a.current;
    },
  )

  pub At-remove : Leads (Takes idle cur nap' loose x) (remove id k)
  At-remove = remove_from_queue (remove id k) (Layout-remove id x xs k a.all loose a.layout held)

-- The last part of dispatch.
start-At :
    (idle x nap : ℕ) (s : Status) (got : Option ℕ) (k : Kernel)
    → Takes idle none nap [] x (s, got) k
    → Leads
        (λ _. Running idle)
        ((need s
            >> (deref got >>= λ i.
                modify (λ c. record c { current = some i })
                >> write_pcb i (λ p. record p { state = State.running; ticks = quantum_standard })))
          k)
start-At idle x nap s got k (e, g, a) =
    let k1 : Kernel = record k { current = some x } in
    let a1 =
      At-rest idle none nap (x ∷ []) k (some x) k.next_pid k.system_time k.pinwheel k.pindex k.kmem
        a in
    simp (e, g)
      (record {
        process = x;
        nap = nap;
        at =
            At-update idle (some x) nap (x ∷ []) k1 x
              (record (k.ptable x) { state = State.running; ticks = quantum_standard }) a1 refl
              refl;
      })

-- dispatch finds a process, since `idle` is ready.
pub dispatch-At :
    (idle nap : ℕ) (k : Kernel) → At idle none nap [] k → Leads (λ _. Running idle) (dispatch k)
unfolding dispatch
dispatch-At idle nap k a = simp a.current (with_ready (a.all QueueId.ready) refl)
  where
    with_ready :
        (ys : List ℕ)
        → a.all QueueId.ready ≡ ys
        → Leads
            (λ _. Running idle)
            ((remove QueueId.ready >>= λ r.
                need r.0
                >> (deref r.1 >>= λ i.
                    modify (λ c. record c { current = some i })
                    >> write_pcb i
                        (λ p. record p { state = State.running; ticks = quantum_standard })))
              k)
    with_ready [] e = absurd (ground (arith, a.idles, ap (has idle) e))
    with_ready (x ∷ xs) e =
        Leads-and_then (Takes idle none nap [] x) (λ _. Running idle) (remove QueueId.ready k) _
          (At-remove idle none nap nap [] k QueueId.ready x xs a e a.sleepers
            (ground (arith, a.idles, ap (has idle) e)))
          (λ r k' d. start-At idle x nap r.0 r.1 k' d)

-- `current = NULL; dispatch();`
pub switch-At :
    (idle : ℕ) (cur : Option ℕ) (nap : ℕ) (k : Kernel)
    → At idle cur nap [] k
    → Leads (λ _. Running idle) (switch k)
unfolding switch
switch-At idle cur nap k a =
    dispatch-At idle nap (record k { current = none })
      (At-rest idle cur nap [] k none k.next_pid k.system_time k.pinwheel k.pindex k.kmem a)
