-- ===== src/Procs.antt =====
-- procs.c: allocation of PCBs and stacks, the process table searches, pcb_zombify, pcb_cleanup, and
-- the scheduler. The queues are in Queue, the state and its commands in Kernel.
pub mod Find
pub mod Free
pub mod Ready
pub mod Tests
use os.Base.{
  ℕ, zero, suc, ◌+◌, ◌*◌, not, ◌&&◌, ◌||◌, Option, none, some, Outcome, ok, panic, out_of_fuel, ltb,
  ◌==◌, if◌then◌else◌,
}
use os.Kmem.{Kmem, sz_page, km_page_alloc, km_page_free_multi, clear_words}
use os.Pcb.{
  Table, State, Status, update, is_some, is_unused, is_waiting, is_killed, is_zombie, is_success,
  n_procs, ptr_eq,
}
use os.Queue.{pcb_queue_reset, o_fifo, o_prio, o_pid, o_wakeup}
use os.Kernel.{
  Kernel, QueueId, queue, set_queue, M, ◌>>=◌, ◌>>◌, pure, skip, assert, get, modify, deref,
  read_pcb, write_pcb, write_word, arg, set_ret, insert, remove, remove_this,
}

abbrev pub n_ustkpages : ℕ
n_ustkpages = 2

abbrev pub quantum_standard : ℕ
quantum_standard = 3

abbrev pub first_user_pid : ℕ
first_user_pid = 2

-- Commands of the allocator, on the kernel's state.
pub lift_kmem : {A : Type 0} → Kernel → Outcome (A × Kmem) → Outcome (A × Kernel)
lift_kmem k (ok (a, m)) = ok (a, record k { kmem = m })
lift_kmem k panic = panic
lift_kmem k out_of_fuel = out_of_fuel

pub lift_kmem_unit : Kernel → Outcome Kmem → Outcome (Unit {0} × Kernel)
lift_kmem_unit k (ok m) = ok (tt, record k { kmem = m })
lift_kmem_unit k panic = panic
lift_kmem_unit k out_of_fuel = out_of_fuel

pub pcb_alloc : M (Status × Option ℕ)
pcb_alloc = do
  (status, tmp) ← remove QueueId.pcb_freelist
  if is_success status then pure (Status.success, tmp) else pure (Status.e_no_pcbs, none)

-- What schedule and pcb_free do with the status of an insertion: anything but success is a panic.
abbrev pub need : Status → M (Unit {0})
need s = assert (is_success s)

pub pcb_free : Option ℕ → M (Unit {0})
pcb_free none = skip
pcb_free (some i) = do
  write_pcb i (λ p. record p { state = State.unused; next = none })
  status ← insert QueueId.pcb_freelist i
  need status

pub pages_or_default : ℕ → ℕ
pages_or_default size = if size == 0 then n_ustkpages else size

-- memclr on the words of a new stack, if there is one.
pub clear_stack : Option ℕ → ℕ → Kernel → Kernel
clear_stack none size k = k
clear_stack (some p) size k = record k {
  kmem = record (k.kmem) { mem = clear_words p (size * sz_page) k.kmem.mem };
}

pub pcb_stack_alloc : ℕ → M (Option ℕ)
unfolding lift_kmem pages_or_default clear_stack
pcb_stack_alloc size = do
  ptr ← λ k. lift_kmem k (km_page_alloc (pages_or_default size) k.kmem)
  modify (clear_stack ptr (pages_or_default size))
  pure ptr

pub pcb_stack_free : Option ℕ → ℕ → M (Unit {0})
unfolding lift_kmem_unit pages_or_default
pcb_stack_free stk size = do
  assert (is_some stk)
  λ k. lift_kmem_unit k (km_page_free_multi stk (pages_or_default size) k.kmem)

-- user.c
pub user_cleanup : Option ℕ → M (Unit {0})
unfolding pcb_stack_free
user_cleanup none = skip
user_cleanup (some i) = do p ← read_pcb i; pcb_stack_free p.stack p.stkpgs

pub pcb_cleanup : Option ℕ → M (Unit {0})
unfolding user_cleanup pcb_free
pcb_cleanup none = skip
pcb_cleanup (some i) = user_cleanup (some i) >> pcb_free (some i)

-- The loop of pcb_find_pid, from slot `i` for the rounds that are left.
pub find_pid_from : ℕ → ℕ → ℕ → Table → Option ℕ
find_pid_from pid zero i t = none
find_pid_from pid (suc n) i t =
    if ((t i).pid == pid) && not (is_unused (t i).state)
    then some i
    else find_pid_from pid n (i + 1) t

pub pcb_find_pid : ℕ → Table → Option ℕ
unfolding find_pid_from
pcb_find_pid pid t = if ltb pid 1 then none else find_pid_from pid n_procs 0 t

-- The loop of pcb_find_ppid; a NULL parent is a failed assertion.
pub find_ppid_from : ℕ → ℕ → ℕ → Table → Outcome (Option ℕ)
find_ppid_from pid zero i t = ok none
find_ppid_from pid (suc n) i t =
    let rest = find_ppid_from pid n (i + 1) t in
    elim (t i).parent [
      | none ↦ panic
      | some par ↦
          if ((t par).pid == pid) && not (is_unused (t par).state) then ok (some i) else rest
    ]

pub pcb_find_ppid : ℕ → Table → Outcome (Option ℕ)
unfolding find_ppid_from
pcb_find_ppid pid t = if ltb pid 1 then ok none else find_ppid_from pid n_procs 0 t

-- One round of the loop of pcb_zombify on slot `i`: the table and `zchild` after it.
pub reparent : Option ℕ → ℕ → ℕ → ℕ → Table × Option ℕ → Table × Option ℕ
reparent init parent victim i (t, zchild) =
    if is_unused (t i).state || (i == parent)
    then (t, zchild)
    else if ptr_eq (t i).parent (some victim)
    then (
      update t i (record (t i) { parent = init }),
      if is_zombie (t i).state then some i else zchild,
    )
    else (t, zchild)

pub reparent_loop : Option ℕ → ℕ → ℕ → ℕ → ℕ → Table × Option ℕ → Table × Option ℕ
unfolding reparent
reparent_loop init parent victim zero i s = s
reparent_loop init parent victim (suc n) i s =
    reparent_loop init parent victim n (i + 1) (reparent init parent victim i s)

-- Passing a terminated child's PID and exit status to a waiting process.
pub report : ℕ → ℕ → ℕ → M (Unit {0})
report waiter pid status = do
  set_ret waiter pid
  ptr ← arg waiter 2
  if ptr == 0 then skip else write_word ptr status

-- init, which waits at slot `ip`, collects the zombie `z`.
pub wake_for : (ℕ → M (Unit {0})) → ℕ → ℕ → M (Unit {0})
unfolding report pcb_cleanup
wake_for sched ip z = do
  removed ← remove_this QueueId.zombie z
  need removed
  woken ← remove_this QueueId.waiting ip
  need woken
  child ← read_pcb z
  report ip child.pid child.exit_status
  sched ip
  pcb_cleanup (some z)

-- pcb_zombify's part for a child that is a zombie already: init is woken to collect it.
pub wake_init : (ℕ → M (Unit {0})) → Option ℕ → M (Unit {0})
unfolding wake_for
wake_init sched none = skip
wake_init sched (some z) = do
  k ← get
  ip ← deref k.init_pcb
  if is_waiting (k.ptable ip).state then wake_for sched ip z else skip

-- The last part of pcb_zombify: the victim becomes a zombie and is queued.
pub entomb : ℕ → M (Unit {0})
entomb victim = do
  write_pcb victim (λ p. record p { state = State.zombie; next = none })
  status ← insert QueueId.zombie victim
  need status

-- The waiting parent collects the victim.
pub reap : (ℕ → M (Unit {0})) → ℕ → ℕ → ℕ → M (Unit {0})
unfolding report pcb_cleanup
reap sched parent victim vicpid = do
  vic ← read_pcb victim
  report parent vicpid vic.exit_status
  sched parent
  pcb_cleanup (some victim)

-- The part for the victim's own parent.
pub tell_parent : (ℕ → M (Unit {0})) → ℕ → ℕ → ℕ → M (Unit {0})
unfolding reap entomb
tell_parent sched parent victim vicpid = do
  par ← read_pcb parent
  target ← arg parent 1
  if is_waiting par.state && ((target == 0) || (target == vicpid))
      then reap sched parent victim vicpid
      else entomb victim

-- pcb_zombify calls schedule, and schedule calls pcb_zombify: here schedule is an argument.
pub zombify_with : (ℕ → M (Unit {0})) → Option ℕ → M (Unit {0})
unfolding reparent_loop wake_init tell_parent
zombify_with sched none = skip
zombify_with sched (some victim) = do
  vic ← read_pcb victim
  parent ← deref vic.parent
  k ← get
  let looped = reparent_loop k.init_pcb parent victim n_procs 0 (k.ptable, none)
  modify (λ s. record s { ptable = looped.0 })
  wake_init sched looped.1
  tell_parent sched parent victim vic.pid

-- The part of schedule for a process that is not killed.
unfoldable pub make_ready : ℕ → M (Unit {0})
make_ready i = do
  write_pcb i (λ p. record p { state = State.ready; next = none })
  status ← insert QueueId.ready i
  need status

-- schedule, on fuel for its calls of itself through pcb_zombify.
unfoldable pub schedule_fuel : ℕ → ℕ → M (Unit {0})
unfolding zombify_with make_ready
schedule_fuel zero i = λ k. out_of_fuel
schedule_fuel (suc n) i = do
  p ← read_pcb i
  if is_killed p.state then zombify_with (schedule_fuel n) (some i) else make_ready i

-- The processes that pcb_zombify schedules are waiting, so not killed: one call deep is enough.
unfoldable pub schedule : ℕ → M (Unit {0})
unfolding schedule_fuel
schedule = schedule_fuel 2

pub pcb_zombify : Option ℕ → M (Unit {0})
unfolding zombify_with schedule_fuel
pcb_zombify = zombify_with (schedule_fuel 1)

unfoldable pub dispatch : M (Unit {0})
dispatch = do
  k ← get
  assert (not (is_some k.current))
  (status, next) ← remove QueueId.ready
  need status
  i ← deref next
  modify (λ s. record s { current = some i })
  write_pcb i (λ p. record p { state = State.running; ticks = quantum_standard })

-- pcb_init's loop over the process table, from slot `i` for the rounds that are left.
pub free_all : ℕ → ℕ → M (Unit {0})
unfolding pcb_free
free_all zero i = skip
free_all (suc n) i = pcb_free (some i) >> free_all n (i + 1)

-- QINIT
pub qinit : QueueId → ℕ → M (Unit {0})
qinit id style = do
  k ← get
  let reset = pcb_queue_reset (queue id k) style
  modify (set_queue id reset.1)
  need reset.0

pub pcb_init : M (Unit {0})
unfolding qinit free_all
pcb_init = do
  modify (λ k. record k { current = none; next_pid = first_user_pid })
  qinit QueueId.pcb_freelist o_fifo
  qinit QueueId.ready o_prio
  qinit QueueId.waiting o_pid
  qinit QueueId.sleeping o_wakeup
  qinit QueueId.zombie o_pid
  qinit QueueId.sioread o_fifo
  free_all n_procs 0
