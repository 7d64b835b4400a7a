-- ===== src/Syscalls.antt =====
-- syscalls.c: the handlers of the process system calls. A handler takes the slot of the calling
-- process. What it returns to the user goes into the EAX field of the saved context.
pub mod Sleep
pub mod Wait
mod Tests
use os.Base.{
  ℕ, zero, suc, ◌+◌, ◌-◌, ◌*◌, ◌%◌, Bool, true, false, not, ◌&&◌, Option, none, some, out_of_fuel,
  ltb, leb, ◌==◌, if◌then◌else◌,
}
use os.Kmem.{sz_page}
use os.Pcb.{Table, State, Status, is_zombie, is_success, n_procs, ptr_eq, code}
use os.Kernel.{
  QueueId, M, ◌>>=◌, ◌>>◌, skip, fail, get, modify, deref, read_pcb, write_pcb, read_word,
  write_word, arg, set_ret, insert, remove_this, reg, off_ebp, off_esp,
}
use os.Procs.{
  n_ustkpages, first_user_pid, pcb_alloc, pcb_free, pcb_stack_alloc, pcb_cleanup, pcb_find_pid,
  pcb_zombify, schedule, dispatch, need, report,
}

-- EXIT_KILLED and EXIT_BAD_SYSCALL, as bit patterns.
abbrev pub exit_killed : ℕ
exit_killed = 0x1_0000_0000 - 101

abbrev pub exit_bad_syscall : ℕ
exit_bad_syscall = 0x1_0000_0000 - 102

-- `current = NULL; dispatch();`
unfoldable pub switch : M (Unit {0})
switch = modify (λ k. record k { current = none }) >> dispatch

pub sys_exit : ℕ → M (Unit {0})
unfolding switch
sys_exit i = do
  status ← arg i 1
  write_pcb i (λ p. record p { exit_status = status })
  pcb_zombify (some i)
  switch

-- What sys_waitpid finds: an error to return, nobody to collect yet, or a zombie.
pub data Search : Type 0 where
  refused : Status → Search
  block : Search
  collect : ℕ → Search

-- The part of sys_waitpid for a specific PID.
pub look_for : ℕ → Table → Option ℕ → Search
look_for i t none = refused Status.e_bad_param
look_for i t (some c) =
    if not (ptr_eq (t c).parent (some i))
    then refused Status.e_bad_param
    else if is_zombie (t c).state
    then collect c
    else block

-- The loop over the table for any child, from slot `c` for the rounds that are left.
pub look_any : ℕ → Table → Bool → ℕ → ℕ → Search
look_any i t found zero c = if found then block else refused Status.e_no_children
look_any i t found (suc n) c =
    let mine = ptr_eq (t c).parent (some i) in
    let rest = look_any i t (if mine then true else found) n (c + 1) in
    if mine && is_zombie (t c).state then collect c else rest

pub wait_search : ℕ → ℕ → Table → Search
unfolding look_for look_any
wait_search i target t =
    if not (target == 0) then look_for i t (pcb_find_pid target t) else look_any i t false n_procs 0

unfoldable pub wait_finish : ℕ → Search → M (Unit {0})
unfolding switch
wait_finish i (refused s) = set_ret i (code s)
wait_finish i block = do
  write_pcb i (λ p. record p { state = State.waiting })
  status ← insert QueueId.waiting i
  need status
  switch
wait_finish i (collect c) = do
  child ← read_pcb c
  report i child.pid child.exit_status
  pcb_cleanup (some c)

unfoldable pub sys_waitpid : ℕ → M (Unit {0})
unfolding wait_search wait_finish
sys_waitpid i = do
  target ← arg i 1
  k ← get
  if target == (k.ptable i).pid
      then set_ret i (code Status.e_bad_param)
      else wait_finish i (wait_search i target k.ptable)

-- memcpy on whole words, between areas that do not overlap.
pub copy_words : ℕ → ℕ → ℕ → (ℕ → ℕ) → ℕ → ℕ
copy_words dst src len mem a =
    if leb dst a && ltb a (dst + len) then mem (src + (a - dst)) else mem a

abbrev pub address : Option ℕ → ℕ
address none = 0
address (some a) = a

-- The loop of sys_fork over the saved EBP chain, on fuel.
pub follow_ebp : ℕ → ℕ → ℕ → M (Unit {0})
follow_ebp offset zero bp = λ k. out_of_fuel
follow_ebp offset (suc fuel) bp = if bp == 0 then skip else do
  old ← read_word bp
  write_word bp ((old + offset) % 0x1_0000_0000)
  next ← read_word bp
  follow_ebp offset fuel next

-- `REG(new,x) += offset` if the register is not zero.
pub relocate : ℕ → ℕ → ℕ → M (Unit {0})
relocate new off offset = do
  p ← read_pcb new
  v ← read_word (reg p off)
  if v == 0 then skip else write_word (reg p off) ((v + offset) % 0x1_0000_0000)

-- A chain with more links than a stack has words is cut off.
abbrev pub ebp_fuel : ℕ
ebp_fuel = 2049

-- The child's stack and context: a copy of the parent's, moved by `offset`.
pub fork_stack : ℕ → ℕ → ℕ → M (Unit {0})
unfolding copy_words follow_ebp relocate
fork_stack i new stack = do
  p ← read_pcb i
  modify (λ k. record k {
    kmem = record (k.kmem) {
      mem = copy_words stack (address p.stack) (n_ustkpages * sz_page) k.kmem.mem;
    };
  })
  let offset = (stack + 0x1_0000_0000 - address p.stack) % 0x1_0000_0000
  write_pcb new (λ r. record r { context = (p.context + offset) % 0x1_0000_0000 })
  relocate new off_ebp offset
  relocate new off_esp offset
  c ← read_pcb new
  bp ← read_word (reg c off_ebp)
  follow_ebp offset ebp_fuel bp

-- The rest of sys_fork: identity, return values, and scheduling.
pub fork_finish : ℕ → ℕ → M (Unit {0})
fork_finish i new = do
  k ← get
  modify (λ s. record s { next_pid = (s.next_pid + 1) % 0x1_0000_0000 })
  write_pcb new (λ r. record r {
    pid = k.next_pid;
    parent = some i;
    state = State.new;
    priority = (k.ptable i).priority;
  })
  set_ret i k.next_pid
  set_ret new 0
  schedule new

pub fork_with : ℕ → ℕ → Option ℕ → M (Unit {0})
unfolding fork_stack fork_finish
fork_with i new none = pcb_free (some new) >> set_ret i (code Status.e_no_procs)
fork_with i new (some stack) = do
  write_pcb new (λ r. record r { stkpgs = n_ustkpages })
  fork_stack i new stack
  fork_finish i new

pub fork_new : ℕ → Option ℕ → M (Unit {0})
unfolding fork_with
fork_new i none = set_ret i (code Status.e_no_procs)
fork_new i (some new) = do
  stack ← pcb_stack_alloc n_ustkpages
  write_pcb new (λ r. record r { stack = stack })
  fork_with i new stack

pub sys_fork : ℕ → M (Unit {0})
unfolding fork_new
sys_fork i = do
  (status, new) ← pcb_alloc
  if is_success status then fork_new i new else set_ret i (code Status.e_no_procs)

unfoldable pub sys_getpid : ℕ → M (Unit {0})
sys_getpid i = do p ← read_pcb i; set_ret i p.pid

unfoldable pub sys_getppid : ℕ → M (Unit {0})
sys_getppid i = do p ← read_pcb i; parent ← deref p.parent; q ← read_pcb parent; set_ret i q.pid

unfoldable pub sys_gettime : ℕ → M (Unit {0})
sys_gettime i = do k ← get; set_ret i k.system_time

unfoldable pub sys_getprio : ℕ → M (Unit {0})
sys_getprio i = do p ← read_pcb i; set_ret i p.priority

unfoldable pub sys_setprio : ℕ → M (Unit {0})
sys_setprio i = do
  p ← read_pcb i
  new ← arg i 1
  write_pcb i (λ r. record r { priority = new })
  set_ret i p.priority

-- The calling process is killed and another one chosen.
pub kill_self : ℕ → M (Unit {0})
unfolding switch
kill_self i = do
  write_pcb i (λ p. record p { exit_status = exit_killed })
  pcb_zombify (some i)
  switch

-- The switch of sys_kill on the victim's state.
pub kill_victim : ℕ → ℕ → State → M (Unit {0})
unfolding kill_self
kill_victim i victim State.killed = set_ret i (code Status.success)
kill_victim i victim State.zombie = set_ret i (code Status.success)
kill_victim i victim State.ready =
    write_pcb victim (λ p. record p { state = State.killed }) >> set_ret i (code Status.success)
kill_victim i victim State.sleeping =
    write_pcb victim (λ p. record p { state = State.killed }) >> set_ret i (code Status.success)
kill_victim i victim State.blocked =
    write_pcb victim (λ p. record p { state = State.killed }) >> set_ret i (code Status.success)
kill_victim i victim State.running = kill_self i
kill_victim i victim State.waiting = do
  write_pcb victim (λ p. record p { exit_status = exit_killed })
  status ← remove_this QueueId.waiting victim
  pcb_zombify (some victim)
  set_ret i (code status)
kill_victim i victim State.unused = fail
kill_victim i victim State.new = fail

pub kill_found : ℕ → Option ℕ → M (Unit {0})
unfolding kill_victim
kill_found i none = set_ret i (code Status.e_not_found)
kill_found i (some victim) = do p ← read_pcb victim; kill_victim i victim p.state

pub sys_kill : ℕ → M (Unit {0})
unfolding kill_self kill_found
sys_kill i = do
  pid ← arg i 1
  k ← get
  if pid == (k.ptable i).pid
      then kill_self i
      else if ltb pid first_user_pid
      then set_ret i (code Status.e_failure)
      else kill_found i (pcb_find_pid pid k.ptable)

-- `if( pcb == current )` another process is dispatched.
unfoldable pub yield_if_current : ℕ → M (Unit {0})
unfolding switch
yield_if_current i = do k ← get; if ptr_eq k.current (some i) then switch else skip

-- sys_sleep when the PCB could not be queued.
unfoldable pub sleep_failed : ℕ → M (Unit {0})
sleep_failed i = do
  k ← get
  if ptr_eq k.current (some i) then set_ret i (0x1_0000_0000 - 1) else skip

unfoldable pub sys_sleep : ℕ → M (Unit {0})
unfolding yield_if_current sleep_failed
sys_sleep i = do
  length ← arg i 1
  k ← get
  if length == 0 then (do set_ret i 0; schedule i; yield_if_current i) else do
    write_pcb i (λ p. record p { wakeup = (k.system_time + length) % 0x1_0000_0000 })
    status ← insert QueueId.sleeping i
    if is_success status then yield_if_current i else sleep_failed i
