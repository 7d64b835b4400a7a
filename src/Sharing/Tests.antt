-- ===== src/Sharing/Tests.antt =====
-- A concrete kernel whose queues are in order: its theorems applied.
use mathlib.Core.Path.{subst}
use os.Base.{
  ℕ, ◌*◌, ◌+◌, ◌≡◌, refl, sym, ◌∙◌, ◌||◌, true, false, none, some, [], ◌∷◌, arith, has, ◌==◌,
  if◌then◌else◌,
}
use os.Pcb.{Table, State}
use os.Queue.{Queue, o_fifo, o_prio, o_pid, o_wakeup}
use os.Queue.Chain.{Holds}
use os.Kernel.{Kernel, QueueId, queue, set_ret}
use os.Syscalls.{sys_sleep, sys_gettime}
use os.Sharing.{Lists, index, same, order_of}
use os.Sharing.Running.{Running, Leads}
use os.Sharing.Reach.{Occurs, Reaches, reachable-runs}

-- Slot 2 leads to slot 0, and slot 5 to slot 6.
abbrev processes : Table
processes i = record {
  context = 0x100 * i;
  stack = none;
  next = if i == 2 then some 0 else if i == 5 then some 6 else none;
  parent = some 0;
  wakeup = 101;
  exit_status = 0;
  pid = i + 1;
  state = State.ready;
  priority = 7;
  ticks = 1;
  stkpgs = 0;
}

abbrev of_two : ℕ → ℕ → ℕ → Queue
of_two a b order = record { head = some a; tail = some b; length = 2; order = order }

abbrev no_pcbs : ℕ → Queue
no_pcbs order = record { head = none; tail = none; length = 0; order = order }

-- Slot 1 runs, 2 and 0 are ready, 3 sleeps, 4 waits for input, 5 and 6 are free. Every word of memory holds 9.
abbrev pub multitasking : Kernel
multitasking = record {
  ptable = processes;
  freelist = of_two 5 6 o_fifo;
  ready = of_two 2 0 o_prio;
  waiting = no_pcbs o_pid;
  sleeping = record { head = some 3; tail = some 3; length = 1; order = o_wakeup };
  zombie = no_pcbs o_pid;
  sioread = record { head = some 4; tail = some 4; length = 1; order = o_fifo };
  current = some 1;
  init_pcb = some 0;
  next_pid = 9;
  system_time = 100;
  pinwheel = 0;
  pindex = 0;
  kmem = record {
    free_pages = [];
    free_slices = [];
    n_pages = 0;
    n_slices = 0;
    initialized = true;
    mem = λ a. 9;
  };
}

abbrev lists : Lists
lists QueueId.pcb_freelist = 5 ∷ 6 ∷ []
lists QueueId.ready = 2 ∷ 0 ∷ []
lists QueueId.waiting = []
lists QueueId.sleeping = 3 ∷ []
lists QueueId.zombie = []
lists QueueId.sioread = 4 ∷ []

pub Holds-all : (id : QueueId) → Holds processes (queue id multitasking) (lists id)
Holds-all QueueId.pcb_freelist = record {
  chain = (refl, (refl, refl));
  distinct = (refl, (refl, tt));
  tail = refl;
  length = refl;
}
Holds-all QueueId.ready = record {
  chain = (refl, (refl, refl));
  distinct = (refl, (refl, tt));
  tail = refl;
  length = refl;
}
Holds-all QueueId.waiting = record { chain = refl; distinct = tt; tail = refl; length = refl }
Holds-all QueueId.sleeping = record {
  chain = (refl, refl);
  distinct = (refl, tt);
  tail = refl;
  length = refl;
}
Holds-all QueueId.zombie = record { chain = refl; distinct = tt; tail = refl; length = refl }
Holds-all QueueId.sioread = record {
  chain = (refl, refl);
  distinct = (refl, tt);
  tail = refl;
  length = refl;
}

orders : (id : QueueId) → (queue id multitasking).order ≡ order_of id
orders QueueId.pcb_freelist = refl
orders QueueId.ready = refl
orders QueueId.waiting = refl
orders QueueId.sleeping = refl
orders QueueId.zombie = refl
orders QueueId.sioread = refl

-- The queue of each PCB that is in one.
abbrev owner : ℕ → ℕ
owner j =
    if (j == 5) || (j == 6) then 0 else if (j == 2) || (j == 0) then 1 else if j == 4 then 5 else 3

owned : (id : QueueId) (j : ℕ) → has j (lists id) ≡ true → owner j ≡ index id
owned QueueId.pcb_freelist j e = ground arith
owned QueueId.ready j e = ground arith
owned QueueId.waiting j e = ground arith
owned QueueId.sleeping j e = ground arith
owned QueueId.zombie j e = ground arith
owned QueueId.sioread j e = ground arith

apart_all :
    (a b : QueueId) (j : ℕ) → has j (lists a) ≡ true → has j (lists b) ≡ true → same a b ≡ true
apart_all a b j x y = let e : index a ≡ index b = sym (owned a j x) ∙ owned b j y in ground arith

outside_all : (id : QueueId) → has 1 (lists id) ≡ false
outside_all QueueId.pcb_freelist = refl
outside_all QueueId.ready = refl
outside_all QueueId.waiting = refl
outside_all QueueId.sleeping = refl
outside_all QueueId.zombie = refl
outside_all QueueId.sioread = refl

first_only : (j : ℕ) → has j (1 ∷ []) ≡ true → 1 ≡ j
first_only j e = ground arith

pub multitasking-Running : Running 0 multitasking
multitasking-Running = record {
  process = 1;
  nap = 1;
  at = record {
    all = lists;
    layout = record {
      holds = Holds-all;
      order = orders;
      apart = apart_all;
      outside =
          λ j free id. subst (λ c. has c (lists id) ≡ false) (first_only j free) (outside_all id);
      detached = λ j free. subst (λ c. (processes c).next ≡ none) (first_only j free) refl;
      distinct = (refl, tt);
      few = omega arith;
    };
    live = λ j. refl;
    sleepers = refl;
    idles = refl;
    current = refl;
  };
}

-- The current process has asked for the time.
abbrev told : Kernel
told = record multitasking {
  kmem = record (multitasking.kmem) { mem = λ a. if a == 0x130 then 100 else 9 };
}

told-Reaches : Reaches 0 multitasking told
unfolding sys_gettime set_ret
told-Reaches = Reaches.after (sys_gettime 1) (Occurs.gettime 1 refl) refl (Reaches.here told)

reachable-runs_example : Running 0 told × Leads (λ _. Running 0) (sys_sleep 1 told)
reachable-runs_example =
    reachable-runs 0 multitasking told (sys_sleep 1) multitasking-Running told-Reaches
      (Occurs.sleep 1 refl refl)
