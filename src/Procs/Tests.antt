-- ===== src/Procs/Tests.antt =====
-- procs.c on a concrete kernel: its theorems applied.
use os.Base.{ℕ, ◌+◌, ◌*◌, refl, true, none, some, [], ◌∷◌, arith, ◌==◌, if◌then◌else◌}
use os.Pcb.{Table, State}
use os.Queue.{Queue, o_fifo, o_prio, o_pid, o_wakeup}
use os.Queue.Chain.{Holds}
use os.Kernel.{Kernel}
use os.Procs.{schedule, dispatch}
use os.Procs.Ready.{ReadyResult, DispatchResult, schedule_lem, dispatch_lem}

-- Slot 1 leads to slot 2, and slot 5 to slot 6; the parent of every process is slot 0.
abbrev pub processes : Table
processes i = record {
  context = 0x100 * i;
  stack = none;
  next = if i == 1 then some 2 else if i == 5 then some 6 else none;
  parent = some 0;
  wakeup = 0;
  exit_status = 0;
  pid = i + 1;
  state = if i == 1 then State.killed else State.running;
  priority = i;
  ticks = 0;
  stkpgs = 0;
}

abbrev pub of_two : ℕ → ℕ → ℕ → Queue
of_two a b order = record { head = some a; tail = some b; length = 2; order = order }

abbrev pub no_pcbs : ℕ → Queue
no_pcbs order = record { head = none; tail = none; length = 0; order = order }

-- Slots 1 and 2 are ready, slots 5 and 6 free. Every word of memory holds 9.
abbrev pub booted : Kernel
booted = record {
  ptable = processes;
  freelist = of_two 5 6 o_fifo;
  ready = of_two 1 2 o_prio;
  waiting = no_pcbs o_pid;
  sleeping = no_pcbs o_wakeup;
  zombie = no_pcbs o_pid;
  sioread = no_pcbs o_fifo;
  current = none;
  init_pcb = some 0;
  next_pid = 9;
  system_time = 100;
  pinwheel = 0;
  pindex = 0;
  kmem = record {
    free_pages = [];
    free_slices = [];
    n_pages = 0;
    n_slices = 0;
    initialized = true;
    mem = λ a. 9;
  };
}

pub booted-ready : Holds processes (of_two 1 2 o_prio) (1 ∷ 2 ∷ [])
booted-ready = record {
  chain = (refl, (refl, refl));
  distinct = (refl, (refl, tt));
  tail = refl;
  length = refl;
}

booted-freelist : Holds processes (of_two 5 6 o_fifo) (5 ∷ 6 ∷ [])
booted-freelist = record {
  chain = (refl, (refl, refl));
  distinct = (refl, (refl, tt));
  tail = refl;
  length = refl;
}

schedule_lem_example : ReadyResult booted 3 (1 ∷ 2 ∷ []) (schedule 3 booted)
schedule_lem_example = schedule_lem booted 3 (1 ∷ 2 ∷ []) booted-ready refl refl refl (omega arith)

dispatch_lem_example : DispatchResult booted (1 ∷ 2 ∷ []) (dispatch booted)
dispatch_lem_example = dispatch_lem booted (1 ∷ 2 ∷ []) booted-ready refl (omega arith)
