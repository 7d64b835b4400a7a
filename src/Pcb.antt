-- ===== src/Pcb.antt =====
-- include/procs.h and include/defs.h: process control blocks, the process table, status codes.
--
-- A pointer to a PCB is the index of its slot in the process table, and `none` is NULL.
use os.Base.{ℕ, ◌-◌, Bool, true, false, Option, none, some, ◌==◌, if◌then◌else◌}

-- enum state_e
pub data State : Type 0 where
  unused new ready running sleeping blocked waiting killed zombie : State

abbrev pub is_unused : State → Bool
is_unused State.unused = true
is_unused _ = false

abbrev pub is_waiting : State → Bool
is_waiting State.waiting = true
is_waiting _ = false

abbrev pub is_killed : State → Bool
is_killed State.killed = true
is_killed _ = false

abbrev pub is_zombie : State → Bool
is_zombie State.zombie = true
is_zombie _ = false

-- struct pcb_s. `context` and `stack` are addresses, and a NULL `stack` is `none`. The exit status
-- is the bit pattern of its int32_t.
pub record Pcb : Type 0 where
  pub context : ℕ
  pub stack : Option ℕ
  pub next : Option ℕ
  pub parent : Option ℕ
  pub wakeup : ℕ
  pub exit_status : ℕ
  pub pid : ℕ
  pub state : State
  pub priority : ℕ
  pub ticks : ℕ
  pub stkpgs : ℕ

abbrev pub n_procs : ℕ
n_procs = 25

-- ptable: the slots 0 up to `n_procs` are those of the source.
abbrev pub Table : Type 0
Table = ℕ → Pcb

-- A write to the slot `i`.
unfoldable pub update : Table → ℕ → Pcb → Table
update t i p j = if j == i then p else t j

-- `ptable[i].next = n`
unfoldable pub set_next : Table → ℕ → Option ℕ → Table
unfolding update
set_next t i n = update t i (record (t i) { next = n })

abbrev pub is_some {ℓ} : {A : Type ℓ} → Option A → Bool
is_some none = false
is_some (some _) = true

abbrev pub ptr_eq : Option ℕ → Option ℕ → Bool
ptr_eq none none = true
ptr_eq (some i) (some j) = i == j
ptr_eq _ _ = false

-- The status codes of defs.h that the kernel's functions return.
pub data Status : Type 0 where
  success e_failure e_bad_param e_bad_chan e_no_children e_no_memory e_not_found e_no_procs : Status
  e_empty_queue e_no_pcbs : Status

abbrev pub is_success : Status → Bool
is_success Status.success = true
is_success _ = false

-- The bit pattern of a status as an int32_t.
abbrev pub code : Status → ℕ
code Status.success = 0
code Status.e_failure = 0x1_0000_0000 - 1
code Status.e_bad_param = 0x1_0000_0000 - 2
code Status.e_bad_chan = 0x1_0000_0000 - 3
code Status.e_no_children = 0x1_0000_0000 - 4
code Status.e_no_memory = 0x1_0000_0000 - 5
code Status.e_not_found = 0x1_0000_0000 - 6
code Status.e_no_procs = 0x1_0000_0000 - 7
code Status.e_empty_queue = 0x1_0000_0000 - 100
code Status.e_no_pcbs = 0x1_0000_0000 - 101
