-- ===== src/Sharing.antt =====
-- The queues of procs.c together: six queues that share the `next` fields of one process table.
pub mod Blocking
pub mod Calls
pub mod Events
pub mod Moves
pub mod Reach
pub mod Running
pub mod Tests
pub mod Waking
use os.Base.{
  ℕ, ◌+◌, ◌≤◌, ◌<◌, ◌≡◌, refl, Bool, true, false, Option, none, some, List, [], ◌∷◌, arith, length,
  has, ◌==◌, if◌then◌else◌, Outcome, ok, panic, out_of_fuel,
}
use os.Pcb.{Pcb, Table, n_procs}
use os.Queue.{Queue, o_fifo, o_prio, o_pid, o_wakeup}
use os.Queue.Chain.{Holds, Distinct}
use os.Kernel.{Kernel, QueueId, queue, set_queue}

abbrev pub index : QueueId → ℕ
index QueueId.pcb_freelist = 0
index QueueId.ready = 1
index QueueId.waiting = 2
index QueueId.sleeping = 3
index QueueId.zombie = 4
index QueueId.sioread = 5

abbrev pub same : QueueId → QueueId → Bool
same a b = index a == index b

-- The PCBs in each queue.
abbrev pub Lists : Type 0
Lists = QueueId → List ℕ

abbrev pub put : QueueId → List ℕ → Lists → Lists
put id xs all other = if same id other then xs else all other

abbrev pub total : Lists → ℕ
total all =
    length (all QueueId.pcb_freelist)
    + length (all QueueId.ready)
    + length (all QueueId.waiting)
    + length (all QueueId.sleeping)
    + length (all QueueId.zombie)
    + length (all QueueId.sioread)

-- The order that pcb_init gives each queue.
abbrev pub order_of : QueueId → ℕ
order_of QueueId.pcb_freelist = o_fifo
order_of QueueId.ready = o_prio
order_of QueueId.waiting = o_pid
order_of QueueId.sleeping = o_wakeup
order_of QueueId.zombie = o_pid
order_of QueueId.sioread = o_fifo

-- Each PCB is in one queue at most, and those of `loose` are in none. A PCB that is in no queue has
-- no successor. The queues and `loose` have no more PCBs than the table.
pub record Layout (k : Kernel) (all : Lists) (loose : List ℕ) : Type 0 where
  pub holds : (id : QueueId) → Holds k.ptable (queue id k) (all id)
  pub order : (id : QueueId) → (queue id k).order ≡ order_of id
  pub apart :
      (a b : QueueId) (j : ℕ) → has j (all a) ≡ true → has j (all b) ≡ true → same a b ≡ true
  pub outside : (j : ℕ) → has j loose ≡ true → (id : QueueId) → has j (all id) ≡ false
  pub detached : (j : ℕ) → has j loose ≡ true → (k.ptable j).next ≡ none
  pub distinct : Distinct loose
  pub few : total all + length loose ≤ n_procs
