-- ===== src/Queue.antt =====
-- procs.c: the PCB queues, on the `next` pointers of the process table.
--
-- An operation takes the table and the queue and returns them changed. A search loop runs on fuel,
-- one round more than the queue's length field; it runs out only on a queue whose chain is longer
-- than that field says.
pub mod Chain
pub mod Insert
pub mod Order
pub mod Remove
pub mod Search
mod Tests
pub mod Unlink
use os.Base.{
  ℕ, zero, suc, ◌+◌, ◌-◌, ◌%◌, Bool, true, false, not, Option, none, some, Outcome, ok, panic,
  out_of_fuel, ◌>>=◌, ◌>>◌, assert, ltb, leb, ◌==◌, if◌then◌else◌,
}
use os.Pcb.{Pcb, Table, set_next, is_some, ptr_eq, Status}

-- struct pcb_queue_s
pub record Queue : Type 0 where
  pub head : Option ℕ
  pub tail : Option ℕ
  pub length : ℕ
  pub order : ℕ

-- enum pcb_queue_order_e
abbrev pub o_fifo : ℕ
o_fifo = 0

abbrev pub o_prio : ℕ
o_prio = 1

abbrev pub o_pid : ℕ
o_pid = 2

abbrev pub o_wakeup : ℕ
o_wakeup = 3

unfoldable pub pcb_queue_reset : Queue → ℕ → Status × Queue
pcb_queue_reset q style =
    if ltb o_wakeup style
    then (Status.e_bad_param, q)
    else (Status.success, record { head = none; tail = none; length = 0; order = style })

unfoldable pub pcb_queue_empty : Queue → Bool
pcb_queue_empty q = not (is_some q.head)

unfoldable pub pcb_queue_length : Queue → ℕ
pcb_queue_length q = q.length

unfoldable pub pcb_queue_peek : Queue → Option ℕ
pcb_queue_peek q = q.head

-- The loop that the three search functions share: the last entry, from `curr` on, before the first
-- whose key is greater than `v`; `prev` if there is none.
pub find_prev : (Pcb → ℕ) → Table → ℕ → ℕ → Option ℕ → Option ℕ → Outcome (Option ℕ)
find_prev key t v zero prev curr = out_of_fuel
find_prev key t v (suc fuel) prev none = ok prev
find_prev key t v (suc fuel) prev (some c) = elim (leb (key (t c)) v) [
  | true ↦ find_prev key t v fuel (some c) (t c).next
  | false ↦ ok prev
]

abbrev pub wakeup_of : Pcb → ℕ
wakeup_of p = p.wakeup

abbrev pub priority_of : Pcb → ℕ
priority_of p = p.priority

abbrev pub pid_of : Pcb → ℕ
pid_of p = p.pid

pub find_prev_wakeup : Table → Queue → ℕ → Outcome (Option ℕ)
unfolding find_prev
find_prev_wakeup t q i = find_prev wakeup_of t (t i).wakeup (q.length + 1) none q.head

pub find_prev_priority : Table → Queue → ℕ → Outcome (Option ℕ)
unfolding find_prev
find_prev_priority t q i = find_prev priority_of t (t i).priority (q.length + 1) none q.head

pub find_prev_pid : Table → Queue → ℕ → Outcome (Option ℕ)
unfolding find_prev
find_prev_pid t q i = find_prev pid_of t (t i).pid (q.length + 1) none q.head

abbrev found : Outcome (Option ℕ) → Outcome (Option (Option ℕ))
found m = m >>= λ p. ok (some p)

-- The switch of pcb_queue_insert; `none` is its default case.
pub predecessor : Table → Queue → ℕ → Outcome (Option (Option ℕ))
unfolding find_prev_wakeup find_prev_priority find_prev_pid
predecessor t q i =
    if q.order == o_fifo
    then ok (some q.tail)
    else if q.order == o_prio
    then found (find_prev_priority t q i)
    else if q.order == o_pid
    then found (find_prev_pid t q i)
    else if q.order == o_wakeup
    then found (find_prev_wakeup t q i)
    else ok none

-- The last part of pcb_queue_insert, behind the predecessor found.
pub link : Table → Queue → ℕ → Option ℕ → Table × Queue
link t q i none = (
  set_next t i q.head,
  record q {
    head = some i;
    tail = if is_some q.head then q.tail else some i;
    length = (q.length + 1) % 0x1_0000_0000;
  },
)
link t q i (some p) =
    if not (is_some (t p).next)
    then (
      set_next t p (some i),
      record q { tail = some i; length = (q.length + 1) % 0x1_0000_0000 },
    )
    else (
      set_next (set_next t i (t p).next) p (some i),
      record q { length = (q.length + 1) % 0x1_0000_0000 },
    )

pub insert_behind : Table → Queue → ℕ → Option (Option ℕ) → Status × Table × Queue
unfolding link
insert_behind t q i none = (Status.e_bad_param, t, q)
insert_behind t q i (some prev) = let (t', q') = link t q i prev in (Status.success, t', q')

pub pcb_queue_insert : Table → Queue → ℕ → Outcome (Status × Table × Queue)
pcb_queue_insert t q i =
    if is_some (t i).next
    then ok (Status.e_bad_param, t, q)
    else if not (is_some q.head)
    then ok (Status.success, t, record q { head = some i; tail = some i; length = 1 })
    else do assert (is_some q.tail); prev ← predecessor t q i; ok (insert_behind t q i prev)

-- Taking the head `i` off: the queue when its successor is `rest`.
pub behead : Queue → Option ℕ → Queue
behead q none = record q { head = none; tail = none; length = 0 }
behead q (some n) = record q { head = some n; length = (q.length + 0xffff_ffff) % 0x1_0000_0000 }

pub remove_from : Table → Queue → Option ℕ → Status × Option ℕ × Table × Queue
unfolding behead
remove_from t q none = (Status.e_empty_queue, none, t, q)
remove_from t q (some i) = (Status.success, some i, set_next t i none, behead q (t i).next)

-- The second component is what is stored through the pointer argument.
pub pcb_queue_remove : Table → Queue → Status × Option ℕ × Table × Queue
pcb_queue_remove t q = remove_from t q q.head

-- The loop of pcb_queue_remove_this: the predecessor, and the entry `i` or NULL.
pub search_this : Table → ℕ → ℕ → Option ℕ → Option ℕ → Outcome (Option ℕ × Option ℕ)
search_this t i zero prev curr = out_of_fuel
search_this t i (suc fuel) prev none = ok (prev, none)
search_this t i (suc fuel) prev (some c) = elim (c == i) [
  | true ↦ ok (prev, some c)
  | false ↦ search_this t i fuel (some c) (t c).next
]

-- Taking `curr` out, behind `prev`.
pub unlink : Table → Queue → Option ℕ → ℕ → Table × Queue
unlink t q none curr = (
  set_next t curr none,
  record q {
    head = (t curr).next;
    tail = if is_some (t curr).next then q.tail else none;
    length = (q.length + 0xffff_ffff) % 0x1_0000_0000;
  },
)
unlink t q (some p) curr = (
  set_next (set_next t p (t curr).next) curr none,
  record q {
    tail = if is_some (set_next t p (t curr).next curr).next then q.tail else some p;
    length = (q.length + 0xffff_ffff) % 0x1_0000_0000;
  },
)

pub unlink_found : Table → Queue → Option ℕ × Option ℕ → Outcome (Status × Table × Queue)
unfolding unlink
unlink_found t q (none, none) = panic
unlink_found t q (some p, none) = ok (Status.e_not_found, t, q)
unlink_found t q (prev, some curr) =
    let (t', q') = unlink t q prev curr in
    assert (if is_some q'.head then is_some q'.tail else not (is_some q'.tail))
    >> ok (Status.success, t', q')

pub pcb_queue_remove_this : Table → Queue → ℕ → Outcome (Status × Table × Queue)
pcb_queue_remove_this t q i =
    if not (is_some q.head)
    then ok (Status.e_empty_queue, t, q)
    else search_this t i (q.length + 1) none q.head >>= unlink_found t q
