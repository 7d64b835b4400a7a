-- ===== src/Kernel.antt =====
-- The kernel's shared state: the globals of procs.c, kmem.c and clock.c, the memory that holds the
-- process contexts, and commands over it.
use os.Base.{
  ℕ, ◌+◌, ◌*◌, ◌%◌, Bool, true, false, Option, none, some, Outcome, ok, panic, out_of_fuel, ◌==◌,
  if◌then◌else◌,
}
use os.Kmem.{Kmem}
use os.Pcb.{Pcb, Table, Status, update}
use os.Queue.{Queue, pcb_queue_insert, pcb_queue_remove, pcb_queue_remove_this}

-- The queue handles of procs.c.
pub data QueueId : Type 0 where
  pcb_freelist ready waiting sleeping zombie sioread : QueueId

pub record Kernel : Type 0 where
  pub ptable : Table
  pub freelist : Queue
  pub ready : Queue
  pub waiting : Queue
  pub sleeping : Queue
  pub zombie : Queue
  pub sioread : Queue
  pub current : Option ℕ
  pub init_pcb : Option ℕ
  pub next_pid : ℕ
  pub system_time : ℕ
  pub pinwheel : ℕ
  pub pindex : ℕ
  pub kmem : Kmem

abbrev pub queue : QueueId → Kernel → Queue
queue QueueId.pcb_freelist k = k.freelist
queue QueueId.ready k = k.ready
queue QueueId.waiting k = k.waiting
queue QueueId.sleeping k = k.sleeping
queue QueueId.zombie k = k.zombie
queue QueueId.sioread k = k.sioread

abbrev pub set_queue : QueueId → Queue → Kernel → Kernel
set_queue QueueId.pcb_freelist q k = record k { freelist = q }
set_queue QueueId.ready q k = record k { ready = q }
set_queue QueueId.waiting q k = record k { waiting = q }
set_queue QueueId.sleeping q k = record k { sleeping = q }
set_queue QueueId.zombie q k = record k { zombie = q }
set_queue QueueId.sioread q k = record k { sioread = q }

-- A command: the outcome of kernel code that runs from a state.
abbrev pub M : Type 0 → Type 0
M A = Kernel → Outcome (A × Kernel)

abbrev pub and_then : {A B : Type 0} → Outcome (A × Kernel) → (A → M B) → Outcome (B × Kernel)
and_then (ok (a, k)) f = f a k
and_then panic f = panic
and_then out_of_fuel f = out_of_fuel

infixl 5 ◌>>=◌ ◌>>◌
abbrev pub ◌>>=◌ : {A B : Type 0} → M A → (A → M B) → M B
◌>>=◌ m f k = and_then (m k) f

abbrev pub ◌>>◌ : {A B : Type 0} → M A → M B → M B
◌>>◌ m n k = and_then (m k) (λ _. n)

abbrev pub pure : {A : Type 0} → A → M A
pure a k = ok (a, k)

abbrev pub skip : M (Unit {0})
skip k = ok (tt, k)

abbrev pub fail : {A : Type 0} → M A
fail k = panic

abbrev pub assert : Bool → M (Unit {0})
assert true = skip
assert false = fail

abbrev pub get : M Kernel
get k = ok (k, k)

abbrev pub modify : (Kernel → Kernel) → M (Unit {0})
modify f k = ok (tt, f k)

-- A pointer that the code follows; the kernel faults on NULL.
abbrev pub deref : Option ℕ → M ℕ
deref none = fail
deref (some i) = pure i

abbrev pub read_pcb : ℕ → M Pcb
read_pcb i k = ok (k.ptable i, k)

-- A write to fields of the PCB `i`.
abbrev pub write_pcb : ℕ → (Pcb → Pcb) → M (Unit {0})
write_pcb i f k = ok (tt, record k { ptable = update k.ptable i (f (k.ptable i)) })

-- The word at an address, and a write to it.
abbrev pub read_word : ℕ → M ℕ
read_word a k = ok (k.kmem.mem a, k)

abbrev pub write_mem : (ℕ → ℕ) → ℕ → ℕ → ℕ → ℕ
write_mem mem a v b = if b == a then v else mem b

abbrev pub write_word : ℕ → ℕ → M (Unit {0})
write_word a v k = ok (tt, record k { kmem = record (k.kmem) { mem = write_mem k.kmem.mem a v } })

-- The offsets of include/procs.h's context_t, and its size.
abbrev pub off_ebp : ℕ
off_ebp = 28

abbrev pub off_esp : ℕ
off_esp = 32

abbrev pub off_eax : ℕ
off_eax = 48

abbrev pub sz_context : ℕ
sz_context = 72

-- REG(pcb,x), by the register's offset.
abbrev pub reg : Pcb → ℕ → ℕ
reg p off = (p.context + off) % 0x1_0000_0000

-- ARG(pcb,n)
unfoldable pub arg : ℕ → ℕ → M ℕ
arg i n k = ok (k.kmem.mem (((k.ptable i).context + sz_context + 4 * n) % 0x1_0000_0000), k)

-- RET(pcb) = v
unfoldable pub set_ret : ℕ → ℕ → M (Unit {0})
set_ret i v k = write_word (reg (k.ptable i) off_eax) v k

-- The queue operations of procs.c on the queue of a handle.
unfoldable pub lift_queue :
    QueueId → Kernel → Outcome (Status × Table × Queue) → Outcome (Status × Kernel)
lift_queue id k (ok (s, t, q)) = ok (s, set_queue id q (record k { ptable = t }))
lift_queue id k panic = panic
lift_queue id k out_of_fuel = out_of_fuel

unfoldable pub insert : QueueId → ℕ → M Status
unfolding lift_queue
insert id i k = lift_queue id k (pcb_queue_insert k.ptable (queue id k) i)

unfoldable pub remove_this : QueueId → ℕ → M Status
unfolding lift_queue
remove_this id i k = lift_queue id k (pcb_queue_remove_this k.ptable (queue id k) i)

unfoldable pub remove : QueueId → M (Status × Option ℕ)
remove id k =
    let (s, got, t, q) = pcb_queue_remove k.ptable (queue id k) in
    ok ((s, got), set_queue id q (record k { ptable = t }))
