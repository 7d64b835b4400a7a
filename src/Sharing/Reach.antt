-- ===== src/Sharing/Reach.antt =====
-- The kernel as a state machine: clock interrupts and system calls, in any order.
use mathlib.Core.Path.{subst}
use os.Base.{sym, ◌∙◌, ℕ, ◌≡◌, false, some, ◌==◌, Outcome, ok, arith}
use os.Kernel.{Kernel, M}
use os.Syscalls.{
  sys_sleep, sys_waitpid, sys_getpid, sys_getprio, sys_setprio, sys_gettime, wait_search, Search,
}
use os.Clock.{clk_isr}
use os.Sharing.Running.{Running, Leads}
use os.Sharing.Events.{clk_isr-Running, set_ret-Running, sys_setprio-Running}
use os.Sharing.Blocking.{sys_sleep-Running, sys_waitpid-Running}

-- What can happen next: the clock's interrupt, or a call of the current process. The process `idle`
-- does not block, and sys_waitpid has no zombie to collect.
pub data Occurs (idle : ℕ) (k : Kernel) : M (Unit {0}) → Type 0 where
  clock : Occurs idle k clk_isr
  sleep : (i : ℕ) → k.current ≡ some i → (idle == i) ≡ false → Occurs idle k (sys_sleep i)
  waitpid :
      (i : ℕ)
      → k.current ≡ some i
      → (idle == i) ≡ false
      → ((target z : ℕ) → wait_search i target k.ptable ≡ Search.collect z → ⊥)
      → Occurs idle k (sys_waitpid i)
  getpid : (i : ℕ) → k.current ≡ some i → Occurs idle k (sys_getpid i)
  getprio : (i : ℕ) → k.current ≡ some i → Occurs idle k (sys_getprio i)
  setprio : (i : ℕ) → k.current ≡ some i → Occurs idle k (sys_setprio i)
  gettime : (i : ℕ) → k.current ≡ some i → Occurs idle k (sys_gettime i)

-- The states after any number of them.
pub data Reaches (idle : ℕ) : Kernel → Kernel → Type 0 where
  here : (k : Kernel) → Reaches idle k k
  after :
      {k k1 k2 : Kernel} (m : M (Unit {0}))
      → Occurs idle k m
      → m k ≡ ok (tt, k1)
      → Reaches idle k1 k2
      → Reaches idle k k2

some_eq : {a b : ℕ} → some a ≡ some b → a ≡ b
some_eq e = ground arith

at_process :
    (idle i : ℕ) (k : Kernel) (m : ℕ → M (Unit {0})) (r : Running idle k)
    → k.current ≡ some i
    → Leads (λ _. Running idle) (m r.process k)
    → Leads (λ _. Running idle) (m i k)
at_process idle i k m r e d =
    subst (λ c. Leads (λ _. Running idle) (m c k)) (some_eq (sym r.at.current ∙ e)) d

Occurs-Running :
    (idle : ℕ) (k : Kernel) (m : M (Unit {0}))
    → Running idle k
    → Occurs idle k m
    → Leads (λ _. Running idle) (m k)
unfolding sys_getpid sys_getprio sys_gettime
Occurs-Running idle k m r Occurs.clock = clk_isr-Running idle k r
Occurs-Running idle k m r (Occurs.sleep i e other) =
    let same = some_eq (sym e ∙ r.at.current) in
    at_process idle i k sys_sleep r e
      (sys_sleep-Running idle k r (subst (λ c. (idle == c) ≡ false) same other))
Occurs-Running idle k m r (Occurs.waitpid i e other nobody) =
    let same = some_eq (sym e ∙ r.at.current) in
    at_process idle i k sys_waitpid r e (
      sys_waitpid-Running idle k r (subst (λ c. (idle == c) ≡ false) same other) (
        subst (λ c. (target z : ℕ) → wait_search c target k.ptable ≡ Search.collect z → ⊥) same
          nobody))
Occurs-Running idle k m r (Occurs.getpid i e) = set_ret-Running idle i (k.ptable i).pid k r
Occurs-Running idle k m r (Occurs.getprio i e) = set_ret-Running idle i (k.ptable i).priority k r
Occurs-Running idle k m r (Occurs.setprio i e) = sys_setprio-Running idle i k r
Occurs-Running idle k m r (Occurs.gettime i e) = set_ret-Running idle i k.system_time k r

result_of :
    (idle : ℕ) (k : Kernel) (r : Outcome (Unit {0} × Kernel))
    → r ≡ ok (tt, k)
    → Leads (λ _. Running idle) r
    → Running idle k
result_of idle k r e d = subst (Leads (λ _. Running idle)) e d

pub Reaches-Running :
    (idle : ℕ) (k k' : Kernel) → Running idle k → Reaches idle k k' → Running idle k'
Reaches-Running idle k k' r (Reaches.here c) = r
Reaches-Running idle k k' r (Reaches.after {k1 = k1} m o e rest) =
    Reaches-Running idle k1 k' (result_of idle k1 (m k) e (Occurs-Running idle k m r o)) rest

-- From a kernel in which a process runs, no process is killed, `idle` is ready or running, and every
-- queue holds its own list in its own order, all lists disjoint and the running process in none,
-- let clock interrupts and calls of sys_sleep, sys_waitpid, sys_getpid, sys_getprio, sys_setprio and
-- sys_gettime by the current process follow one another in any number and order, where `idle` does
-- not block and sys_waitpid finds no zombie. Then every queue still does, and whatever of these
-- comes next returns, without a panic and within its fuel.
pub reachable-runs :
    (idle : ℕ) (k k' : Kernel) (m : M (Unit {0}))
    → Running idle k
    → Reaches idle k k'
    → Occurs idle k' m
    → Running idle k' × Leads (λ _. Running idle) (m k')
reachable-runs idle k k' m r path o =
    let r' = Reaches-Running idle k k' r path in (r', Occurs-Running idle k' m r' o)
