-- ===== src/Sharing/Blocking.antt =====
-- syscalls.c: the calls that take the calling process off the processor, sys_sleep and sys_waitpid.
use os.Base.{
  ℕ, ◌+◌, ◌≡◌, refl, true, false, some, [], ◌∷◌, ◌==◌, if◌then◌else◌, ◌%◌, Bool-cases, inl, inr,
  arith,
}
use os.Pcb.{Pcb, State, Status, update, is_success, ptr_eq, code}
use os.Kernel.{Kernel, QueueId, ◌>>◌, insert, arg, set_ret}
use os.Procs.{need, schedule}
use os.Syscalls.{
  switch, sys_sleep, yield_if_current, sleep_failed, sys_waitpid, wait_search, wait_finish, Search,
}
use os.Sharing.Running.{
  At, Running, Leads, Leads-and_then, At-update, At-insert, Inserts, schedule-At, switch-At,
}
use os.Sharing.Events.{set_ret-At, set_ret-Running}

-- The current process has gone into a queue, and another one is chosen.
yield_if_current-At :
    (idle c nap : ℕ) (k : Kernel)
    → At idle (some c) nap [] k
    → Leads (λ _. Running idle) (yield_if_current c k)
unfolding yield_if_current
yield_if_current-At idle c nap k a =
    let e : ptr_eq k.current (some c) ≡ true = rw a.current (ground arith) in
    rw e (switch-At idle (some c) nap k a)

slept_from :
    (idle c nap : ℕ) (k k' : Kernel) (s : Status)
    → Inserts idle (some c) nap [] k QueueId.sleeping s k'
    → Leads (λ _. Running idle) ((if is_success s then yield_if_current c else sleep_failed c) k')
slept_from idle c nap k k' s (e, a) = rw e (yield_if_current-At idle c (nap + 1) k' a)

-- sys_sleep by a process other than `idle`.
pub sys_sleep-Running :
    (idle : ℕ) (k : Kernel) (r : Running idle k)
    → (idle == r.process) ≡ false
    → Leads (λ _. Running idle) (sys_sleep r.process k)
unfolding sys_sleep arg
sys_sleep-Running idle k r other =
    let c = r.process in
    let length = k.kmem.mem (((k.ptable c).context + 72 + 4) % 0x1_0000_0000) in
    let p : Pcb = record (k.ptable c) { wakeup = (k.system_time + length) % 0x1_0000_0000 } in
    let k1 : Kernel = record k { ptable = update k.ptable c p } in
    elim (Bool-cases (length == 0)) [
      | inl at_once ↦ rw at_once (
          Leads-and_then (λ _. At idle (some c) r.nap (c ∷ [])) (λ _. Running idle) (set_ret c 0 k)
            (λ _. schedule c >> yield_if_current c)
            (set_ret-At idle (some c) r.nap (c ∷ []) c 0 k r.at)
            (λ u k2 a.
              Leads-and_then (λ _. At idle (some c) r.nap []) (λ _. Running idle) (schedule c k2)
                (λ _. yield_if_current c) (schedule-At idle (some c) r.nap [] k2 c a)
                (λ v k3 b. yield_if_current-At idle c r.nap k3 b)))
      | inr later ↦ rw later (
          Leads-and_then (Inserts idle (some c) r.nap [] k1 QueueId.sleeping) (λ _. Running idle)
            (insert QueueId.sleeping c k1) _
            (At-insert idle (some c) r.nap [] k1 QueueId.sleeping c
              (At-update idle (some c) r.nap (c ∷ []) k c p r.at refl (r.at.live c)) (rw other))
            (λ s k2 d. slept_from idle c r.nap k1 k2 s d))
    ]

waits_from :
    (idle c nap : ℕ) (k k' : Kernel) (s : Status)
    → Inserts idle (some c) nap [] k QueueId.waiting s k'
    → Leads (λ _. Running idle) ((need s >> switch) k')
waits_from idle c nap k k' s (e, a) = rw e (switch-At idle (some c) nap k' a)

wait_finish-Running :
    (idle : ℕ) (k : Kernel) (r : Running idle k) (found : Search)
    → (idle == r.process) ≡ false
    → ((z : ℕ) → found ≡ Search.collect z → ⊥)
    → Leads (λ _. Running idle) (wait_finish r.process found k)
unfolding wait_finish
wait_finish-Running idle k r (Search.refused s) other nobody =
    set_ret-Running idle r.process (code s) k r
wait_finish-Running idle k r (Search.collect z) other nobody = absurd (nobody z refl)
wait_finish-Running idle k r Search.block other nobody =
    let c = r.process in
    let p : Pcb = record (k.ptable c) { state = State.waiting } in
    let k1 : Kernel = record k { ptable = update k.ptable c p } in
    Leads-and_then (Inserts idle (some c) r.nap [] k1 QueueId.waiting) (λ _. Running idle)
      (insert QueueId.waiting c k1) _
      (At-insert idle (some c) r.nap [] k1 QueueId.waiting c
        (At-update idle (some c) r.nap (c ∷ []) k c p r.at refl refl) (rw other))
      (λ s k2 d. waits_from idle c r.nap k1 k2 s d)

-- sys_waitpid by a process other than `idle` that has no zombie to collect.
pub sys_waitpid-Running :
    (idle : ℕ) (k : Kernel) (r : Running idle k)
    → (idle == r.process) ≡ false
    → ((target z : ℕ) → wait_search r.process target k.ptable ≡ Search.collect z → ⊥)
    → Leads (λ _. Running idle) (sys_waitpid r.process k)
unfolding sys_waitpid arg
sys_waitpid-Running idle k r other nobody =
    let c = r.process in
    let target = k.kmem.mem (((k.ptable c).context + 72 + 4) % 0x1_0000_0000) in
    elim (Bool-cases (target == (k.ptable c).pid)) [
      | inl own ↦ rw own (set_ret-Running idle c (code Status.e_bad_param) k r)
      | inr ne ↦
          rw ne (wait_finish-Running idle k r (wait_search c target k.ptable) other (nobody target))
    ]
