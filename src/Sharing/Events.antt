-- ===== src/Sharing/Events.antt =====
-- clock.c's interrupt and the process system calls, on a kernel whose queues are all in order.
use mathlib.Core.Path.{subst}
use os.Base.{
  ap, ℕ, zero, ◌+◌, suc, ◌<◌, ◌≡◌, refl, Option, some, List, [], ◌∷◌, arith, length, ltb, ◌==◌,
  Bool-cases, inl, inr, Outcome, ◌%◌,
}
use os.Pcb.{Pcb, Status, update}
use os.Queue.{pcb_queue_empty, pcb_queue_peek, pcb_queue_length}
use os.Queue.Chain.{Holds}
use os.Kernel.{Kernel, QueueId, M, ◌>>=◌, ◌>>◌, deref, remove, arg, set_ret}
use os.Procs.{need, schedule}
use os.Syscalls.{switch, sys_setprio}
use os.Clock.{spin, wake_loop, tick, clk_isr}
use os.Sharing.Running.{
  At, Running, Leads, Leads-and_then, At-rest, At-scalars, At-update, At-remove, Takes, schedule-At,
  switch-At,
}

-- A state with some number of sleepers.
abbrev pub Wakes : ℕ → Option ℕ → List ℕ → Outcome (Unit {0} × Kernel) → Type 0
Wakes idle cur loose = Leads (λ _ k'. (n : ℕ) × At idle cur n loose k')

-- One process is taken off the sleep queue and made ready; then the loop goes on.
round-At :
    (idle : ℕ) (cur : Option ℕ) (nap : ℕ) (loose : List ℕ) (x : ℕ) (s : Status) (got : Option ℕ)
    (k : Kernel) (rest : M (Unit {0}))
    → Takes idle cur nap loose x (s, got) k
    → ((k' : Kernel) → At idle cur nap loose k' → Wakes idle cur loose (rest k'))
    → Wakes idle cur loose ((need s >> (deref got >>= λ first. schedule first >> rest)) k)
round-At idle cur nap loose x s got k rest (e, g, a) go =
    simp (e, g)
      (Leads-and_then (λ _. At idle cur nap loose) (λ _ k'. (n : ℕ) × At idle cur n loose k')
        (schedule x k) (λ _. rest) (schedule-At idle cur nap loose k x a) (λ u k' d. go k' d))

wake_loop-At :
    (idle : ℕ) (cur : Option ℕ) (loose : List ℕ) (fuel nap : ℕ) (k : Kernel)
    → At idle cur nap loose k
    → nap < fuel
    → Wakes idle cur loose (wake_loop fuel k)
unfolding wake_loop pcb_queue_empty pcb_queue_peek
wake_loop-At idle cur loose zero nap k a enough = absurd (omega arith)
wake_loop-At idle cur loose (suc fuel) nap k a enough =
    with_sleepers (a.all QueueId.sleeping) refl
      (λ n k2 b e. wake_loop-At idle cur loose fuel n k2 b e)
  where
    head_of : (xs : List ℕ) → a.all QueueId.sleeping ≡ xs → Holds k.ptable k.sleeping xs
    head_of xs e = subst (Holds k.ptable k.sleeping) e (a.layout.holds QueueId.sleeping)

    with_sleepers :
        (xs : List ℕ)
        → a.all QueueId.sleeping ≡ xs
        → ((n : ℕ) (k2 : Kernel)
            → At idle cur n loose k2
            → n < fuel
            → Wakes idle cur loose (wake_loop fuel k2))
        → Wakes idle cur loose (wake_loop (suc fuel) k)
    with_sleepers [] e again = simp (head_of [] e).chain (nap, a)
    with_sleepers (x ∷ xs) e again =
        simp (head_of (x ∷ xs) e).chain.0
          (elim (Bool-cases (ltb k.system_time (k.ptable x).wakeup)) [
            | inl later ↦ rw later (nap, a)
            | inr now ↦ rw now (
                Leads-and_then (Takes idle cur (length xs) loose x)
                  (λ _ k'. (n : ℕ) × At idle cur n loose k') (remove QueueId.sleeping k) _
                  (At-remove idle cur nap (length xs) loose k QueueId.sleeping x xs a e refl
                    (ground (arith, a.idles)))
                  (λ r k1 d.
                    round-At idle cur (length xs) loose x r.0 r.1 k1 (wake_loop fuel) d (λ k2 b.
                      again (length xs) k2 b (omega (arith, enough, ap length e, a.sleepers)))))
          ])

-- The end of the tick of the running process.
tick-At :
    (idle c nap : ℕ) (k : Kernel)
    → At idle (some c) nap (c ∷ []) k
    → Leads (λ _. Running idle) (tick k)
unfolding tick
tick-At idle c nap k a =
    let p : Pcb = record (k.ptable c) {
      ticks = ((k.ptable c).ticks + 0xffff_ffff) % 0x1_0000_0000;
    } in
    let k1 : Kernel = record k { ptable = update k.ptable c p; current = some c } in
    let a1 = At-update idle (some c) nap (c ∷ []) k c p a refl (a.live c) in
    let a2 =
      At-rest idle (some c) nap (c ∷ []) (record k { ptable = update k.ptable c p }) (some c)
        k.next_pid k.system_time k.pinwheel k.pindex k.kmem a1 in
    simp a.current (elim (Bool-cases (ltb (update k.ptable c p c).ticks 1)) [
      | inl over ↦ rw over (
          Leads-and_then (λ _. At idle (some c) nap []) (λ _. Running idle) (schedule c k1)
            (λ _. switch) (schedule-At idle (some c) nap [] k1 c a2)
            (λ u k2 b. switch-At idle (some c) nap k2 b))
      | inr goes ↦ rw goes (record { process = c; nap = nap; at = a2 })
    ])

spin-At :
    (idle : ℕ) (cur : Option ℕ) (nap : ℕ) (loose : List ℕ) (k : Kernel)
    → At idle cur nap loose k
    → At idle cur nap loose (spin k)
unfolding spin
spin-At idle cur nap loose k a = elim (Bool-cases ((k.pinwheel + 1) % 0x1_0000_0000 == 100)) [
  | inl e ↦ rw e (
      At-scalars idle cur nap loose k k.next_pid k.system_time 0 ((k.pindex + 1) % 0x1_0000_0000)
        k.kmem a)
  | inr e ↦ rw e (
      At-scalars idle cur nap loose k k.next_pid k.system_time ((k.pinwheel + 1) % 0x1_0000_0000)
        k.pindex k.kmem a)
]

-- The clock interrupt.
pub clk_isr-Running :
    (idle : ℕ) (k : Kernel) → Running idle k → Leads (λ _. Running idle) (clk_isr k)
unfolding clk_isr pcb_queue_length
clk_isr-Running idle k r =
    let c = r.process in
    let s = spin k in
    let a = spin-At idle (some c) r.nap (c ∷ []) k r.at in
    let k1 : Kernel = record s { system_time = (s.system_time + 1) % 0x1_0000_0000 } in
    let a1 =
      At-scalars idle (some c) r.nap (c ∷ []) s s.next_pid ((s.system_time + 1) % 0x1_0000_0000)
        s.pinwheel s.pindex s.kmem a in
    Leads-and_then (λ _ k'. (n : ℕ) × At idle (some c) n (c ∷ []) k') (λ _. Running idle)
      (wake_loop (s.sleeping.length + 1) k1) (λ _. tick)
      (wake_loop-At idle (some c) (c ∷ []) (s.sleeping.length + 1) r.nap k1 a1
        (omega (arith, (a.layout.holds QueueId.sleeping).length, a.sleepers)))
      (λ u k2 (n, b). tick-At idle c n k2 b)

-- A return value is written to memory.
pub set_ret-At :
    (idle : ℕ) (cur : Option ℕ) (nap : ℕ) (loose : List ℕ) (i v : ℕ) (k : Kernel)
    → At idle cur nap loose k
    → Leads (λ _. At idle cur nap loose) (set_ret i v k)
unfolding set_ret
set_ret-At idle cur nap loose i v k a =
    At-scalars idle cur nap loose k k.next_pid k.system_time k.pinwheel k.pindex _ a

pub set_ret-Running :
    (idle i v : ℕ) (k : Kernel) → Running idle k → Leads (λ _. Running idle) (set_ret i v k)
unfolding set_ret
set_ret-Running idle i v k r = record {
  process = r.process;
  nap = r.nap;
  at = set_ret-At idle (some r.process) r.nap (r.process ∷ []) i v k r.at;
}

pub sys_setprio-Running :
    (idle i : ℕ) (k : Kernel) → Running idle k → Leads (λ _. Running idle) (sys_setprio i k)
unfolding sys_setprio arg
sys_setprio-Running idle i k r = set_ret-Running idle i (k.ptable i).priority _ (record {
  process = r.process;
  nap = r.nap;
  at =
      At-update idle (some r.process) r.nap (r.process ∷ []) k i
        (record (k.ptable i) { priority = _ }) r.at refl (r.at.live i);
})
