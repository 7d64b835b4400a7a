-- ===== src/Clock.antt =====
-- clock.c: the clock interrupt.
pub mod Step
mod Tests
pub mod Wake
use os.Base.{ℕ, zero, suc, ◌+◌, ◌-◌, ◌/◌, ◌%◌, out_of_fuel, ltb, ◌==◌, if◌then◌else◌}
use os.Queue.{pcb_queue_empty, pcb_queue_peek, pcb_queue_length}
use os.Kernel.{
  Kernel, QueueId, M, ◌>>=◌, ◌>>◌, skip, get, modify, deref, read_pcb, write_pcb, remove,
}
use os.Procs.{schedule, need}
use os.Syscalls.{switch}

abbrev pub clock_freq : ℕ
clock_freq = 1000

-- The pinwheel, less the character that is put on the screen.
unfoldable pub spin : Kernel → Kernel
spin k =
    let n = (k.pinwheel + 1) % 0x1_0000_0000 in
    if n == clock_freq / 10
    then record k { pinwheel = 0; pindex = (k.pindex + 1) % 0x1_0000_0000 }
    else record k { pinwheel = n }

-- The loop that wakes the processes whose time has come, on fuel.
unfoldable pub wake_loop : ℕ → M (Unit {0})
wake_loop zero = λ k. out_of_fuel
wake_loop (suc fuel) = do
  k ← get
  if pcb_queue_empty k.sleeping then skip else do
    tmp ← deref (pcb_queue_peek k.sleeping)
    if ltb k.system_time (k.ptable tmp).wakeup then skip else do
      (status, got) ← remove QueueId.sleeping
      need status
      first ← deref got
      schedule first
      wake_loop fuel

-- The end of the current process' tick; a time slice that is used up ends with a dispatch.
unfoldable pub tick : M (Unit {0})
tick = do
  k ← get
  i ← deref k.current
  write_pcb i (λ p. record p { ticks = (p.ticks + 0xffff_ffff) % 0x1_0000_0000 })
  p ← read_pcb i
  if ltb p.ticks 1 then (schedule i >> switch) else skip

-- Each round of the wake loop takes one process off the sleep queue.
unfoldable pub clk_isr : M (Unit {0})
unfolding spin wake_loop tick
clk_isr = do
  modify spin
  modify (λ k. record k { system_time = (k.system_time + 1) % 0x1_0000_0000 })
  k ← get
  wake_loop (pcb_queue_length k.sleeping + 1)
  tick

pub clk_init : M (Unit {0})
clk_init = modify (λ k. record k { pinwheel = clock_freq / 10 - 1; pindex = 0; system_time = 0 })
