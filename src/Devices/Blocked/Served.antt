-- ===== src/Devices/Blocked/Served.antt =====
-- A blocked reader that sio_isr of sio.c serves, in a kernel whose queues are all in order.
use Prim.Native.Nat.{min}
use os.Base.{ℕ, ◌≡◌, List, ◌++◌, span, Outcome, ok, panic, out_of_fuel}
use os.Kmem.{Kmem}
use os.Pcb.{Pcb}
use os.Kernel.{Kernel}
use os.Sio.{Sio}
use os.Sio.Input.{IsOpen, waiting}
use os.Sharing.Running.{Running}
use os.Devices.{Io, argument}
use os.Sharing.Waking.{Woke}

-- What a reader that is served has been given: the process `x`, before `xs` in its queue, while `ys`
-- were ready.
pub record Served (idle x : ℕ) (xs ys : List ℕ) (io io' : Io) : Type 0 where
  pub running : Running idle io'.kernel
  pub woke :
      Woke io.kernel x (min (argument x 3 io.kernel) io.console.screen.sio.incount) xs ys io'.kernel
  pub taken :
      span io'.user
          (argument x 2 io.kernel)
          (min (argument x 3 io.kernel) io.console.screen.sio.incount)
        ++ waiting io'.console.screen.sio
      ≡ waiting io.console.screen.sio
  pub open_input : IsOpen io'.console.screen.sio

abbrev pub ServeResult : ℕ → ℕ → List ℕ → List ℕ → Io → Outcome Io → Type 0
ServeResult idle x xs ys io (ok io') = Served idle x xs ys io io'
ServeResult idle x xs ys io panic = ⊥
ServeResult idle x xs ys io out_of_fuel = ⊥
