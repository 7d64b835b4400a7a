-- ===== src/Devices.antt =====
-- syscalls.c: read and write, with the console and the serial line.
--
-- The state is the kernel's, the console's, which has the serial driver's in it, and the bytes of
-- the users' buffers.
pub mod Blocked
pub mod Serial
pub mod Terminal
mod Tests
use os.Base.{
  ℕ, zero, suc, ◌+◌, ◌-◌, ◌*◌, ◌%◌, Bool, true, false, not, List, [], ◌∷◌, ◌++◌, length, Outcome,
  ok, panic, out_of_fuel, ◌>>=◌, ltb, ◌==◌, if◌then◌else◌, span,
}
use os.Klib.Blocks.{Memory}
use os.Net.{put_bytes}
use os.Pcb.{State, Status, code}
use os.Kernel.{Kernel, M, QueueId, write_pcb, set_ret, insert, sz_context}
use os.Kernel
use os.Procs.{need}
use os.Syscalls.{switch}
use os.Sio.{Sio, sio_read, sio_write, sio_inq_length}
use os.Cio.Keyboard.{Console, cio_input_queue, cio_gets}
use os.Cio.Screen.{cio_write}

abbrev pub chan_cio : ℕ
chan_cio = 0

abbrev pub chan_sio : ℕ
chan_sio = 1

pub record Io : Type 0 where
  pub kernel : Kernel
  pub console : Console
  pub user : Memory

-- ARG(pcb,n)
abbrev pub argument : ℕ → ℕ → Kernel → ℕ
argument i n k = k.kmem.mem (((k.ptable i).context + sz_context + 4 * n) % 0x1_0000_0000)

-- A command of the kernel.
abbrev pub with_kernel : Io → Outcome (Unit {0} × Kernel) → Outcome Io
with_kernel io (ok (u, k)) = ok (record io { kernel = k })
with_kernel io panic = panic
with_kernel io out_of_fuel = out_of_fuel

-- RET(pcb) = n, and the end of the call.
pub return : ℕ → ℕ → Io → Outcome Io
return i n io = with_kernel io (set_ret i n io.kernel)

-- The caller waits for serial input.
pub block : ℕ → M (Unit {0})
block i =
    Kernel.◌>>=◌
      (Kernel.◌>>◌ (write_pcb i (λ p. record p { state = State.blocked }))
        (insert QueueId.sioread i))
      (λ status. Kernel.◌>>◌ (need status) switch)

-- An int that counts: none if it is negative.
abbrev pub count : ℕ → ℕ
count n = if ltb n 0x8000_0000 then n else 0

abbrev pub with_sio : Sio → Console → Console
with_sio sio c = record c { screen = record (c.screen) { sio = sio } }

-- What a device has handed out goes to the user's buffer, and its length is returned.
pub deliver : ℕ → ℕ → List ℕ → List ℕ → Console → Io → Outcome Io
unfolding return
deliver i buf text stored c io =
    return i (length text) (record io { console = c; user = put_bytes stored buf io.user })

-- `codes` are the scan codes that the keyboard still delivers.
pub sys_read : ℕ → List ℕ → Io → Outcome Io
unfolding deliver block
sys_read i codes io =
    let chan = argument i 1 io.kernel in
    let buf = argument i 2 io.kernel in
    let len = argument i 3 io.kernel in
    let sio = io.console.screen.sio in
    if len == 0
    then return i 0 io
    else if chan == chan_cio
    then if ltb 1 (cio_input_queue io.console.keyboard)
      then (cio_gets len codes io.console >>= λ r. deliver i buf r.0 (r.0 ++ 0 ∷ []) r.2 io)
      else return i 0 io
    else if not (chan == chan_sio)
    then return i (code Status.e_bad_param) io
    else if ltb (sio_inq_length sio) 1
    then with_kernel io (block i io.kernel)
    else (let (copied, sio') = sio_read (count len) sio in
        deliver i buf copied copied (with_sio sio' io.console) io)

pub sys_write : ℕ → Io → Outcome Io
unfolding return
sys_write i io =
    let chan = argument i 1 io.kernel in
    let buf = argument i 2 io.kernel in
    let length = argument i 3 io.kernel in
    let c = io.console in
    if chan == chan_cio
    then return i length (record io {
      console = record c { screen = cio_write (span io.user buf (count length)) c.screen };
    })
    else if chan == chan_sio
    then return i length (record io {
      console = with_sio (sio_write (λ j. io.user (buf + j)) (count length) c.screen.sio).1 c;
    })
    else return i (code Status.e_bad_chan) io
