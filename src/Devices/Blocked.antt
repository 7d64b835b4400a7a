-- ===== src/Devices/Blocked.antt =====
-- sio.c: the part of sio_isr that serves a process which waits for serial input.
pub mod Served
use os.Base.{
  ℕ, zero, suc, ◌+◌, ◌-◌, ◌%◌, Option, none, some, List, [], ◌∷◌, length, ltb, if◌then◌else◌,
  Outcome, ok, panic, out_of_fuel,
}
use os.Pcb.{Status, is_success}
use os.Net.{put_bytes}
use os.Queue.{pcb_queue_empty}
use os.Kernel.{Kernel, M, QueueId, set_ret, remove}
use os.Kernel
use os.Procs.{schedule}
use os.Sio.{Sio, reset_input}
use os.Devices.{Io, argument, with_sio, with_kernel}

-- The loop that copies what has come in, with room for so many characters more; `innext` does not
-- go back to the start of the array here.
pub copy_loop : ℕ → Sio → List ℕ × Sio
copy_loop zero s = ([], s)
copy_loop (suc len) s =
    let (copied, s') =
      copy_loop len (record s { innext = s.innext + 1; incount = s.incount - 1 }) in
    if ltb 0 s.incount then (s.inbuffer s.innext % 256 ∷ copied, s') else ([], s)

-- RET(pcb) = num, and SCHED( pcb ).
pub wake_reader : ℕ → ℕ → M (Unit {0})
wake_reader i num = Kernel.◌>>◌ (set_ret i num) (schedule i)

-- The process that is taken off the queue gets what it will accept.
pub serve_first : Io → Outcome ((Status × Option ℕ) × Kernel) → Outcome Io
unfolding copy_loop wake_reader
serve_first io panic = panic
serve_first io out_of_fuel = out_of_fuel
serve_first io (ok ((s, none), k)) = panic
serve_first io (ok ((s, some i), k)) =
    if is_success s
    then (let (copied, sio) = copy_loop (argument i 3 k) io.console.screen.sio in
        with_kernel
          (record io {
            console = with_sio (reset_input sio) io.console;
            user = put_bytes copied (argument i 2 k) io.user;
          })
          (wake_reader i (length copied) k))
    else panic

-- The end of the interrupt for received characters.
pub serve : Io → Outcome Io
unfolding serve_first
serve io =
    if pcb_queue_empty io.kernel.sioread
    then ok io
    else serve_first io (remove QueueId.sioread io.kernel)
