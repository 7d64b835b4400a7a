-- ===== src/Devices/Tests.antt =====
-- The device calls on a concrete kernel: their theorems applied.
use os.Base.{ℕ, ◌-◌, ◌≡◌, ◌≤◌, ◌<◌, ◌⊎◌, refl, [], ◌∷◌, arith, ◌==◌, if◌then◌else◌}
use os.Procs.Tests.{booted}
use os.Sio.Tests.{quiet}
use os.Cio.Tests.{console, typed_ahead-IsValid}
use os.Cio.Keyboard.{cio_input_queue}
use os.Cio.Keyboard.Reads.{first_line, stream}
use os.Sharing.Tests.{multitasking}
use os.Devices.{Io, return, sys_read, with_sio}
use os.Devices.Terminal.{LineRead, sys_read-console}

-- The process in slot 3 reads from a channel into a buffer of eight bytes at 5000.
abbrev reading : ℕ → Io
reading chan = record {
  kernel = record booted {
    kmem = record (booted.kmem) {
      mem = λ a. if a == 844 then chan else if a == 848 then 5000 else 8;
    };
  };
  console = with_sio quiet console;
  user = λ a. 0;
}

sys_read-console_example :
    let keyboard = (reading 0).console.keyboard in
    ((cio_input_queue keyboard ≤ 1) × (sys_read 3 (0x1c ∷ []) (reading 0) ≡ return 3 0 (reading 0)))
    ⊎ ((1 < cio_input_queue keyboard)
        × LineRead 3 5000
            (first_line (8 - 1) (stream (0x1c ∷ []) keyboard))
            (sys_read 3 (0x1c ∷ []) (reading 0)))
sys_read-console_example =
    sys_read-console 3 (0x1c ∷ []) (reading 0) refl (omega arith) typed_ahead-IsValid

-- The process in slot 4 waits for serial input, and three characters have come in.
abbrev waiting_reader : Io
waiting_reader = record { kernel = multitasking; console = with_sio quiet console; user = λ a. 0 }
