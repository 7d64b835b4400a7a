-- ===== src/Devices/Serial.antt =====
-- sys_read and sys_write on the serial line.
use os.Base.{ap₂, ◌∙◌, ℕ, ◌+◌, ◌<◌, ◌≡◌, refl, List, [], ◌∷◌, ◌++◌, arith, length, span}
use os.Klib.Blocks.{Memory, write}
use os.Net.{put_bytes}
use os.Sio.{Sio}
use os.Sio.Input.{IsOpen, waiting}
use os.Devices.{Io}

put_bytes_before : (l : List ℕ) (a : ℕ) (mem : Memory) (j : ℕ) → j < a → put_bytes l a mem j ≡ mem j
put_bytes_before [] a mem j lt = refl
put_bytes_before (x ∷ l) a mem j lt =
    put_bytes_before l (a + 1) (write mem a x) j (omega arith) ∙ ground arith

pub span-put_bytes : (l : List ℕ) (a : ℕ) (mem : Memory) → span (put_bytes l a mem) a (length l) ≡ l
span-put_bytes [] a mem = refl
span-put_bytes (x ∷ l) a mem =
    ap₂ (λ y ys. y ∷ ys) (put_bytes_before l (a + 1) (write mem a x) a (omega arith) ∙ ground arith)
      (span-put_bytes l (a + 1) (write mem a x))

-- What a read has done before it returns `n`: the first `n` waiting characters are in the user's
-- buffer, the others wait on, and the kernel is as it was.
pub record HandedOut (buf n : ℕ) (io io' : Io) : Type 0 where
  pub taken : span io'.user buf n ++ waiting io'.console.screen.sio ≡ waiting io.console.screen.sio
  pub open_input : IsOpen io'.console.screen.sio
  pub kernel : io'.kernel ≡ io.kernel
