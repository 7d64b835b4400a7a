-- ===== src/Sio/Tests.antt =====
-- sio.c on concrete states: the driver's theorems applied.
use os.Base.{
  ℕ, ◌+◌, ◌≡◌, ◌%◌, refl, true, false, [], ◌∷◌, ◌++◌, arith, inl, inr, ◌==◌, if◌then◌else◌,
}
use os.Sio.{Sio, sio_read, sio_write, receive}
use os.Sio.Output.{IsValid, Written, sio_write_lem}
use os.Sio.Drain.{Drained, drain, drain-Drained}
use os.Sio.Input.{IsOpen, Read, waiting, sio_read_lem, receive-waiting}

-- Three characters wait to be read, from the fourth place on, and nothing is being sent.
abbrev pub quiet : Sio
quiet = record {
  inbuffer = λ i. 60 + i % 100;
  inlast = 6;
  innext = 3;
  incount = 3;
  outbuffer = λ i. i % 100;
  outlast = 0;
  outnext = 0;
  outcount = 0;
  sending = false;
  ier = 0;
  wire = b'x' ∷ [];
  enabled = 0;
}

quiet-IsValid : IsValid quiet
quiet-IsValid = record {
  ring = record { next = omega arith; count = omega arith; last = refl };
  idle = inr (refl, refl);
}

-- Two characters are left, one on each side of the end of the buffer.
abbrev busy : Sio
busy = record quiet { outlast = 1; outnext = 2047; outcount = 2; sending = true; ier = 2 }

busy-IsValid : IsValid busy
busy-IsValid = record {
  ring = record { next = omega arith; count = omega arith; last = refl };
  idle = inl refl;
}

pub quiet-IsOpen : IsOpen quiet
quiet-IsOpen = record { last = refl; fits = omega arith }

-- The input has reached the end of the buffer, and one character still waits.
abbrev at_end : Sio
at_end = record quiet { inlast = 2048; innext = 2047; incount = 1 }

abbrev letters : ℕ → ℕ
letters i = 97 + i % 26

abbrev newline_first : ℕ → ℕ
newline_first i = if i == 0 then b'\n' else letters i

sio_write_lem_example : let (n, s') = sio_write letters 5 busy in Written busy letters 5 n s'
sio_write_lem_example =
    sio_write_lem busy letters 5 busy-IsValid (omega arith) (omega arith) (inl refl)

drain-Drained_example : Drained busy (drain 3 busy)
drain-Drained_example = drain-Drained 3 busy busy-IsValid (omega arith)

sio_read_lem_example : let (copied, s') = sio_read 2 quiet in Read quiet 2 copied s'
sio_read_lem_example = sio_read_lem 2 quiet quiet-IsOpen

receive-waiting_example :
    IsOpen (receive 13 quiet)
    × (waiting (receive 13 quiet) ≡ waiting quiet ++ (if 13 == b'\r' then b'\n' else 13) ∷ [])
receive-waiting_example = receive-waiting 13 quiet quiet-IsOpen (omega arith) (omega arith)
