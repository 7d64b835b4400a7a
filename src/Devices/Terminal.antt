-- ===== src/Devices/Terminal.antt =====
-- sys_read on the console.
use os.Base.{
  sym, ap, ◌∙◌, ◌⊎◌, ℕ, ◌+◌, ◌-◌, ◌≤◌, ◌<◌, ◌≡◌, refl, true, false, Option, none, some, List, [],
  ◌∷◌, ◌++◌, arith, length, length-append, Outcome, out_of_fuel, ◌>>=◌, ltb, ◌==◌, span, Bool-cases,
  inl, inr,
}
use os.Net.{put_bytes}
use os.Cio.Keyboard.{Console, cio_input_queue, cio_gets}
use os.Cio.Keyboard.Lines.{IsValid}
use os.Cio.Keyboard.Reads.{GotLine, first_line, stream, cio_gets_lem}
use os.Devices.{Io, argument, return, deliver, sys_read, chan_cio}
use os.Devices.Serial.{span-put_bytes}

-- What the call comes to, when the line to be read is `line`.
abbrev pub LineRead : ℕ → ℕ → Option (List ℕ × List ℕ) → Outcome Io → Type 0
LineRead i buf none o = o ≡ out_of_fuel
LineRead i buf (some (line, rest)) o =
    (io' : Io) × (o ≡ return i (length line) io')
    × (span io'.user buf (length line + 1) ≡ line ++ 0 ∷ [])

LineRead-deliver :
    (i buf : ℕ) (line : Option (List ℕ × List ℕ)) (o : Outcome (List ℕ × List ℕ × Console))
    (io : Io)
    → GotLine line o
    → LineRead i buf line (o >>= λ r. deliver i buf r.0 (r.0 ++ 0 ∷ []) r.2 io)
unfolding deliver
LineRead-deliver i buf none o io e = rw e refl
LineRead-deliver i buf (some (line, rest)) o io (r, e, same, left, v) =
    let size : length (r.0 ++ 0 ∷ []) ≡ length line + 1 =
      length-append r.0 (0 ∷ []) ∙ ap (λ l. length l + 1) same in
    rw e (
      record io { console = r.2; user = put_bytes (r.0 ++ 0 ∷ []) buf io.user },
      ap
          (λ l.
            return i (length l)
              (record io { console = r.2; user = put_bytes (r.0 ++ 0 ∷ []) buf io.user }))
          same,
      ap (λ n. span (put_bytes (r.0 ++ 0 ∷ []) buf io.user) buf n) (sym size)
          ∙ span-put_bytes (r.0 ++ 0 ∷ []) buf io.user
          ∙ ap (λ l. l ++ 0 ∷ []) same,
    )

-- A read from the console, with room for some characters: with at most one character waiting,
-- nothing is read and 0 returned; with more, the call reads the first line of what is typed, and
-- waits for ever where the line never ends.
pub sys_read-console :
    (i : ℕ) (codes : List ℕ) (io : Io)
    → argument i 1 io.kernel ≡ chan_cio
    → 1 ≤ argument i 3 io.kernel
    → IsValid io.console.keyboard
    → ((cio_input_queue io.console.keyboard ≤ 1) × (sys_read i codes io ≡ return i 0 io))
      ⊎ ((1 < cio_input_queue io.console.keyboard)
          × LineRead i
              (argument i 2 io.kernel)
              (first_line (argument i 3 io.kernel - 1) (stream codes io.console.keyboard))
              (sys_read i codes io))
unfolding sys_read
sys_read-console i codes io chan some_room v =
    let len : ℕ = argument i 3 io.kernel in
    let room : (len == 0) ≡ false = ground arith in
    let console : (argument i 1 io.kernel == chan_cio) ≡ true = ground arith in
    elim (Bool-cases (ltb 1 (cio_input_queue io.console.keyboard))) [
      | inr few ↦ rw (room, console, few) (inl (ground arith, refl))
      | inl more ↦
          rw (room, console, more)
            (inr (
              ground arith,
              LineRead-deliver i (argument i 2 io.kernel)
                  (first_line (len - 1) (stream codes io.console.keyboard))
                  (cio_gets len codes io.console) io (cio_gets_lem len codes io.console v),
            ))
    ]
