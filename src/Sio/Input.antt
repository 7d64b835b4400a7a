-- ===== src/Sio/Input.antt =====
-- The input side of sio.c: the characters that wait to be read.
use Prim.Native.Nat.{min}
use os.Base.{
  sym, ap, ap₂, ◌∙◌, ℕ, zero, suc, ◌+◌, ◌-◌, ◌%◌, ◌≤◌, ◌<◌, ◌≡◌, refl, true, false, List, [], ◌∷◌,
  ◌++◌, arith, length, span, span_same, span_last, ltb, ◌==◌, if◌then◌else◌, Bool-cases, inl, inr,
}
use os.Sio.{Sio, buf_size, store, reset_input, take_input, read_loop, sio_read, receive}

-- The waiting characters lie between innext and inlast, inside the array.
pub record IsOpen (s : Sio) : Type 0 where
  pub last : s.inlast ≡ s.innext + s.incount
  pub fits : s.inlast ≤ buf_size

abbrev pub waiting : Sio → List ℕ
waiting s = span (λ i. s.inbuffer i % 256) s.innext s.incount

-- A read of what waits: the characters taken are the first ones, and the others wait on.
pub record Read (s : Sio) (room : ℕ) (copied : List ℕ) (s' : Sio) : Type 0 where
  pub taken : copied ++ waiting s' ≡ waiting s
  pub count : length copied ≡ min room s.incount
  pub left : IsOpen s'

pub take_input-IsOpen :
    (s : Sio)
    → IsOpen s
    → 1 ≤ s.incount
    → IsOpen (take_input s) × (waiting s ≡ (s.inbuffer s.innext % 256) ∷ waiting (take_input s))
unfolding take_input
take_input-IsOpen s o some_char =
    let inside : ltb buf_size (s.innext + 1) ≡ false = ground (arith, o.last, o.fits) in
    let n : s.incount ≡ suc (s.incount - 1) = omega arith in
    simp inside (
      record { last = omega (arith, o.last); fits = o.fits },
      ap (λ c. span (λ i. s.inbuffer i % 256) s.innext c) n,
    )

nothing-Read : (s : Sio) (room : ℕ) → IsOpen s → min room s.incount ≡ 0 → Read s room [] s
nothing-Read s room o e = record { taken = refl; count = sym e; left = o }

pub read_loop-Read :
    (room : ℕ) (s : Sio) → IsOpen s → let (copied, s') = read_loop room s in Read s room copied s'
unfolding read_loop
read_loop-Read zero s o = nothing-Read s 0 o (omega arith)
read_loop-Read (suc room) s o = elim (Bool-cases (ltb 0 s.incount)) [
  | inr none_left ↦ rw (none_left, read_loop) (nothing-Read s (suc room) o (ground arith))
  | inl more ↦
      let (o', first) = take_input-IsOpen s o (ground arith) in
      let r = read_loop-Read room (take_input s) o' in
      let fewer : min (suc room) s.incount ≡ suc (min room (s.incount - 1)) = ground arith in
      rw (more, read_loop)
        (record {
          taken = ap (λ l. (s.inbuffer s.innext % 256) ∷ l) r.taken ∙ sym first;
          count = omega (arith, taken_count r, fewer);
          left = r.left;
        })
]
  where
    taken_count :
        Read (take_input s) room (read_loop room (take_input s)).0 (read_loop room (take_input s)).1
        → length (read_loop room (take_input s)).0 ≡ min room (s.incount - 1)
    taken_count r = unfold take_input in r.count

pub reset_input-IsOpen :
    (s : Sio) → IsOpen s → IsOpen (reset_input s) × (waiting (reset_input s) ≡ waiting s)
unfolding reset_input
reset_input-IsOpen s o = elim (Bool-cases (ltb s.incount 1)) [
  | inl empty ↦
      let e : s.incount ≡ 0 = ground arith in
      simp empty (
        record { last = omega (arith, e); fits = omega arith },
        ap (λ c. span (λ i. s.inbuffer i % 256) 0 c) e
            ∙ sym (ap (λ c. span (λ i. s.inbuffer i % 256) s.innext c) e),
      )
  | inr more ↦ simp more (o, refl)
]

-- While the input buffer has not been filled to its end, sio_read hands out the characters that
-- have waited longest, as many as there is room for, in their order, and keeps the others.
pub sio_read_lem :
    (room : ℕ) (s : Sio) → IsOpen s → let (copied, s') = sio_read room s in Read s room copied s'
unfolding sio_read
sio_read_lem room s o = elim (Bool-cases (ltb s.incount 1)) [
  | inl empty ↦ simp empty (nothing-Read s room o (ground arith))
  | inr more ↦ simp more (
      let r = read_loop-Read room s o in
      let (o', same) = reset_input-IsOpen (read_loop room s).1 r.left in
      record {
        taken = ap (λ l. (read_loop room s).0 ++ l) same ∙ r.taken;
        count = r.count;
        left = o';
      })
]

abbrev mapped : ℕ → ℕ
mapped c = if c == b'\r' then b'\n' else c

-- A received byte goes behind the waiting ones, a carriage return as a newline, as long as the
-- input has not reached the end of the buffer.
pub receive-waiting :
    (c : ℕ) (s : Sio)
    → IsOpen s
    → s.inlast < buf_size
    → c < 256
    → IsOpen (receive c s)
      × (waiting (receive c s) ≡ waiting s ++ (if c == b'\r' then b'\n' else c) ∷ [])
unfolding receive
receive-waiting c s o room byte =
    let enough : ltb s.incount buf_size ≡ true = ground (arith, o.last) in
    let n : s.incount + 1 ≡ suc s.incount = omega arith in
    let now : ℕ → ℕ = λ (i : ℕ). store s.inbuffer s.inlast (mapped c) i % 256 in
    simp enough (
      record { last = omega (arith, o.last); fits = omega (arith, room) },
      ap (λ k. span now s.innext k) n
          ∙ span_last s.incount now s.innext
          ∙ ap₂ (λ l x. l ++ x ∷ [])
              (span_same s.incount now (λ i. s.inbuffer i % 256) s.innext s.innext
                (λ k lt. ground (arith, o.last)))
              (ground (arith, o.last)),
    )

-- The test of the receiver is on the count and not on the pointer: when the input has reached the
-- end of the buffer but something was read from it, the next character is stored behind the array.
pub receive_overrun :
    (c : ℕ) (s : Sio)
    → IsOpen s
    → s.inlast ≡ buf_size
    → 1 ≤ s.innext
    → ((receive c s).inbuffer buf_size ≡ (if c == b'\r' then b'\n' else c))
      × ((receive c s).inlast ≡ buf_size + 1)
unfolding receive
receive_overrun c s o at_end read =
    let enough : ltb s.incount buf_size ≡ true = ground (arith, o.last) in
    simp enough (ground (arith, at_end), ap (λ n. n + 1) at_end)
