-- ===== src/Sio/Newline.antt =====
-- sio_write on a text that begins with a newline.
use Prim.Native.Nat.{min}
use mathlib.Core.Path.{subst}
use os.Base.{
  sym, ap, ap₂, ◌∙◌, ◌⊎◌, ℕ, suc, ◌+◌, ◌-◌, ◌%◌, ◌≤◌, ◌<◌, ◌≡◌, refl, true, false, [], ◌∷◌, ◌++◌,
  append_assoc, arith, span, span_same, span_last, ◌==◌, inl, inr,
}
use os.Sio.{Sio, buf_size, store, set_ier, sio_enable, send, sio_writec, write_loop, sio_write}
use os.Sio.Output.{IsValid, pending, line, Wrote, length-span, write_loop-Wrote, send_idle}

-- sio_writec puts the character behind the last one where that does not leave the array.
send_busy :
    (c : ℕ) (s : Sio)
    → s.sending ≡ true
    → s.outlast ≡ s.outnext + s.outcount
    → s.outlast < buf_size
    → line (send c s) ≡ line s ++ (c % 256) ∷ []
unfolding send
send_busy c s busy last room =
    let buffer : ℕ → ℕ = store s.outbuffer s.outlast (c % 256) in
    let now : ℕ → ℕ = λ (k : ℕ). buffer ((s.outnext + k) % buf_size) in
    let count : (s.outcount + 1) % 0x1_0000_0000 ≡ suc s.outcount = omega arith in
    simp busy (
      ap (λ n. s.wire ++ span now 0 n) count
      ∙ ap (λ l. s.wire ++ l) (span_last s.outcount now 0)
      ∙ ap₂ (λ l x. s.wire ++ (l ++ x ∷ []))
          (span_same s.outcount now (λ k. s.outbuffer ((s.outnext + k) % buf_size)) 0 0
            (λ k lt. ground arith))
          (ground arith)
      ∙ sym (append_assoc s.wire (pending s) ((c % 256) ∷ [])))

send_idle_rest :
    (c : ℕ) (s : Sio)
    → s.sending ≡ false
    → ((send c s).outnext ≡ s.outnext)
      × ((send c s).outcount ≡ s.outcount)
      × ((send c s).outlast ≡ s.outlast)
unfolding send sio_enable set_ier
send_idle_rest c s idle = rw idle (refl, refl, refl)

newline_from :
    (s : Sio) (buffer : ℕ → ℕ) (length n : ℕ) (s' : Sio)
    → s.sending ≡ false
    → s.outcount ≡ 0
    → s.outnext ≡ 0
    → 1 ≤ length
    → length ≤ buf_size
    → (buffer 0 == b'\n') ≡ true
    → Wrote buffer (length - 1) 1 s n s'
    → line (sio_writec (buffer 0) s')
      ≡ s.wire ++ (b'\r' ∷ (span buffer 1 (length - 1) ++ b'\n' ∷ []))
unfolding sio_writec
newline_from s buffer length n s' idle empty start pos fits newline w =
    let is_newline : buffer 0 ≡ b'\n' = ground arith in
    let idle' : s'.sending ≡ false = w.appended.sending ∙ idle in
    let (sent, valid, busy) = send_idle b'\r' s' idle' w.appended.ring (omega arith) in
    let (next, count, last) = send_idle_rest b'\r' s' idle' in
    let all : min (length - 1) (buf_size - s.outcount) ≡ length - 1 = omega arith in
    let none : pending s ≡ [] =
      ap (λ c. span (λ k. s.outbuffer ((s.outnext + k) % buf_size)) 0 c) empty in
    let held : pending s' ≡ span buffer 1 (length - 1) =
      w.appended.pending
      ∙ ap (λ l. l ++ span buffer 1 (min (length - 1) (buf_size - s.outcount))) none
      ∙ ap (λ m. span buffer 1 m) all in
    let filled : s'.outcount ≡ length - 1 = omega (
      arith,
      w.appended.count,
      empty,
      length-span buffer (min (length - 1) (buf_size - s.outcount)) 1,
    ) in
    let tail : s'.outlast ≡ s'.outnext + s'.outcount =
      omega (arith, w.appended.ring.last, w.appended.next) in
    rw newline (
      send_busy (buffer 0) (send b'\r' s') busy (last ∙ tail ∙ sym (ap₂ (λ x y. x + y) next count))
        (subst (λ x. x < buf_size) (sym last) (omega arith))
      ∙ ap₂ (λ l c. l ++ (c % 256) ∷ []) sent is_newline
      ∙ append_assoc s'.wire (b'\r' ∷ pending s') (b'\n' ∷ [])
      ∙ ap₂ (λ u l. u ++ (b'\r' ∷ (l ++ b'\n' ∷ []))) w.appended.wire held)

-- With nothing being sent, and a text of at most the buffer's size that begins with a newline,
-- sio_write sends a carriage return and the rest of the text, and the newline after that text.
pub sio_write-newline :
    (s : Sio) (buffer : ℕ → ℕ) (length : ℕ)
    → IsValid s
    → s.sending ≡ false
    → 1 ≤ length
    → length ≤ buf_size
    → (buffer 0 == b'\n') ≡ true
    → line ((sio_write buffer length s).1)
      ≡ s.wire ++ (b'\r' ∷ (span buffer 1 (length - 1) ++ b'\n' ∷ []))
unfolding sio_write
sio_write-newline s buffer length v idle pos fits newline = simp idle (
    let r = write_loop buffer (length - 1) 1 s in
    newline_from s buffer length r.0 r.1 idle (empty v.idle).0 (empty v.idle).1 pos fits newline
      (write_loop-Wrote buffer (length - 1) 1 s v.ring))
  where
    empty :
        (s.sending ≡ true) ⊎ ((s.outcount ≡ 0) × (s.outnext ≡ 0))
        → (s.outcount ≡ 0) × (s.outnext ≡ 0)
    empty (inl busy) = absurd (ground arith)
    empty (inr e) = e
