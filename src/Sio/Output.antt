-- ===== src/Sio/Output.antt =====
-- The output side of sio.c: the characters on their way to the wire.
use Prim.Native.Nat.{min}
use os.Base.{
  sym, ap, ap₂, ◌∙◌, ◌⊎◌, ℕ, zero, suc, ◌+◌, ◌-◌, ◌%◌, ◌≤◌, ◌<◌, ◌≡◌, refl, true, false, List, [],
  ◌∷◌, ◌++◌, append-nil, append_assoc, arith, length, length-append, span, span_same, span_last,
  ltb, ◌==◌, if◌then◌else◌, Bool-cases, inl, inr,
}
use os.Sio.{
  Sio, buf_size, store, set_ier, sio_enable, append_output, write_loop, send, sio_writec, sio_write,
}

-- The output buffer as a ring: from outnext on, outcount characters, up to outlast.
pub record IsRing (s : Sio) : Type 0 where
  pub next : s.outnext < buf_size
  pub count : s.outcount ≤ buf_size
  pub last : s.outlast ≡ (s.outnext + s.outcount) % buf_size

-- Besides, the buffer is empty and reset when nothing is being sent.
pub record IsValid (s : Sio) : Type 0 where
  pub ring : IsRing s
  pub idle : (s.sending ≡ true) ⊎ ((s.outcount ≡ 0) × (s.outnext ≡ 0))

-- The characters in the buffer, next first, and all that has been sent or will be.
abbrev pub pending : Sio → List ℕ
pending s = span (λ k. s.outbuffer ((s.outnext + k) % buf_size)) 0 s.outcount

abbrev pub line : Sio → List ℕ
line s = s.wire ++ pending s

-- What a loop that appends leaves alone.
pub record Appended (s : Sio) (added : List ℕ) (s' : Sio) : Type 0 where
  pub ring : IsRing s'
  pub pending : pending s' ≡ pending s ++ added
  pub next : s'.outnext ≡ s.outnext
  pub wire : s'.wire ≡ s.wire
  pub sending : s'.sending ≡ s.sending
  pub count : s'.outcount ≡ s.outcount + length added

append_output-Appended :
    (c : ℕ) (s : Sio) → IsRing s → s.outcount < buf_size → Appended s (c ∷ []) (append_output c s)
unfolding append_output
append_output-Appended c s r room = record {
  ring = record { next = r.next; count = omega arith; last = ground (arith, r.last, r.next) };
  pending =
      let e : s.outcount + 1 ≡ suc s.outcount = omega arith in
      ap (λ n. span (λ k. store s.outbuffer s.outlast c ((s.outnext + k) % buf_size)) 0 n) e
      ∙ span_last s.outcount (λ k. store s.outbuffer s.outlast c ((s.outnext + k) % buf_size)) 0
      ∙ ap₂ (λ l x. l ++ x ∷ [])
          (span_same s.outcount (λ k. store s.outbuffer s.outlast c ((s.outnext + k) % buf_size))
            (λ k. s.outbuffer ((s.outnext + k) % buf_size)) 0 0
            (λ k lt. ground (arith, r.last, r.next)))
          (ground (arith, r.last));
  next = refl;
  wire = refl;
  sending = refl;
  count = refl;
}

-- What the loop of sio_write comes to, from the character `i` on.
pub record Wrote (buffer : ℕ → ℕ) (rounds i : ℕ) (s : Sio) (n : ℕ) (s' : Sio) : Type 0 where
  pub copied : n ≡ i + min rounds (buf_size - s.outcount)
  pub appended : Appended s (span buffer i (min rounds (buf_size - s.outcount))) s'

pub length-span : (buffer : ℕ → ℕ) (n i : ℕ) → length (span buffer i n) ≡ n
length-span buffer zero i = refl
length-span buffer (suc n) i = omega (arith, length-span buffer n (i + 1))

none-Appended : (s : Sio) → IsRing s → Appended s [] s
none-Appended s r = record {
  ring = r;
  pending = sym (append-nil (pending s));
  next = refl;
  wire = refl;
  sending = refl;
  count = omega arith;
}

Appended-trans :
    (s s1 s2 : Sio) (a b : List ℕ) → Appended s a s1 → Appended s1 b s2 → Appended s (a ++ b) s2
Appended-trans s s1 s2 a b p q = record {
  ring = q.ring;
  pending = q.pending ∙ ap (λ l. l ++ b) p.pending ∙ append_assoc (pending s) a b;
  next = q.next ∙ p.next;
  wire = q.wire ∙ p.wire;
  sending = q.sending ∙ p.sending;
  count = omega (arith, q.count, p.count, length-append a b);
}

pub write_loop-Wrote :
    (buffer : ℕ → ℕ) (rounds i : ℕ) (s : Sio)
    → IsRing s
    → let (copied, s') = write_loop buffer rounds i s in Wrote buffer rounds i s copied s'
unfolding write_loop
write_loop-Wrote buffer zero i s r =
    let e : min 0 (buf_size - s.outcount) ≡ 0 = omega arith in
    record { copied = omega arith; appended = rw e (none-Appended s r) }
write_loop-Wrote buffer (suc rounds) i s r = elim (Bool-cases (ltb s.outcount buf_size)) [
  | inl room ↦
      let first = append_output-Appended (buffer i) s r (ground arith) in
      let more = write_loop-Wrote buffer rounds (i + 1) (append_output (buffer i) s) first.ring in
      let e : min (suc rounds) (buf_size - s.outcount)
          ≡ suc (min rounds (buf_size - (append_output (buffer i) s).outcount)) =
        omega (arith, first.count, room_left room) in
      rw (room, write_loop)
        (record {
          copied = omega (arith, more.copied, e);
          appended = rw e (Appended-trans _ _ _ (buffer i ∷ []) _ first more.appended);
        })
  | inr full ↦
      let e : min (suc rounds) (buf_size - s.outcount) ≡ 0 = ground arith in
      rw (full, write_loop)
        (record { copied = omega (arith, e); appended = rw e (none-Appended s r) })
]
  where
    room_left : ltb s.outcount buf_size ≡ true → s.outcount < buf_size
    room_left e = ground arith

-- What sio_write accepts of a buffer of this length.
abbrev pub accepted : Sio → ℕ → ℕ
accepted s length =
    if s.sending then min length (buf_size - s.outcount) else min length (buf_size + 1)

-- The characters that were accepted are at the end of the line, and no others.
pub record Written (s : Sio) (buffer : ℕ → ℕ) (length n : ℕ) (s' : Sio) : Type 0 where
  pub count : n ≡ accepted s length
  pub line : line s' ≡ line s ++ span buffer 0 n
  pub valid : IsValid s'
  pub sending : s'.sending ≡ true

-- What sending the first character leaves, when nothing is being sent.
pub send_idle :
    (c : ℕ) (s : Sio)
    → s.sending ≡ false
    → IsRing s
    → c < 256
    → (line (send c s) ≡ s.wire ++ (c ∷ pending s))
      × IsValid (send c s)
      × ((send c s).sending ≡ true)
unfolding send sio_enable set_ier
send_idle c s idle r byte =
    let e : c % 256 ≡ c = omega arith in
    rw idle (
      append_assoc s.wire ((c % 256) ∷ []) (pending s) ∙ ap (λ x. s.wire ++ (x ∷ pending s)) e,
      record { ring = record { next = r.next; count = r.count; last = r.last }; idle = inl refl },
      refl,
    )

Written-busy :
    (s : Sio) (buffer : ℕ → ℕ) (length n : ℕ) (s' : Sio)
    → s.sending ≡ true
    → Wrote buffer length 0 s n s'
    → Written s buffer length n s'
Written-busy s buffer length n s' busy w =
    let e : n ≡ min length (buf_size - s.outcount) = omega (arith, w.copied) in
    record {
      count = simp busy e;
      line =
          ap₂ (λ x y. x ++ y) w.appended.wire w.appended.pending
          ∙ sym
              (append_assoc s.wire (pending s) (span buffer 0 (min length (buf_size - s.outcount))))
          ∙ ap (λ m. line s ++ span buffer 0 m) (sym e);
      valid = record { ring = w.appended.ring; idle = inl (w.appended.sending ∙ busy) };
      sending = w.appended.sending ∙ busy;
    }

Written-idle :
    (s : Sio) (buffer : ℕ → ℕ) (length n : ℕ) (s' : Sio)
    → s.sending ≡ false
    → s.outcount ≡ 0
    → 1 ≤ length
    → buffer 0 < 256
    → (buffer 0 == b'\n') ≡ false
    → Wrote buffer (length - 1) 1 s n s'
    → Written s buffer length n (sio_writec (buffer 0) s')
unfolding sio_writec
Written-idle s buffer length n s' idle empty pos byte plain w =
    let e : n ≡ min length (buf_size + 1) = omega (arith, w.copied, empty) in
    let m : suc (min (length - 1) (buf_size - s.outcount)) ≡ n = omega (arith, w.copied) in
    let (sent, valid, sending) =
      send_idle (buffer 0) s' (w.appended.sending ∙ idle) w.appended.ring byte in
    let none : pending s ≡ [] =
      ap (λ c. span (λ k. s.outbuffer ((s.outnext + k) % buf_size)) 0 c) empty in
    rw plain (record {
      count = simp idle e;
      line =
          sent
          ∙ ap₂ (λ x y. x ++ (buffer 0 ∷ y)) w.appended.wire
              (w.appended.pending
                ∙ ap (λ l. l ++ span buffer 1 (min (length - 1) (buf_size - s.outcount))) none)
          ∙ ap (λ k. s.wire ++ span buffer 0 k) m
          ∙ ap (λ l. l ++ span buffer 0 n) (sym (ap (λ l. s.wire ++ l) none ∙ append-nil s.wire));
      valid = valid;
      sending = sending;
    })

-- sio_write, on a valid state and at least one character, does not begin with a newline when
-- nothing is being sent: it accepts as many characters as the ring has room for (and one more, when
-- nothing is being sent), returns their number, and adds them to the line in their order.
pub sio_write_lem :
    (s : Sio) (buffer : ℕ → ℕ) (length : ℕ)
    → IsValid s
    → 1 ≤ length
    → buffer 0 < 256
    → (s.sending ≡ true) ⊎ ((buffer 0 == b'\n') ≡ false)
    → let (n, s') = sio_write buffer length s in Written s buffer length n s'
unfolding sio_write sio_writec
sio_write_lem s buffer length v pos byte first = elim (Bool-cases s.sending) [
  | inl busy ↦
      let all : length - 0 ≡ length = omega arith in
      simp (busy, all)
        (let r = write_loop buffer length 0 s in
          Written-busy s buffer length r.0 r.1 busy (write_loop-Wrote buffer length 0 s v.ring))
  | inr idle ↦ simp idle (
      let r = write_loop buffer (length - 1) 1 s in
      Written-idle s buffer length r.0 r.1 idle (empty idle v.idle) pos byte (plain idle first)
        (write_loop-Wrote buffer (length - 1) 1 s v.ring))
]
  where
    empty :
        s.sending ≡ false
        → (s.sending ≡ true) ⊎ ((s.outcount ≡ 0) × (s.outnext ≡ 0))
        → s.outcount ≡ 0
    empty idle (inl busy) = absurd (ground arith)
    empty idle (inr (e, f)) = e

    plain :
        s.sending ≡ false
        → (s.sending ≡ true) ⊎ ((buffer 0 == b'\n') ≡ false)
        → (buffer 0 == b'\n') ≡ false
    plain idle (inl busy) = absurd (ground arith)
    plain idle (inr e) = e
