-- ===== src/Sio/Drain.antt =====
-- The transmitter's side of sio.c, and a text that begins with a newline.
use os.Base.{
  sym, ap, ap₂, ◌∙◌, ◌⊎◌, ℕ, zero, suc, ◌+◌, ◌-◌, ◌%◌, ◌<◌, ◌≡◌, refl, true, false, ◌&&◌, List, [],
  ◌∷◌, ◌++◌, append-nil, append_assoc, arith, span, span_same, ltb, leb, if◌then◌else◌, Bool-cases,
  inl, inr,
}
use os.Sio.{Sio, buf_size, set_ier, sio_disable, transmit}
use os.Sio.Output.{IsRing, IsValid, pending, line}

-- The transmitter is empty so many times, one after the other.
abbrev pub drain : ℕ → Sio → Sio
drain zero s = s
drain (suc n) s = drain n (transmit s)

-- One time, with a character left and with none.
record Sent (s s' : Sio) : Type 0 where
  valid : IsValid s'
  line : line s' ≡ line s
  progress : ((s'.sending ≡ false) × (s'.outcount ≡ 0)) ⊎ (s.outcount ≡ suc s'.outcount)

-- The characters behind the first.
abbrev behind : Sio → List ℕ
behind s =
    span
      (λ k.
        s.outbuffer (((if leb buf_size (s.outnext + 1) then 0 else s.outnext + 1) + k) % buf_size))
      0 (s.outcount - 1)

pending_cons :
    (s : Sio) (m : ℕ) → IsRing s → s.outcount ≡ suc m → s.outbuffer s.outnext ∷ behind s ≡ pending s
pending_cons s m r some_left =
    let now : ℕ → ℕ = λ (k : ℕ). s.outbuffer ((s.outnext + k) % buf_size) in
    let then_on : ℕ → ℕ = λ (k : ℕ).
      s.outbuffer (((if leb buf_size (s.outnext + 1) then 0 else s.outnext + 1) + k) % buf_size) in
    let first : s.outnext ≡ (s.outnext + 0) % buf_size = omega (arith, r.next) in
    let fewer : s.outcount - 1 ≡ m = omega arith in
    ap₂ (λ x xs. x ∷ xs) (ap s.outbuffer first)
      (ap (λ n. span then_on 0 n) fewer
        ∙ span_same m then_on now 0 1 (λ k lt. ap s.outbuffer (ground (arith, r.next))))
    ∙ ap (λ n. span now 0 n) (sym some_left)

transmit_char :
    (s : Sio) (m : ℕ) → IsValid s → s.sending ≡ true → s.outcount ≡ suc m → Sent s (transmit s)
unfolding transmit
transmit_char s m v busy some_left =
    let more : (s.sending && ltb 0 s.outcount) ≡ true = ground arith in
    let r = v.ring in
    simp more (record {
      valid = record {
        ring = record {
          next = ground (arith, r.next);
          count = omega (arith, r.count);
          last = ground (arith, r.next, r.count, r.last);
        };
        idle = inl busy;
      };
      line =
          append_assoc s.wire (s.outbuffer s.outnext ∷ []) (behind s)
          ∙ ap (λ l. s.wire ++ l) (pending_cons s m r some_left);
      progress = inr (omega arith);
    })

transmit_none :
    (s : Sio) → IsValid s → (s.sending && ltb 0 s.outcount) ≡ false → Sent s (transmit s)
unfolding transmit sio_disable set_ier
transmit_none s v none_left = rw none_left (record {
  valid = record {
    ring = record { next = omega arith; count = omega arith; last = refl };
    idle = inr (refl, refl);
  };
  line = ap (λ n. s.wire ++ span (λ k. s.outbuffer ((s.outnext + k) % buf_size)) 0 n) (sym empty);
  progress = inl (refl, refl);
})
  where
    empty : s.outcount ≡ 0
    empty = ground (arith, v.idle)

transmit-Sent : (s : Sio) → IsValid s → Sent s (transmit s)
transmit-Sent s v = elim (Bool-cases (s.sending && ltb 0 s.outcount)) [
  | inl more ↦ transmit_char s (s.outcount - 1) v (ground arith) (ground arith)
  | inr none_left ↦ transmit_none s v none_left
]

-- What is left when everything has been sent.
pub record Drained (s s' : Sio) : Type 0 where
  pub wire : s'.wire ≡ line s
  pub sending : s'.sending ≡ false
  pub count : s'.outcount ≡ 0

idle_drain :
    (n : ℕ) (s : Sio) → IsValid s → s.sending ≡ false → s.outcount ≡ 0 → Drained s (drain n s)
idle_drain zero s v idle empty = record {
  wire = sym (
      ap (λ c. s.wire ++ span (λ k. s.outbuffer ((s.outnext + k) % buf_size)) 0 c) empty
      ∙ append-nil s.wire);
  sending = idle;
  count = empty;
}
idle_drain (suc n) s v idle empty =
    let t = transmit_none s v (rw idle refl) in
    elim t.progress [
      | inl (idle', empty') ↦
          let d = idle_drain n (transmit s) t.valid idle' empty' in
          record { wire = d.wire ∙ t.line; sending = d.sending; count = d.count }
      | inr fewer ↦ absurd (omega (arith, fewer))
    ]

-- From a valid state, once the transmitter has become empty more often than there are characters in
-- the buffer, and nothing is written meanwhile, every character has been sent, in order, and the
-- driver has stopped sending.
pub drain-Drained : (n : ℕ) (s : Sio) → IsValid s → s.outcount < n → Drained s (drain n s)
drain-Drained zero s v lt = absurd (omega arith)
drain-Drained (suc n) s v lt =
    let t = transmit-Sent s v in
    elim t.progress [
      | inl (idle, empty) ↦
          let d = idle_drain n (transmit s) t.valid idle empty in
          record { wire = d.wire ∙ t.line; sending = d.sending; count = d.count }
      | inr fewer ↦
          let d = drain-Drained n (transmit s) t.valid (omega (arith, fewer)) in
          record { wire = d.wire ∙ t.line; sending = d.sending; count = d.count }
    ]
