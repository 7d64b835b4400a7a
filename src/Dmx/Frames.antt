-- ===== src/Dmx/Frames.antt =====
-- The stream of bits that dmx.c sends.
use os.Base.{
  sym, ap, ap₂, ◌∙◌, ℕ, zero, suc, ◌+◌, ◌-◌, ◌*◌, ◌/◌, ◌%◌, ◌<◌, ◌≡◌, refl, List, [], ◌∷◌, ◌++◌,
  arith, span-append, span_same, ltb, ◌==◌, if◌then◌else◌, Bool-cases, inl, inr, span,
}
use os.Net.{put_bytes}
use os.Dmx.{dmx_slots, start_code, bits_size, data_frame, data_frames, all_bits, pack, dmx_write}

-- The frames of the slots from `i` on leave the bits before them.
data_frames_before :
    (n : ℕ) (slots : ℕ → ℕ) (i : ℕ) (bits : ℕ → ℕ) (k : ℕ)
    → k < 8 + i * 5
    → data_frames n slots i bits k ≡ bits k
unfolding data_frames data_frame
data_frames_before zero slots i bits k lt = refl
data_frames_before (suc n) slots i bits k lt =
    data_frames_before n slots (i + 1) (data_frame slots i bits) k (omega arith) ∙ ground arith

-- What a slot's five bits are.
abbrev pub frame_bit : ℕ → ℕ → ℕ
frame_bit slot j =
    if j == 0
    then 0
    else if j == 1
    then slot % 2
    else if j == 2
    then slot / 2 % 2
    else if j == 3
    then slot / 4 % 2
    else 1

data_frame_bits :
    (slots : ℕ → ℕ) (i : ℕ) (bits : ℕ → ℕ) (j : ℕ)
    → j < 5
    → data_frame slots i bits (8 + i * 5 + j) ≡ frame_bit (slots i) j
unfolding data_frame
data_frame_bits slots i bits j lj = ground arith

data_frames_bits :
    (n : ℕ) (slots : ℕ → ℕ) (i : ℕ) (bits : ℕ → ℕ) (s j : ℕ)
    → s < n
    → j < 5
    → data_frames n slots i bits (8 + (i + s) * 5 + j) ≡ frame_bit (slots (i + s)) j
unfolding data_frames
data_frames_bits zero slots i bits s j ls lj = absurd (omega arith)
data_frames_bits (suc n) slots i bits zero j ls lj =
    data_frames_before n slots (i + 1) (data_frame slots i bits) (8 + (i + 0) * 5 + j) (omega arith)
    ∙ ap (λ m. data_frame slots i bits (8 + m * 5 + j)) none_more
    ∙ data_frame_bits slots i bits j lj
    ∙ ap (λ m. frame_bit (slots m) j) (sym none_more)
  where
    none_more : i + 0 ≡ i
    none_more = omega arith
data_frames_bits (suc n) slots i bits (suc s) j ls lj =
    let e : i + suc s ≡ i + 1 + s = omega arith in
    ap (λ m. data_frames n slots (i + 1) (data_frame slots i bits) (8 + m * 5 + j)) e
    ∙ data_frames_bits n slots (i + 1) (data_frame slots i bits) s j (omega arith) lj
    ∙ ap (λ m. frame_bit (slots m) j) (sym e)

-- The bits of a byte as the line carries them, the low one first.
abbrev pub bits_of : ℕ → List ℕ
bits_of b =
    (b % 2)
    ∷ (b / 2 % 2)
    ∷ (b / 4 % 2)
    ∷ (b / 8 % 2)
    ∷ (b / 16 % 2)
    ∷ (b / 32 % 2)
    ∷ (b / 64 % 2)
    ∷ (b / 128 % 2)
    ∷ []

abbrev pub on_line : List ℕ → List ℕ
on_line [] = []
on_line (b ∷ bs) = bits_of b ++ on_line bs

cons : {x y : ℕ} {xs ys : List ℕ} → x ≡ y → xs ≡ ys → x ∷ xs ≡ y ∷ ys
cons e es = ap₂ (λ a l. a ∷ l) e es

packed :
    (b0 b1 b2 b3 b4 b5 b6 b7 : ℕ)
    → b0 < 2
    → b1 < 2
    → b2 < 2
    → b3 < 2
    → b4 < 2
    → b5 < 2
    → b6 < 2
    → b7 < 2
    → bits_of (b0 + 2 * b1 + 4 * b2 + 8 * b3 + 16 * b4 + 32 * b5 + 64 * b6 + 128 * b7)
      ≡ b0 ∷ b1 ∷ b2 ∷ b3 ∷ b4 ∷ b5 ∷ b6 ∷ b7 ∷ []
packed b0 b1 b2 b3 b4 b5 b6 b7 l0 l1 l2 l3 l4 l5 l6 l7 = cons (omega arith) (
    cons (omega arith) (
      cons (omega arith) (
        cons (omega arith) (
          cons (omega arith) (cons (omega arith) (cons (omega arith) (cons (omega arith) refl)))))))

pack_lem :
    (bits : ℕ → ℕ) (base : ℕ)
    → ((k : ℕ) → k < 8 → bits (base + k) < 2)
    → bits_of (pack 8 bits base 0) ≡ span (λ k. bits (base + k)) 0 8
unfolding pack
pack_lem bits base b =
    let b0 : bits (base + 0) < 2 = b 0 (omega arith) in
    let b1 : bits (base + 1) < 2 = b 1 (omega arith) in
    let b2 : bits (base + 2) < 2 = b 2 (omega arith) in
    let b3 : bits (base + 3) < 2 = b 3 (omega arith) in
    let b4 : bits (base + 4) < 2 = b 4 (omega arith) in
    let b5 : bits (base + 5) < 2 = b 5 (omega arith) in
    let b6 : bits (base + 6) < 2 = b 6 (omega arith) in
    let b7 : bits (base + 7) < 2 = b 7 (omega arith) in
    ap bits_of value ∙ packed _ _ _ _ _ _ _ _ b0 b1 b2 b3 b4 b5 b6 b7
  where
    value :
        pack 8 bits base 0
        ≡ bits (base + 0)
          + 2 * bits (base + 1)
          + 4 * bits (base + 2)
          + 8 * bits (base + 3)
          + 16 * bits (base + 4)
          + 32 * bits (base + 5)
          + 64 * bits (base + 6)
          + 128 * bits (base + 7)
    value = omega (
      arith,
      b 0 (omega arith),
      b 1 (omega arith),
      b 2 (omega arith),
      b 3 (omega arith),
      b 4 (omega arith),
      b 5 (omega arith),
      b 6 (omega arith),
      b 7 (omega arith),
    )

on_line_lem :
    (n i : ℕ) (bits : ℕ → ℕ)
    → ((k : ℕ) → k < (i + n) * 8 → bits k < 2)
    → on_line (span (λ m. pack 8 bits (m * 8) 0) i n) ≡ span bits (i * 8) (n * 8)
on_line_lem zero i bits b = refl
on_line_lem (suc n) i bits b =
    let eight : 8 + n * 8 ≡ suc n * 8 = omega arith in
    let next : (i + 1) * 8 ≡ i * 8 + 8 = omega arith in
    ap₂ (λ x y. x ++ y)
      (pack_lem bits (i * 8) (λ k lt. b (i * 8 + k) (omega arith))
        ∙ span_same 8 (λ k. bits (i * 8 + k)) bits 0 (i * 8) (λ k lt. ap bits (omega arith)))
      (on_line_lem n (i + 1) bits (λ k lt. b k (omega arith)) ∙ ap (λ m. span bits m (n * 8)) next)
    ∙ sym (span-append 8 (n * 8) bits (i * 8))
    ∙ ap (λ m. span bits (i * 8) m) eight

-- A start bit, three bits of data, the low one first, and a stop bit for each slot.
abbrev pub frames : (ℕ → ℕ) → ℕ → ℕ → List ℕ
frames slots i zero = []
frames slots i (suc n) = span (frame_bit (slots i)) 0 5 ++ frames slots (i + 1) n

frames_lem :
    (slots : ℕ → ℕ) (n i : ℕ) (bits : ℕ → ℕ)
    → ((s j : ℕ) → s < n → j < 5 → bits (8 + (i + s) * 5 + j) ≡ frame_bit (slots (i + s)) j)
    → span bits (8 + i * 5) (n * 5) ≡ frames slots i n
frames_lem slots zero i bits h = refl
frames_lem slots (suc n) i bits h =
    let five : suc n * 5 ≡ 5 + n * 5 = omega arith in
    let next : 8 + i * 5 + 5 ≡ 8 + (i + 1) * 5 = omega arith in
    let here : i + 0 ≡ i = omega arith in
    ap (λ m. span bits (8 + i * 5) m) five
    ∙ span-append 5 (n * 5) bits (8 + i * 5)
    ∙ ap₂ (λ x y. x ++ y)
        (span_same 5 bits (frame_bit (slots i)) (8 + i * 5) 0 (λ j lj.
          ap (λ m. bits (8 + m * 5 + j)) (sym here)
          ∙ h 0 j (omega arith) lj
          ∙ ap₂ (λ m k. frame_bit (slots m) k) here (zero_more j)))
        (ap (λ m. span bits m (n * 5)) next
          ∙ frames_lem slots n (i + 1) bits (λ s j ls lj.
            let e : i + suc s ≡ i + 1 + s = omega arith in
            ap (λ m. bits (8 + m * 5 + j)) (sym e)
            ∙ h (suc s) j (omega arith) lj
            ∙ ap (λ m. frame_bit (slots m) j) e))
  where
    zero_more : (j : ℕ) → j ≡ 0 + j
    zero_more j = omega arith

-- The second stop bit of the last slot.
data_frame_last :
    (slots : ℕ → ℕ) (i : ℕ) (bits : ℕ → ℕ) → data_frame slots i bits (8 + i * 5 + 5) ≡ 1
unfolding data_frame
data_frame_last slots i bits = ground arith

data_frames_last :
    (n : ℕ) (slots : ℕ → ℕ) (i : ℕ) (bits : ℕ → ℕ)
    → data_frames (suc n) slots i bits (8 + (i + n) * 5 + 5) ≡ 1
unfolding data_frames
data_frames_last zero slots i bits =
    let here : 8 + (i + 0) * 5 + 5 ≡ 8 + i * 5 + 5 = omega arith in
    ap (data_frame slots i bits) here ∙ data_frame_last slots i bits
data_frames_last (suc n) slots i bits =
    let there : 8 + (i + suc n) * 5 + 5 ≡ 8 + (i + 1 + n) * 5 + 5 = omega arith in
    ap (data_frames (suc n) slots (i + 1) (data_frame slots i bits)) there
    ∙ data_frames_last n slots (i + 1) (data_frame slots i bits)

all_bits_start :
    (slots bits : ℕ → ℕ) (k : ℕ) → k < 8 → all_bits slots bits k ≡ put_bytes start_code 0 bits k
unfolding all_bits
all_bits_start slots bits k lt =
    data_frames_before 32 slots 0 (put_bytes start_code 0 bits) k (omega arith)

all_bits_frames :
    (slots bits : ℕ → ℕ) (s j : ℕ)
    → s < 32
    → j < 5
    → all_bits slots bits (8 + (0 + s) * 5 + j) ≡ frame_bit (slots (0 + s)) j
unfolding all_bits
all_bits_frames slots bits s j ls lj =
    data_frames_bits 32 slots 0 (put_bytes start_code 0 bits) s j ls lj

start_small : (bits : ℕ → ℕ) (k : ℕ) → k < 8 → put_bytes start_code 0 bits k < 2
start_small bits k lt = ground arith

frame_bit_small : (slot j : ℕ) → frame_bit slot j < 2
frame_bit_small slot j = ground arith

all_bits_small : (slots bits : ℕ → ℕ) (k : ℕ) → k < 168 → all_bits slots bits k < 2
all_bits_small slots bits k lt = elim (Bool-cases (ltb k 8)) [
  | inl start ↦
      let e = all_bits_start slots bits k (ground arith) in
      omega (arith, e, start_small bits k (ground arith))
  | inr later ↦
      let k' : 8 + (0 + (k - 8) / 5) * 5 + (k - 8) % 5 ≡ k = ground arith in
      let e =
        ap (all_bits slots bits) (sym k')
        ∙ all_bits_frames slots bits ((k - 8) / 5) ((k - 8) % 5) (omega arith) (omega arith) in
      omega (arith, e, frame_bit_small (slots (0 + (k - 8) / 5)) ((k - 8) % 5))
]

all_bits_last : (slots bits : ℕ → ℕ) → all_bits slots bits bits_size ≡ 1
unfolding all_bits
all_bits_last slots bits = data_frames_last 31 slots 0 (put_bytes start_code 0 bits)

-- dmx_write sends two zero bytes, and then bytes whose bits, low one first, are the start code and
-- one frame for each slot: a start bit, the low three bits of the slot, and one stop bit. The
-- second stop bit of each slot is overwritten by the next start bit, and that of the last slot is
-- stored behind the array.
pub dmx_write_lem :
    (slots bits : ℕ → ℕ)
    → (bytes : List ℕ) × (dmx_write slots bits ≡ 0 ∷ 0 ∷ bytes)
      × (on_line bytes ≡ start_code ++ frames slots 0 dmx_slots)
      × (all_bits slots bits bits_size ≡ 1)
unfolding dmx_write
dmx_write_lem slots bits =
    let all : ℕ → ℕ = all_bits slots bits in
    (
      span (λ i. pack 8 all (i * 8) 0) 0 21,
      refl,
      on_line_lem 21 0 all (λ k lt. all_bits_small slots bits k (omega arith))
          ∙ span-append 8 160 all 0
          ∙ ap₂ (λ x y. x ++ y)
              (span_same 8 all (put_bytes start_code 0 bits) 0 0
                (λ k lt. all_bits_start slots bits (0 + k) (omega arith)))
              (frames_lem slots 32 0 all (all_bits_frames slots bits)),
      all_bits_last slots bits,
    )
