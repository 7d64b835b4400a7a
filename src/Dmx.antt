-- ===== src/Dmx.antt =====
-- dmx.c: lighting data as a stream of bits over the serial line.
--
-- The array of bits is a function from the index; the array has bits_size elements. What the port
-- gets is a list of bytes.
pub mod Frames
mod Tests
use os.Base.{
  sym, ap, ap₂, ◌∙◌, ◌⊎◌, ℕ, zero, suc, ◌+◌, ◌-◌, ◌*◌, ◌/◌, ◌%◌, ◌≤◌, ◌<◌, ◌≡◌, refl, Bool, true,
  false, ◌&&◌, List, [], ◌∷◌, arith, ltb, leb, ◌==◌, if◌then◌else◌, Bool-cases, inl, inr, span,
}
use os.Net.{put_bytes}

abbrev pub dmx_slots : ℕ
dmx_slots = 32

abbrev pub dmx_frame_data_size : ℕ
dmx_frame_data_size = 3

abbrev pub dmx_frame_size : ℕ
dmx_frame_size = 5

-- The characters of the start code, its NUL included.
abbrev pub start_code : List ℕ
start_code = 1 ∷ 1 ∷ 0 ∷ 0 ∷ 0 ∷ 0 ∷ 1 ∷ 0 ∷ []

abbrev pub offset : ℕ
offset = 8

abbrev pub bits_size : ℕ
bits_size = dmx_slots * dmx_frame_size + offset

-- The frame of one slot.
pub data_frame : (ℕ → ℕ) → ℕ → (ℕ → ℕ) → ℕ → ℕ
data_frame slots i bits =
    let base = offset + i * dmx_frame_size + 1 in
    put_bytes (0 ∷ (slots i % 2) ∷ (slots i / 2 % 2) ∷ (slots i / 4 % 2) ∷ 1 ∷ 1 ∷ []) (base - 1)
      bits

-- So many slots from the slot `i` on.
pub data_frames : ℕ → (ℕ → ℕ) → ℕ → (ℕ → ℕ) → ℕ → ℕ
unfolding data_frame
data_frames zero slots i bits = bits
data_frames (suc n) slots i bits = data_frames n slots (i + 1) (data_frame slots i bits)

pub all_bits : (ℕ → ℕ) → (ℕ → ℕ) → ℕ → ℕ
unfolding data_frames
all_bits slots bits = data_frames dmx_slots slots 0 (put_bytes start_code 0 bits)

-- `byte <<= 1; byte |= bits[base + bit];` for `bit` from n - 1 down to 0; a bit is 0 or 1.
pub pack : ℕ → (ℕ → ℕ) → ℕ → ℕ → ℕ
pack zero bits base byte = byte
pack (suc n) bits base byte = pack n bits base (byte * 2 % 0x100 + bits (base + n))

-- What goes to the port, if the array of bits held `bits` before.
pub dmx_write : (ℕ → ℕ) → (ℕ → ℕ) → List ℕ
unfolding all_bits pack
dmx_write slots bits = 0 ∷ 0 ∷ span (λ i. pack 8 (all_bits slots bits) (i * 8) 0) 0 (bits_size / 8)
