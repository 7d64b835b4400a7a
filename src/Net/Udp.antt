-- ===== src/Net/Udp.antt =====
-- udp.c: UDP packets.
use Prim.Native.Nat.{bit_or}
use os.Base.{
  ap, ◌∙◌, ℕ, ◌+◌, ◌-◌, ◌*◌, ◌/◌, ◌%◌, ◌≤◌, ◌<◌, ◌≡◌, List, [], ◌∷◌, arith, ltb, ◌==◌,
  if◌then◌else◌, Bool-cases, inl, inr, Outcome, ok, panic, out_of_fuel, ◌>>=◌,
}
use os.Klib.Blocks.{Memory}
use os.Klib.Numbers.{u32_mod}
use os.Net.{copy_between, put_bytes}
use os.Net.Checksum.{sum_words, fold}
use os.Net.Checksum.Folds.{words, AreBytes, FoldedTo, sum_words_lem, words_bound, fold_lem}

abbrev pub udp_header_len : ℕ
udp_header_len = 8

abbrev pub udp_max_payload : ℕ
udp_max_payload = 1472

pub record UdpPacket : Type 0 where
  pub src_port : ℕ
  pub dest_port : ℕ
  pub length : ℕ
  pub checksum : ℕ
  pub payload : Memory
  pub payload_len : ℕ

pub udp_init : ℕ → ℕ → UdpPacket → UdpPacket
udp_init src_port dest_port packet = record packet {
  src_port = src_port;
  dest_port = dest_port;
  length = udp_header_len;
  checksum = 0;
  payload_len = 0;
}

pub udp_set_payload : Memory → ℕ → UdpPacket → UdpPacket
udp_set_payload payload length packet =
    let length = if ltb udp_max_payload length then udp_max_payload else length in
    record packet { payload = copy_between length 0 payload 0 packet.payload; payload_len = length }

-- A 32-bit word in memory.
abbrev pub low_first : ℕ → List ℕ
low_first n =
    (n % 0x100) ∷ (n / 0x100 % 0x100) ∷ (n / 0x1_0000 % 0x100) ∷ (n / 0x100_0000 % 0x100) ∷ []

-- The bytes of an ipv4_pseudo_header_t: the addresses, zeros, the protocol, and the length with its
-- bytes swapped.
abbrev pub pseudo_header : ℕ → ℕ → ℕ → Memory
pseudo_header udp_len src_addr dest_addr =
    let udp_length = bit_or (udp_len / 0x100) (udp_len % 0x100 * 0x100) % 0x1_0000 in
    put_bytes (0 ∷ 17 ∷ (udp_length % 0x100) ∷ (udp_length / 0x100 % 0x100) ∷ []) 8
      (put_bytes (low_first dest_addr) 4 (put_bytes (low_first src_addr) 0 (λ a. 0)))

pub udp_calculate_checksum : Memory → ℕ → ℕ → ℕ → Outcome ℕ
udp_calculate_checksum udp_buffer udp_len src_addr dest_addr =
    fold 3
      (sum_words udp_len 0 udp_buffer (sum_words 12 0 (pseudo_header udp_len src_addr dest_addr) 0))
    >>= λ sum. ok (if (0xffff - sum) == 0 then 0xffff else 0xffff - sum)

pub udp_serialize : UdpPacket → Memory → ℕ → ℕ → ℕ → Outcome (ℕ × Memory)
unfolding udp_calculate_checksum
udp_serialize packet buffer buffer_size src_addr dest_addr =
    let total_size = (udp_header_len + packet.payload_len) % u32_mod in
    let header =
      put_bytes
        ((packet.src_port / 0x100 % 0x100)
          ∷ (packet.src_port % 0x100)
          ∷ (packet.dest_port / 0x100 % 0x100)
          ∷ (packet.dest_port % 0x100)
          ∷ (total_size / 0x100 % 0x100)
          ∷ (total_size % 0x100)
          ∷ 0
          ∷ 0
          ∷ [])
        0 buffer in
    let datagram = copy_between packet.payload_len udp_header_len packet.payload 0 header in
    if ltb buffer_size total_size
    then ok (0, buffer)
    else (udp_calculate_checksum datagram total_size src_addr dest_addr >>= λ checksum.
        ok
          (total_size, put_bytes ((checksum / 0x100 % 0x100) ∷ (checksum % 0x100) ∷ []) 6 datagram))

pseudo_header-AreBytes :
    (udp_len src_addr dest_addr : ℕ) → AreBytes (pseudo_header udp_len src_addr dest_addr)
pseudo_header-AreBytes udp_len src_addr dest_addr a = ground arith

-- The checksum is a 16-bit number that is not 0, and completes the sum.
abbrev pub Checked : ℕ → Outcome ℕ → Type 0
Checked sum (ok c) = (1 ≤ c) × (c < 0x1_0000) × ((sum + c) % 0xffff ≡ 0)
Checked sum panic = ⊥
Checked sum out_of_fuel = ⊥

FoldedTo-Checked :
    (sum : ℕ) (r : Outcome ℕ)
    → FoldedTo sum r
    → Checked sum (r >>= λ s. ok (if (0xffff - s) == 0 then 0xffff else 0xffff - s))
FoldedTo-Checked sum (ok r) f = (
  ground (arith, f.fits),
  ground (arith, f.fits),
  elim (Bool-cases ((0xffff - r) == 0)) [
    | inl none_left ↦ rw none_left (ground (arith, f.fits, f.value))
    | inr some_left ↦ rw some_left (omega (arith, f.fits, f.value))
  ],
)
FoldedTo-Checked sum panic f = f
FoldedTo-Checked sum out_of_fuel f = f

-- The checksum of a datagram of at most 65536 bytes: the loops end, the result is not 0, and the
-- words of the pseudo header, as it lies in memory, those of the datagram and the checksum add up
-- to 0 in one's complement.
pub udp_calculate_checksum_lem :
    (udp_buffer : Memory) (udp_len src_addr dest_addr : ℕ)
    → AreBytes udp_buffer
    → udp_len ≤ 0x1_0000
    → Checked
        (words (pseudo_header udp_len src_addr dest_addr) 0 12 + words udp_buffer 0 udp_len)
        (udp_calculate_checksum udp_buffer udp_len src_addr dest_addr)
unfolding udp_calculate_checksum
udp_calculate_checksum_lem udp_buffer udp_len src_addr dest_addr b short =
    let pseudo : Memory = pseudo_header udp_len src_addr dest_addr in
    let p : AreBytes pseudo = pseudo_header-AreBytes udp_len src_addr dest_addr in
    let all : ℕ = words pseudo 0 12 + words udp_buffer 0 udp_len in
    let small : words pseudo 0 12 ≤ 0x8000 * 12 = words_bound pseudo 0 12 p in
    let first : sum_words 12 0 pseudo 0 ≡ words pseudo 0 12 =
      sum_words_lem 12 0 pseudo 0 p (omega arith) ∙ omega arith in
    let then_all : sum_words udp_len 0 udp_buffer (sum_words 12 0 pseudo 0) ≡ all =
      ap (sum_words udp_len 0 udp_buffer) first
      ∙ sum_words_lem udp_len 0 udp_buffer (words pseudo 0 12) b (omega (arith, small)) in
    let few : all < u32_mod = omega (arith, small, words_bound udp_buffer 0 udp_len b) in
    rw then_all (FoldedTo-Checked all (fold 3 all) (fold_lem all few))
