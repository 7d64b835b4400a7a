-- ===== src/Net/Ipv4.antt =====
-- ipv4.c: IPv4 packets.
pub mod Sent
use os.Base.{ℕ, ◌+◌, ◌*◌, ◌/◌, ◌%◌, List, [], ◌∷◌, ltb, if◌then◌else◌, Outcome, ok, ◌>>=◌}
use os.Klib.Blocks.{Memory}
use os.Klib.Numbers.{u32_mod}
use os.Net.{copy_between, put_bytes}
use os.Net.Checksum.{ipv4_calculate_checksum}

abbrev pub ipv4_header_min_len : ℕ
ipv4_header_min_len = 20

abbrev pub ipv4_max_payload : ℕ
ipv4_max_payload = 1480

pub record Ipv4Packet : Type 0 where
  pub version_ihl : ℕ
  pub dscp_ecn : ℕ
  pub total_length : ℕ
  pub identification : ℕ
  pub flags_fragment : ℕ
  pub ttl : ℕ
  pub protocol : ℕ
  pub header_checksum : ℕ
  pub src_addr : ℕ
  pub dest_addr : ℕ
  pub payload : Memory
  pub payload_len : ℕ

-- The arguments are of the types of the fields, flags and fragment_offset of 8 and 16 bits.
pub ipv4_init : ℕ → ℕ → ℕ → ℕ → ℕ → ℕ → ℕ → ℕ → Ipv4Packet → Ipv4Packet
ipv4_init dscp_ecn identification flags fragment_offset ttl protocol src_addr dest_addr packet =
    record {
      version_ihl = 0x45;
      dscp_ecn = dscp_ecn;
      total_length = 0;
      identification = identification;
      flags_fragment = flags % 8 * 0x2000 + fragment_offset % 0x2000;
      ttl = ttl;
      protocol = protocol;
      header_checksum = 0;
      src_addr = src_addr;
      dest_addr = dest_addr;
      payload = packet.payload;
      payload_len = 0;
    }

pub ipv4_set_payload : Memory → ℕ → Ipv4Packet → Ipv4Packet
ipv4_set_payload payload length packet =
    let length = if ltb ipv4_max_payload length then ipv4_max_payload else length in
    record packet { payload = copy_between length 0 payload 0 packet.payload; payload_len = length }

-- The header, with no checksum.
abbrev pub header_bytes : Ipv4Packet → ℕ → List ℕ
header_bytes packet total_size =
    packet.version_ihl
    ∷ packet.dscp_ecn
    ∷ (total_size / 0x100 % 0x100)
    ∷ (total_size % 0x100)
    ∷ (packet.identification / 0x100 % 0x100)
    ∷ (packet.identification % 0x100)
    ∷ (packet.flags_fragment / 0x100 % 0x100)
    ∷ (packet.flags_fragment % 0x100)
    ∷ packet.ttl
    ∷ packet.protocol
    ∷ 0
    ∷ 0
    ∷ (packet.src_addr / 0x100_0000 % 0x100)
    ∷ (packet.src_addr / 0x1_0000 % 0x100)
    ∷ (packet.src_addr / 0x100 % 0x100)
    ∷ (packet.src_addr % 0x100)
    ∷ (packet.dest_addr / 0x100_0000 % 0x100)
    ∷ (packet.dest_addr / 0x1_0000 % 0x100)
    ∷ (packet.dest_addr / 0x100 % 0x100)
    ∷ (packet.dest_addr % 0x100)
    ∷ []

-- The checksum's bytes, and the payload.
pub finish : Ipv4Packet → ℕ → Memory → ℕ → ℕ × Memory
finish packet total_size header checksum = (
  total_size,
  copy_between packet.payload_len ipv4_header_min_len packet.payload 0
      (put_bytes ((checksum / 0x100 % 0x100) ∷ (checksum % 0x100) ∷ []) 10 header),
)

pub ipv4_serialize : Ipv4Packet → Memory → ℕ → Outcome (ℕ × Memory)
unfolding finish
ipv4_serialize packet buffer buffer_size =
    let total_size = (ipv4_header_min_len + packet.payload_len) % u32_mod in
    let header = put_bytes (header_bytes packet total_size) 0 buffer in
    if ltb buffer_size total_size
    then ok (0, buffer)
    else (ipv4_calculate_checksum header 0 ipv4_header_min_len >>= λ checksum.
        ok (finish packet total_size header checksum))
