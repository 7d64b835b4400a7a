-- ===== src/Net/Tests.antt =====
-- The packets on concrete data: the theorems applied.
use Prim.Native.Nat.{min}
use os.Base.{◌+◌, ◌%◌, arith}
use os.Klib.Blocks.{Memory}
use os.Net.Checksum.{ipv4_calculate_checksum}
use os.Net.Checksum.Folds.{words, Completes, ipv4_calculate_checksum_lem}
use os.Net.Ethernet.{
  EthFrame, Framed, eth_mtu, eth_init, eth_set_payload, eth_serialize, eth_serialize_lem,
}
use os.Net.Ipv4.{Ipv4Packet, ipv4_serialize}
use os.Net.Ipv4.Sent.{Serialized, ipv4_serialize_lem}

abbrev zeros : Memory
zeros i = 0

abbrev bytes : Memory
bytes i = (i + 7) % 256

abbrev empty_frame : EthFrame
empty_frame = record {
  dest_mac = zeros;
  src_mac = zeros;
  ethertype = 0;
  payload = zeros;
  payload_len = 0;
}

-- A datagram from 192.168.1.100 to 192.168.1.1.
abbrev packet : Ipv4Packet
packet = record {
  version_ihl = 0x45;
  dscp_ecn = 0;
  total_length = 0;
  identification = 1234;
  flags_fragment = 0;
  ttl = 64;
  protocol = 17;
  header_checksum = 0;
  src_addr = 0xc0a8_0164;
  dest_addr = 0xc0a8_0101;
  payload = bytes;
  payload_len = 15;
}

ipv4_calculate_checksum_lem_example :
    Completes (words bytes 0 20) (ipv4_calculate_checksum bytes 0 20)
ipv4_calculate_checksum_lem_example =
    ipv4_calculate_checksum_lem bytes 0 20 (λ a. omega arith) (omega arith)

ipv4_serialize_lem_example : Serialized packet (ipv4_serialize packet zeros 1500)
ipv4_serialize_lem_example =
    ipv4_serialize_lem packet zeros 1500
      (record {
        version_ihl = omega arith;
        dscp_ecn = omega arith;
        ttl = omega arith;
        protocol = omega arith;
        identification = omega arith;
        flags_fragment = omega arith;
        src_addr = omega arith;
        dest_addr = omega arith;
        payload_len = omega arith;
      })
      (λ a. omega arith) (omega arith)

eth_serialize_lem_example :
    Framed bytes zeros 0x800 bytes
      (min 35 eth_mtu)
      zeros
      4096
      (eth_serialize (eth_set_payload bytes 35 (eth_init bytes zeros 0x800 empty_frame)) zeros 4096)
eth_serialize_lem_example =
    eth_serialize_lem bytes zeros bytes 0x800 35 4096 empty_frame zeros (omega arith)
