-- ===== src/Net/Ipv4/Sent.antt =====
-- ipv4_serialize of ipv4.c: what a receiver finds.
use os.Base.{
  sym, ap, ◌∙◌, ◌⊎◌, ◌↔◌, ℕ, zero, suc, ◌+◌, ◌*◌, ◌/◌, ◌%◌, ◌≤◌, ◌<◌, ◌≡◌, refl, false, List, [],
  ◌∷◌, arith, ltb, leb, Bool-cases, inl, inr, Outcome, ok, panic, out_of_fuel, ◌>>=◌,
}
use os.Klib.Blocks.{Memory, write}
use os.Klib.Numbers.{u32_mod}
use os.Net.{copy_between, copy_between_lem, put_bytes}
use os.Net.Checksum.{ipv4_calculate_checksum}
use os.Net.Checksum.Folds.{words, AreBytes, Completes, ipv4_calculate_checksum_lem}
use os.Net.Ipv4.{Ipv4Packet, ipv4_max_payload, header_bytes, finish, ipv4_serialize}

-- A packet whose fields have the sizes of their types.
pub record IsPacket (packet : Ipv4Packet) : Type 0 where
  pub version_ihl : packet.version_ihl < 256
  pub dscp_ecn : packet.dscp_ecn < 256
  pub ttl : packet.ttl < 256
  pub protocol : packet.protocol < 256
  pub identification : packet.identification < 0x1_0000
  pub flags_fragment : packet.flags_fragment < 0x1_0000
  pub src_addr : packet.src_addr < 0x1_0000_0000
  pub dest_addr : packet.dest_addr < 0x1_0000_0000
  pub payload_len : packet.payload_len ≤ ipv4_max_payload

abbrev AllBytes : List ℕ → Type 0
AllBytes [] = Unit {0}
AllBytes (b ∷ bs) = (b < 256) × AllBytes bs

put_bytes-AreBytes :
    (bs : List ℕ) (i : ℕ) (buffer : Memory)
    → AllBytes bs
    → AreBytes buffer
    → AreBytes (put_bytes bs i buffer)
put_bytes-AreBytes [] i buffer a b = b
put_bytes-AreBytes (x ∷ bs) i buffer (lt, a) b =
    put_bytes-AreBytes bs (i + 1) (write buffer i x) a (λ j. ground (arith, lt, b j))

words_same :
    (len ptr : ℕ) (mem mem' : Memory)
    → ((a : ℕ) → a < ptr + len → mem' a ≡ mem a)
    → words mem' ptr len ≡ words mem ptr len
words_same zero ptr mem mem' h = refl
words_same (suc zero) ptr mem mem' h = h ptr (omega arith)
words_same (suc (suc len)) ptr mem mem' h = omega (
  arith,
  h ptr (omega arith),
  h (ptr + 1) (omega arith),
  words_same len (ptr + 2) mem mem' (λ a lt. h a (omega arith)),
)

header-AllBytes :
    (packet : Ipv4Packet) (total : ℕ) → IsPacket packet → AllBytes (header_bytes packet total)
header-AllBytes packet total p = (
  p.version_ihl,
  (
    p.dscp_ecn,
    (
      omega arith,
      (
        omega arith,
        (
          omega arith,
          (
            omega arith,
            (
              omega arith,
              (
                omega arith,
                (
                  p.ttl,
                  (
                    p.protocol,
                    (
                      omega arith,
                      (
                        omega arith,
                        (
                          omega arith,
                          (
                            omega arith,
                            (
                              omega arith,
                              (
                                omega arith,
                                (omega arith, (omega arith, (omega arith, (omega arith, tt)))),
                              ),
                            ),
                          ),
                        ),
                      ),
                    ),
                  ),
                ),
              ),
            ),
          ),
        ),
      ),
    ),
  ),
)

replaced_words :
    (mem : Memory) (x y : ℕ)
    → mem 10 ≡ 0
    → mem 11 ≡ 0
    → words (put_bytes (x ∷ y ∷ []) 10 mem) 0 20 ≡ words mem 0 20 + x + 256 * y
replaced_words mem x y a b = omega (arith, a, b)

bytes_equal :
    (s hi lo : ℕ)
    → hi < 256
    → lo < 256
    → (s + (256 * hi + lo)) % 0xffff ≡ 0
    → ((s + hi + 256 * lo) % 0xffff ≡ 0) ↔ (hi ≡ lo)
bytes_equal s hi lo lh ll e = (λ z. omega arith, λ z. omega arith)

-- The checksum completes the sum; its bytes swapped do so only if they are equal.
swapped_sum :
    (s c : ℕ)
    → c < 0x1_0000
    → (s + c) % 0xffff ≡ 0
    → ((s + c / 0x100 % 0x100 + 256 * (c % 0x100)) % 0xffff ≡ 0) ↔ (c / 0x100 % 0x100 ≡ c % 0x100)
swapped_sum s c fits e =
    let whole : 256 * (c / 0x100 % 0x100) + c % 0x100 ≡ c = omega arith in
    bytes_equal s (c / 0x100 % 0x100) (c % 0x100) (omega arith) (omega arith)
      (ap (λ d. (s + d) % 0xffff) whole ∙ e)

-- The number in two or four bytes, the highest first.
abbrev pub number16 : Memory → ℕ → ℕ
number16 sent i = 256 * sent i + sent (i + 1)

abbrev pub number32 : Memory → ℕ → ℕ
number32 sent i = 0x1_0000 * number16 sent i + number16 sent (i + 2)

-- What a receiver reads in the header, but for the checksum.
pub record HasHeader (packet : Ipv4Packet) (sent : Memory) : Type 0 where
  pub version_ihl : sent 0 ≡ packet.version_ihl
  pub dscp_ecn : sent 1 ≡ packet.dscp_ecn
  pub total_length : number16 sent 2 ≡ 20 + packet.payload_len
  pub identification : number16 sent 4 ≡ packet.identification
  pub flags_fragment : number16 sent 6 ≡ packet.flags_fragment
  pub ttl : sent 8 ≡ packet.ttl
  pub protocol : sent 9 ≡ packet.protocol
  pub src_addr : number32 sent 12 ≡ packet.src_addr
  pub dest_addr : number32 sent 16 ≡ packet.dest_addr

HasHeader-same :
    (packet : Ipv4Packet) (header sent : Memory)
    → ((k : ℕ) → k < 10 → sent k ≡ header k)
    → ((k : ℕ) → 12 ≤ k → k < 20 → sent k ≡ header k)
    → HasHeader packet header
    → HasHeader packet sent
HasHeader-same packet header sent f g h = record {
  version_ihl = f 0 (omega arith) ∙ h.version_ihl;
  dscp_ecn = f 1 (omega arith) ∙ h.dscp_ecn;
  total_length = omega (arith, f 2 (omega arith), f 3 (omega arith), h.total_length);
  identification = omega (arith, f 4 (omega arith), f 5 (omega arith), h.identification);
  flags_fragment = omega (arith, f 6 (omega arith), f 7 (omega arith), h.flags_fragment);
  ttl = f 8 (omega arith) ∙ h.ttl;
  protocol = f 9 (omega arith) ∙ h.protocol;
  src_addr = omega (
    arith,
    g 12 (omega arith) (omega arith),
    g 13 (omega arith) (omega arith),
    g 14 (omega arith) (omega arith),
    g 15 (omega arith) (omega arith),
    h.src_addr,
  );
  dest_addr = omega (
    arith,
    g 16 (omega arith) (omega arith),
    g 17 (omega arith) (omega arith),
    g 18 (omega arith) (omega arith),
    g 19 (omega arith) (omega arith),
    h.dest_addr,
  );
}

-- The bytes of a number of four bytes.
split32 :
    (v : ℕ)
    → v < 0x1_0000_0000
    → 0x1_0000 * (256 * (v / 0x100_0000 % 0x100) + v / 0x1_0000 % 0x100)
        + (256 * (v / 0x100 % 0x100) + v % 0x100)
      ≡ v
split32 v lt = omega arith

header_bytes-HasHeader :
    (packet : Ipv4Packet) (total : ℕ) (buffer : Memory)
    → IsPacket packet
    → total ≡ 20 + packet.payload_len
    → HasHeader packet (put_bytes (header_bytes packet total) 0 buffer)
header_bytes-HasHeader packet total buffer p size = record {
  version_ihl = refl;
  dscp_ecn = refl;
  total_length = omega (arith, p.payload_len, size);
  identification = omega (arith, p.identification);
  flags_fragment = omega (arith, p.flags_fragment);
  ttl = refl;
  protocol = refl;
  src_addr = split32 packet.src_addr p.src_addr;
  dest_addr = split32 packet.dest_addr p.dest_addr;
}

-- A packet that was serialised: its length, its header and payload, and what a receiver, who adds up
-- the words of the header, finds.
abbrev pub Serialized : Ipv4Packet → Outcome (ℕ × Memory) → Type 0
Serialized packet (ok (n, sent)) =
    (n ≡ 20 + packet.payload_len)
    × HasHeader packet sent
    × ((i : ℕ) → (packet.payload_len ≤ i) ⊎ (sent (20 + i) ≡ packet.payload i))
    × ((words sent 0 20 % 0xffff ≡ 0) ↔ (sent 10 ≡ sent 11))
Serialized packet panic = ⊥
Serialized packet out_of_fuel = ⊥

finish-Serialized :
    (packet : Ipv4Packet) (total : ℕ) (header : Memory) (r : Outcome ℕ)
    → total ≡ 20 + packet.payload_len
    → HasHeader packet header
    → header 10 ≡ 0
    → header 11 ≡ 0
    → Completes (words header 0 20) r
    → Serialized packet (r >>= λ checksum. ok (finish packet total header checksum))
unfolding finish
finish-Serialized packet total header (ok c) size fields a b (fits, sum) =
    let n : ℕ = packet.payload_len in
    let h : Memory = put_bytes ((c / 0x100 % 0x100) ∷ (c % 0x100) ∷ []) 10 header in
    let sent : Memory = copy_between n 20 packet.payload 0 h in
    let same : (k : ℕ) → k < 20 → sent k ≡ h k =
      λ k lt. copy_between_lem n 20 0 k packet.payload h ∙ ground arith in
    let added : words sent 0 20 ≡ words header 0 20 + c / 0x100 % 0x100 + 256 * (c % 0x100) =
      words_same 20 0 h sent (λ k lt. same k (omega arith))
      ∙ replaced_words header (c / 0x100 % 0x100) (c % 0x100) a b in
    let (f, g) = swapped_sum (words header 0 20) c fits sum in
    (
      size,
      HasHeader-same packet header sent (λ k lt. same k (omega arith) ∙ ground arith)
          (λ k lo hi. same k (omega arith) ∙ ground arith) fields,
      (λ i. elim (Bool-cases (leb n i)) [
        | inl behind ↦ inl (ground arith)
        | inr inside ↦
            inr (copy_between_lem n 20 0 (20 + i) packet.payload h ∙ ground (arith, inside))
      ]),
      (
        λ z.
            same 10 (omega arith)
            ∙ f (ap (λ w. w % 0xffff) (sym added) ∙ z)
            ∙ sym (same 11 (omega arith)),
        λ z.
            ap (λ w. w % 0xffff) added
            ∙ g (sym (same 10 (omega arith)) ∙ z ∙ same 11 (omega arith)),
      ),
    )
finish-Serialized packet total header panic size fields a b f = f
finish-Serialized packet total header out_of_fuel size fields a b f = f

-- ipv4_serialize, with room for a packet whose fields have the sizes of their types, writes the
-- payload behind a header in which a receiver reads the fields of the packet, numbers with the
-- highest byte first, and as total length the length of both, which is returned. But the words of the header add up to 0 in one's complement, which is what a
-- receiver checks, only if the two bytes of the checksum are equal, for they are stored in the
-- wrong order.
pub ipv4_serialize_lem :
    (packet : Ipv4Packet) (buffer : Memory) (buffer_size : ℕ)
    → IsPacket packet
    → AreBytes buffer
    → 20 + packet.payload_len ≤ buffer_size
    → Serialized packet (ipv4_serialize packet buffer buffer_size)
unfolding ipv4_serialize
ipv4_serialize_lem packet buffer buffer_size p b room =
    let total : ℕ = (20 + packet.payload_len) % u32_mod in
    let header : Memory = put_bytes (header_bytes packet total) 0 buffer in
    let size : total ≡ 20 + packet.payload_len = omega (arith, p.payload_len) in
    let enough : ltb buffer_size total ≡ false = ground (arith, size) in
    rw enough (
      finish-Serialized packet total header (ipv4_calculate_checksum header 0 20) size
        (header_bytes-HasHeader packet total buffer p size) refl refl
        (ipv4_calculate_checksum_lem header 0 20
          (put_bytes-AreBytes (header_bytes packet total) 0 buffer (header-AllBytes packet total p)
            b)
          (omega arith)))
