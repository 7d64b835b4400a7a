-- ===== src/Net/Ethernet.antt =====
-- ethernet.c: Ethernet II frames.
use Prim.Native.Nat.{min, max}
use os.Base.{
  ap, ap₂, ◌∙◌, ◌⊎◌, ℕ, ◌+◌, ◌-◌, ◌/◌, ◌%◌, ◌≤◌, ◌<◌, ◌≡◌, refl, ◌&&◌, arith, ltb, leb, ◌==◌,
  if◌then◌else◌, Bool-cases, inl, inr,
}
use os.Klib.Blocks.{Memory, write, memset}
use os.Klib.Blocks.Moves.{memset_lem}
use os.Klib.Numbers.{u32_mod}
use os.Net.{copy_between, copy_between_lem}

abbrev pub eth_addr_len : ℕ
eth_addr_len = 6

abbrev pub eth_header_len : ℕ
eth_header_len = 14

abbrev pub eth_mtu : ℕ
eth_mtu = 1500

abbrev pub eth_min_payload : ℕ
eth_min_payload = 46

pub record EthFrame : Type 0 where
  pub dest_mac : Memory
  pub src_mac : Memory
  pub ethertype : ℕ
  pub payload : Memory
  pub payload_len : ℕ

pub eth_init : Memory → Memory → ℕ → EthFrame → EthFrame
eth_init dest_mac src_mac ethertype frame = record {
  dest_mac = copy_between eth_addr_len 0 dest_mac 0 frame.dest_mac;
  src_mac = copy_between eth_addr_len 0 src_mac 0 frame.src_mac;
  ethertype = ethertype % 0x1_0000;
  payload = frame.payload;
  payload_len = 0;
}

pub eth_set_payload : Memory → ℕ → EthFrame → EthFrame
eth_set_payload payload length frame =
    let length = if ltb eth_mtu length then eth_mtu else length in
    record frame { payload = copy_between length 0 payload 0 frame.payload; payload_len = length }

-- The header, the payload and what is meant as padding: memset takes the length before the value,
-- so the call with 0 in between is for 0 bytes.
pub eth_bytes : EthFrame → Memory → Memory
eth_bytes frame buffer =
    let b1 = copy_between eth_addr_len 0 frame.dest_mac 0 buffer in
    let b2 = copy_between eth_addr_len eth_addr_len frame.src_mac 0 b1 in
    let b3 = write (write b2 12 (frame.ethertype / 0x100 % 0x100)) 13 (frame.ethertype % 0x100) in
    let b4 = copy_between frame.payload_len eth_header_len frame.payload 0 b3 in
    if ltb frame.payload_len eth_min_payload
    then memset (eth_header_len + frame.payload_len) 0 (eth_min_payload - frame.payload_len) b4
    else b4

pub eth_serialize : EthFrame → Memory → ℕ → ℕ × Memory
unfolding eth_bytes
eth_serialize frame buffer buffer_size =
    let payload_len =
      if ltb frame.payload_len eth_min_payload then eth_min_payload else frame.payload_len in
    let total_len = (eth_header_len + payload_len) % u32_mod in
    if ltb buffer_size total_len then (0, buffer) else (total_len, eth_bytes frame buffer)

-- The bytes of a frame on the wire, with a payload of `length` bytes, and of what lies behind it.
abbrev pub frame_byte : Memory → Memory → ℕ → Memory → ℕ → Memory → ℕ → ℕ
frame_byte dest_mac src_mac ethertype payload length rest i =
    if ltb i 6
    then dest_mac i
    else if ltb i 12
    then src_mac (i - 6)
    else if i == 12
    then ethertype / 0x100
    else if i == 13
    then ethertype % 0x100
    else if ltb i (14 + length)
    then payload (i - 14)
    else rest i

-- The two addresses.
addresses_lem :
    (dest_mac src_mac buffer : Memory) (i : ℕ)
    → copy_between 6 6 src_mac 0 (copy_between 6 0 dest_mac 0 buffer) i
      ≡ (if ltb i 6 then dest_mac i else if ltb i 12 then src_mac (i - 6) else buffer i)
addresses_lem dest_mac src_mac buffer i =
    copy_between_lem 6 6 0 i src_mac (copy_between 6 0 dest_mac 0 buffer)
    ∙ ap (λ v. if leb 6 i && ltb i (6 + 6) then src_mac (0 + (i - 6)) else v)
        (copy_between_lem 6 0 0 i dest_mac buffer)
    ∙ ground arith

eth_bytes_lem :
    (frame : EthFrame) (buffer : Memory) (i : ℕ)
    → frame.ethertype < 0x1_0000
    → eth_bytes frame buffer i
      ≡ frame_byte frame.dest_mac frame.src_mac frame.ethertype frame.payload frame.payload_len
          buffer i
unfolding eth_bytes
eth_bytes_lem frame buffer i e =
    let n : ℕ = frame.payload_len in
    let b2 : Memory = copy_between 6 6 frame.src_mac 0 (copy_between 6 0 frame.dest_mac 0 buffer) in
    let b3 : Memory =
      write (write b2 12 (frame.ethertype / 0x100 % 0x100)) 13 (frame.ethertype % 0x100) in
    let b4 : Memory = copy_between n 14 frame.payload 0 b3 in
    let copied : b4 i
        ≡ (if leb 14 i && ltb i (14 + n) then frame.payload (0 + (i - 14)) else b3 i) =
      copy_between_lem n 14 0 i frame.payload b3 in
    let head = addresses_lem frame.dest_mac frame.src_mac buffer i in
    let whole : b4 i
        ≡ frame_byte frame.dest_mac frame.src_mac frame.ethertype frame.payload n buffer i =
      copied
      ∙ ap
          (λ v.
            if leb 14 i && ltb i (14 + n)
            then frame.payload (0 + (i - 14))
            else if i == 13
            then frame.ethertype % 0x100
            else if i == 12
            then frame.ethertype / 0x100 % 0x100
            else v)
          head
      ∙ ground (arith, e) in
    elim (Bool-cases (ltb n 46)) [
      | inl short ↦ rw short (memset_lem (14 + n) 0 (46 - n) i b4 ∙ ground arith ∙ whole)
      | inr long ↦ rw long whole
    ]

-- The frame that eth_init and eth_set_payload make holds the addresses and the payload.
frame_byte_lem :
    (dest_mac src_mac payload : Memory) (ethertype length : ℕ) (frame : EthFrame) (buffer : Memory)
    (i : ℕ)
    → frame_byte
        (copy_between 6 0 dest_mac 0 frame.dest_mac)
        (copy_between 6 0 src_mac 0 frame.src_mac)
        ethertype
        (copy_between length 0 payload 0 frame.payload)
        length
        buffer
        i
      ≡ frame_byte dest_mac src_mac ethertype payload length buffer i
frame_byte_lem dest_mac src_mac payload ethertype length frame buffer i =
    ap
      (λ v.
        if ltb i 6
        then v
        else if ltb i 12
        then copy_between 6 0 src_mac 0 frame.src_mac (i - 6)
        else rest (copy_between length 0 payload 0 frame.payload (i - 14)))
      (copy_between_lem 6 0 0 i dest_mac frame.dest_mac)
    ∙ ap₂
        (λ u v.
          if ltb i 6
          then (if leb 0 i && ltb i (0 + 6) then dest_mac (0 + (i - 0)) else frame.dest_mac i)
          else if ltb i 12
          then u
          else rest v)
        (copy_between_lem 6 0 0 (i - 6) src_mac frame.src_mac)
        (copy_between_lem length 0 0 (i - 14) payload frame.payload)
    ∙ ground arith
  where
    rest : ℕ → ℕ
    rest v =
        if i == 12
        then ethertype / 0x100
        else if i == 13
        then ethertype % 0x100
        else if ltb i (14 + length)
        then v
        else buffer i

-- What eth_serialize comes to: nothing in a buffer that is too small, else the whole frame.
abbrev pub Framed : Memory → Memory → ℕ → Memory → ℕ → Memory → ℕ → ℕ × Memory → Type 0
Framed dest_mac src_mac ethertype payload n buffer size (total, sent) =
    ((size < 14 + max 46 n) × (total ≡ 0) × ((i : ℕ) → sent i ≡ buffer i))
    ⊎ ((14 + max 46 n ≤ size)
        × (total ≡ 14 + max 46 n)
        × ((i : ℕ) → sent i ≡ frame_byte dest_mac src_mac ethertype payload n buffer i))

-- A frame made by eth_init and eth_set_payload is serialised to its addresses, its type with the
-- high byte first and at most 1500 bytes of the payload, and nothing behind is changed. The length
-- returned counts at least 46 bytes of payload, but a shorter one is not padded with zeros: the
-- bytes up to that length are those of the buffer. A buffer that is too small is left alone, and
-- the result is 0.
pub eth_serialize_lem :
    (dest_mac src_mac payload : Memory) (ethertype length size : ℕ) (frame : EthFrame)
    (buffer : Memory)
    → ethertype < 0x1_0000
    → Framed dest_mac src_mac ethertype payload (min length eth_mtu) buffer size (
        eth_serialize
          (eth_set_payload payload length (eth_init dest_mac src_mac ethertype frame))
          buffer
          size)
unfolding eth_serialize eth_set_payload eth_init
eth_serialize_lem dest_mac src_mac payload ethertype length size frame buffer e =
    let n : ℕ = if ltb eth_mtu length then eth_mtu else length in
    let f : EthFrame = eth_set_payload payload length (eth_init dest_mac src_mac ethertype frame) in
    let total : ℕ = (14 + (if ltb n 46 then 46 else n)) % u32_mod in
    let short : n ≡ min length 1500 = ground arith in
    let whole : total ≡ 14 + max 46 (min length 1500) = ground arith in
    let type : ethertype % 0x1_0000 ≡ ethertype = omega arith in
    elim (Bool-cases (ltb size total)) [
      | inl small ↦ rw small (inl (ground (arith, whole), refl, λ i. refl))
      | inr room ↦ rw room (
          inr (
            ground (arith, whole),
            whole,
            λ i.
                eth_bytes_lem f buffer i (omega arith)
                ∙ frame_byte_lem dest_mac src_mac payload (ethertype % 0x1_0000) n frame buffer i
                ∙ ap₂ (λ t m. frame_byte dest_mac src_mac t payload m buffer i) type short,
          ))
    ]
