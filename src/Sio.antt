-- ===== src/Sio.antt =====
-- sio.c: the serial driver's buffers and its operations.
--
-- A pointer into a buffer is its index; an index from `buf_size` on lies behind the array. What the
-- driver has stored into the transmitter's data register is the list `wire`, oldest first, and the
-- last value stored into the interrupt enable register is `enabled`.
pub mod Drain
pub mod Input
pub mod Newline
pub mod Output
pub mod Tests
use Prim.Native.Nat.{bit_and, bit_or}
use os.Base.{
  ℕ, zero, suc, ◌+◌, ◌-◌, ◌%◌, Bool, true, false, not, ◌&&◌, Option, none, some, List, [], ◌∷◌,
  ◌++◌, length, ltb, leb, ◌==◌, if◌then◌else◌,
}

abbrev pub buf_size : ℕ
buf_size = 2048

pub record Sio : Type 0 where
  pub inbuffer : ℕ → ℕ
  pub inlast : ℕ
  pub innext : ℕ
  pub incount : ℕ
  pub outbuffer : ℕ → ℕ
  pub outlast : ℕ
  pub outnext : ℕ
  pub outcount : ℕ
  pub sending : Bool
  pub ier : ℕ
  pub wire : List ℕ
  pub enabled : ℕ

abbrev pub sio_tx : ℕ
sio_tx = 1

abbrev pub sio_rx : ℕ
sio_rx = 2

abbrev pub ua4_ier_tx_ie : ℕ
ua4_ier_tx_ie = 2

abbrev pub ua4_ier_rx_ie : ℕ
ua4_ier_rx_ie = 1

abbrev pub store : (ℕ → ℕ) → ℕ → ℕ → ℕ → ℕ
store buffer i v j = if j == i then v else buffer j

-- `outb( UA4_IER, ier )` if there was a change.
pub set_ier : ℕ → Sio → Sio
set_ier new s = record s { ier = new; enabled = if s.ier == new then s.enabled else new }

-- The first component is the prior setting.
pub sio_enable : ℕ → Sio → ℕ × Sio
unfolding set_ier
sio_enable which s =
    let with_tx = if bit_and which sio_tx == 0 then s.ier else bit_or s.ier ua4_ier_tx_ie in
    let with_rx = if bit_and which sio_rx == 0 then with_tx else bit_or with_tx ua4_ier_rx_ie in
    (s.ier, set_ier with_rx s)

-- 0xfd and 0xfe are ~UA4_IER_TX_IE and ~UA4_IER_RX_IE on a byte.
pub sio_disable : ℕ → Sio → ℕ × Sio
unfolding set_ier
sio_disable which s =
    let no_tx = if bit_and which sio_tx == 0 then s.ier else bit_and s.ier 0xfd in
    let no_rx = if bit_and which sio_rx == 0 then no_tx else bit_and no_tx 0xfe in
    (s.ier, set_ier no_rx s)

-- The variables that sio_init sets; the UART's other registers are left out.
pub sio_init : List ℕ → Sio
sio_init wire = record {
  inbuffer = λ i. 0;
  inlast = 0;
  innext = 0;
  incount = 0;
  outbuffer = λ i. 0;
  outlast = 0;
  outnext = 0;
  outcount = 0;
  sending = false;
  ier = 0;
  wire = wire;
  enabled = 0;
}

-- The characters that the receiver still holds are discarded by the hardware reads.
pub flush_input : Sio → Sio
flush_input s = record s { incount = 0; inlast = 0; innext = 0 }

pub flush_output : Sio → Sio
flush_output s = record s { outcount = 0; outlast = 0; outnext = 0; sending = false }

pub sio_flush : ℕ → Sio → Sio
unfolding flush_input flush_output
sio_flush which s =
    let s1 = if not (bit_and which sio_rx == 0) then flush_input s else s in
    if not (bit_and which sio_tx == 0) then flush_output s1 else s1

unfoldable pub sio_inq_length : Sio → ℕ
sio_inq_length s = s.incount

-- `inlast = innext = inbuffer` if the last character has been taken.
pub reset_input : Sio → Sio
reset_input s = if ltb s.incount 1 then record s { inlast = 0; innext = 0 } else s

-- `none` is the result -1.
pub sio_readc : Sio → Option ℕ × Sio
unfolding reset_input
sio_readc s =
    if ltb 0 s.incount
    then (
      some (s.inbuffer s.innext % 256),
      reset_input (record s { innext = s.innext + 1; incount = s.incount - 1 }),
    )
    else (none, s)

-- One round of sio_read's loop, less the character.
unfoldable pub take_input : Sio → Sio
take_input s = record s {
  innext = if ltb buf_size (s.innext + 1) then 0 else s.innext + 1;
  incount = s.incount - 1;
}

-- The loop, when the user's buffer has room for so many characters more: what it copies there.
unfoldable pub read_loop : ℕ → Sio → List ℕ × Sio
unfolding take_input
read_loop zero s = ([], s)
read_loop (suc room) s = elim (ltb 0 s.incount) [
  | true ↦
      let (copied, s') = read_loop room (take_input s) in (s.inbuffer s.innext % 256 ∷ copied, s')
  | false ↦ ([], s)
]

-- What is copied into the user's buffer; the return value is its length.
pub sio_read : ℕ → Sio → List ℕ × Sio
unfolding read_loop reset_input
sio_read length s =
    if ltb s.incount 1
    then ([], s)
    else (let (copied, s') = read_loop length s in (copied, reset_input s'))

-- sio_writec on a character that is not mapped.
pub send : ℕ → Sio → Sio
unfolding sio_enable
send ch s =
    if s.sending
    then record s {
      outbuffer = store s.outbuffer s.outlast (ch % 256);
      outlast = s.outlast + 1;
      outcount = (s.outcount + 1) % 0x1_0000_0000;
    }
    else (let (old, s') =
          sio_enable sio_tx (record s { sending = true; wire = s.wire ++ (ch % 256) ∷ [] }) in
        s')

pub sio_writec : ℕ → Sio → Sio
unfolding send
sio_writec ch s = send ch (if ch == b'\n' then send b'\r' s else s)

-- `*outlast++ = c`, with the wrap-around that sio_write makes.
pub append_output : ℕ → Sio → Sio
append_output c s = record s {
  outbuffer = store s.outbuffer s.outlast c;
  outlast = if leb buf_size (s.outlast + 1) then 0 else s.outlast + 1;
  outcount = s.outcount + 1;
}

-- The loop of sio_write from the character `copied` on, for the rounds that are left.
pub write_loop : (ℕ → ℕ) → ℕ → ℕ → Sio → ℕ × Sio
unfolding append_output
write_loop buffer zero copied s = (copied, s)
write_loop buffer (suc rounds) copied s = elim (ltb s.outcount buf_size) [
  | true ↦ write_loop buffer rounds (copied + 1) (append_output (buffer copied) s)
  | false ↦ (copied, s)
]

-- The first component is the return value. `buffer i` is the i-th character of the user's buffer.
pub sio_write : (ℕ → ℕ) → ℕ → Sio → ℕ × Sio
unfolding write_loop sio_writec
sio_write buffer length s =
    let start = if s.sending then 0 else 1 in
    let (copied, s') = write_loop buffer (length - start) start s in
    (copied, if s.sending then s' else sio_writec (buffer 0) s')

-- The characters of a NUL-terminated text, and its length.
pub sio_puts : (ℕ → ℕ) → ℕ → Sio → ℕ × Sio
unfolding sio_write
sio_puts buffer n s = let (copied, s') = sio_write buffer n s in (n, s')

-- sio_isr on a received character.
pub receive : ℕ → Sio → Sio
receive c s =
    let ch = if c == b'\r' then b'\n' else c in
    if ltb s.incount buf_size
    then record s {
      inbuffer = store s.inbuffer s.inlast ch;
      inlast = s.inlast + 1;
      incount = s.incount + 1;
    }
    else s

-- sio_isr when the transmitter is empty.
pub transmit : Sio → Sio
unfolding sio_disable
transmit s =
    if s.sending && ltb 0 s.outcount
    then record s {
      wire = s.wire ++ s.outbuffer s.outnext ∷ [];
      outnext = if leb buf_size (s.outnext + 1) then 0 else s.outnext + 1;
      outcount = s.outcount - 1;
    }
    else (let (old, s') =
          sio_disable sio_tx
            (record s { outcount = 0; outlast = 0; outnext = 0; sending = false }) in
        s')
