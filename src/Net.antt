-- ===== src/Net.antt =====
-- The packets of the network code: ethernet.c, ipv4.c and udp.c.
--
-- A packet's payload and the buffer that it is serialised into are two objects; each is a function
-- from the index to the byte.
pub mod Checksum
pub mod Ethernet
pub mod Ipv4
mod Tests
pub mod Udp
use os.Base.{
  ℕ, List, [], ◌∷◌, zero, suc, ◌+◌, ◌-◌, ◌≡◌, ap, ◌∙◌, arith, Bool, true, false, ◌&&◌, leb, ltb,
  ◌==◌, if◌then◌else◌, Bool-cases, inl, inr,
}
use os.Klib.Blocks.{Memory, write}

-- memcpy from the start of one object to `to` in another.
pub copy_between : ℕ → ℕ → Memory → ℕ → Memory → Memory
copy_between zero to src from mem = mem
copy_between (suc len) to src from mem =
    copy_between len (to + 1) src (from + 1) (write mem to (src from))

pub copy_between_lem :
    (len to from a : ℕ) (src mem : Memory)
    → copy_between len to src from mem a
      ≡ (if leb to a && ltb a (to + len) then src (from + (a - to)) else mem a)
unfolding copy_between
copy_between_lem zero to from a src mem = ground arith
copy_between_lem (suc len) to from a src mem =
    copy_between_lem len (to + 1) (from + 1) a src (write mem to (src from)) ∙ ground arith

-- `buffer[i] = ...` for the bytes of the list, from `i` on.
abbrev pub put_bytes : List ℕ → ℕ → Memory → Memory
put_bytes [] i buffer = buffer
put_bytes (b ∷ bs) i buffer = put_bytes bs (i + 1) (write buffer i b)
