-- ===== src/Net/Checksum.antt =====
-- The Internet checksum, as ipv4.c and udp.c compute it.
--
-- A pointer to 16-bit words reads two bytes, the low one first.
pub mod Folds
use os.Base.{
  ℕ, zero, suc, ◌+◌, ◌-◌, ◌*◌, ◌/◌, ◌%◌, Outcome, ok, out_of_fuel, ◌>>=◌, true, false, ltb, ◌==◌,
  if◌then◌else◌,
}
use os.Klib.Blocks.{Memory}
use os.Klib.Numbers.{u32_mod}

abbrev pub word : Memory → ℕ → ℕ
word mem ptr = mem ptr + 256 * mem (ptr + 1)

-- `while (len > 1) { sum += *ptr++; len -= 2; }` and the byte that is left, if one is.
pub sum_words : ℕ → ℕ → Memory → ℕ → ℕ
sum_words zero ptr mem sum = sum
sum_words (suc zero) ptr mem sum = (sum + mem ptr) % u32_mod
sum_words (suc (suc len)) ptr mem sum = sum_words len (ptr + 2) mem ((sum + word mem ptr) % u32_mod)

-- `while (sum >> 16)`, on fuel.
pub fold : ℕ → ℕ → Outcome ℕ
fold zero sum = out_of_fuel
fold (suc fuel) sum = elim (sum / 0x1_0000 == 0) [
  | true ↦ ok sum
  | false ↦ fold fuel (sum % 0x1_0000 + sum / 0x1_0000)
]

-- Three rounds are enough for 32 bits. The result is `~sum`, on 16 bits.
pub ipv4_calculate_checksum : Memory → ℕ → ℕ → Outcome ℕ
unfolding sum_words fold
ipv4_calculate_checksum mem header length =
    fold 3 (sum_words length header mem 0) >>= λ sum. ok (0xffff - sum)
