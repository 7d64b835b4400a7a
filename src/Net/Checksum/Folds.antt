-- ===== src/Net/Checksum/Folds.antt =====
-- The sum and its folding against the sum of all words.
use os.Base.{
  ap, ◌∙◌, ◌⊎◌, ℕ, zero, suc, ◌+◌, ◌-◌, ◌*◌, ◌/◌, ◌%◌, ◌≤◌, ◌<◌, ◌≡◌, refl, true, false, arith,
  Outcome, ok, panic, out_of_fuel, ◌>>=◌, ltb, ◌==◌, Bool-cases, inl, inr,
}
use os.Klib.Blocks.{Memory}
use os.Klib.Numbers.{u32_mod}
use os.Net.Checksum.{word, sum_words, fold, ipv4_calculate_checksum}

-- One's complement: the same modulo 0xffff, and 0 only for 0.
pub record Folded (sum r : ℕ) : Type 0 where
  pub fits : r < 0x1_0000
  pub value : r % 0xffff ≡ sum % 0xffff
  pub zero_only : (1 ≤ r) ⊎ (sum ≡ 0)

fold_round : (sum : ℕ) → (sum % 0x1_0000 + sum / 0x1_0000) % 0xffff ≡ sum % 0xffff
fold_round sum = omega arith

-- What the loop comes to.
abbrev pub FoldedTo : ℕ → Outcome ℕ → Type 0
FoldedTo sum (ok r) = Folded sum r
FoldedTo sum panic = ⊥
FoldedTo sum out_of_fuel = ⊥

fold_done : (fuel sum : ℕ) → sum < 0x1_0000 → FoldedTo sum (fold (suc fuel) sum)
unfolding fold
fold_done fuel sum small =
    let e : (sum / 0x1_0000 == 0) ≡ true = ground arith in
    rw (e, FoldedTo) (record { fits = small; value = refl; zero_only = omega arith })

FoldedTo-back :
    (sum next : ℕ) (r : Outcome ℕ)
    → next % 0xffff ≡ sum % 0xffff
    → (1 ≤ next) ⊎ (sum ≡ 0)
    → FoldedTo next r
    → FoldedTo sum r
FoldedTo-back sum next (ok r) e z f = record {
  fits = f.fits;
  value = f.value ∙ e;
  zero_only = omega (arith, z, f.zero_only);
}
FoldedTo-back sum next panic e z f = f
FoldedTo-back sum next out_of_fuel e z f = f

-- One round brings a sum under `bound` to one for which fewer rounds are enough.
fold_step :
    (fuel sum : ℕ)
    → 0x1_0000 ≤ sum
    → FoldedTo (sum % 0x1_0000 + sum / 0x1_0000) (fold fuel (sum % 0x1_0000 + sum / 0x1_0000))
    → FoldedTo sum (fold (suc fuel) sum)
unfolding fold
fold_step fuel sum large f =
    let e : (sum / 0x1_0000 == 0) ≡ false = ground arith in
    rw (e, fold)
      (FoldedTo-back sum (sum % 0x1_0000 + sum / 0x1_0000)
        (fold fuel (sum % 0x1_0000 + sum / 0x1_0000)) (fold_round sum) (omega arith) f)

fold_upto :
    (fuel sum limit : ℕ)
    → ((next : ℕ) → next < limit → FoldedTo next (fold fuel next))
    → sum % 0x1_0000 + sum / 0x1_0000 < limit
    → FoldedTo sum (fold (suc fuel) sum)
fold_upto fuel sum limit h small = elim (Bool-cases (ltb sum 0x1_0000)) [
  | inl done ↦ fold_done fuel sum (ground arith)
  | inr large ↦ fold_step fuel sum (ground arith) (h (sum % 0x1_0000 + sum / 0x1_0000) small)
]

pub fold_lem : (sum : ℕ) → sum < u32_mod → FoldedTo sum (fold 3 sum)
fold_lem sum fits =
    fold_upto 2 sum 0x1_ffff
      (λ s small. fold_upto 1 s 0x1_0000 (λ t tiny. fold_done 0 t tiny) (omega arith)) (omega arith)

-- The words of a block of bytes, without any wrap-around; an odd byte is a word of its own.
abbrev pub words : Memory → ℕ → ℕ → ℕ
words mem ptr zero = 0
words mem ptr (suc zero) = mem ptr
words mem ptr (suc (suc len)) = word mem ptr + words mem (ptr + 2) len

abbrev pub AreBytes : Memory → Type 0
AreBytes mem = (a : ℕ) → mem a < 256

pub words_bound : (mem : Memory) (ptr len : ℕ) → AreBytes mem → words mem ptr len ≤ 0x8000 * len
words_bound mem ptr zero b = omega arith
words_bound mem ptr (suc zero) b = omega (arith, b ptr)
words_bound mem ptr (suc (suc len)) b =
    omega (arith, b ptr, b (ptr + 1), words_bound mem (ptr + 2) len b)

pub sum_words_lem :
    (len ptr : ℕ) (mem : Memory) (sum : ℕ)
    → AreBytes mem
    → sum + 0x8000 * len < u32_mod
    → sum_words len ptr mem sum ≡ sum + words mem ptr len
unfolding sum_words
sum_words_lem zero ptr mem sum b fits = omega arith
sum_words_lem (suc zero) ptr mem sum b fits = omega (arith, b ptr)
sum_words_lem (suc (suc len)) ptr mem sum b fits =
    let e : (sum + word mem ptr) % u32_mod ≡ sum + word mem ptr =
      omega (arith, b ptr, b (ptr + 1)) in
    ap (sum_words len (ptr + 2) mem) e
    ∙ sum_words_lem len (ptr + 2) mem (sum + word mem ptr) b (omega (arith, b ptr, b (ptr + 1)))
    ∙ omega arith

-- With the checksum, the words come to 0 in one's complement.
abbrev pub Completes : ℕ → Outcome ℕ → Type 0
Completes sum (ok c) = (c < 0x1_0000) × ((sum + c) % 0xffff ≡ 0)
Completes sum panic = ⊥
Completes sum out_of_fuel = ⊥

complement : (sum : ℕ) (r : Outcome ℕ) → FoldedTo sum r → Completes sum (r >>= λ s. ok (0xffff - s))
complement sum (ok r) f = (omega arith, omega (arith, f.fits, f.value))
complement sum panic f = f
complement sum out_of_fuel f = f

-- The checksum of at most 65536 bytes: the loops end, and the words of the block and the checksum
-- add up to 0 in one's complement, that is modulo 0xffff.
pub ipv4_calculate_checksum_lem :
    (mem : Memory) (header length : ℕ)
    → AreBytes mem
    → length ≤ 0x1_0000
    → Completes (words mem header length) (ipv4_calculate_checksum mem header length)
unfolding ipv4_calculate_checksum
ipv4_calculate_checksum_lem mem header length b short =
    let e : sum_words length header mem 0 ≡ words mem header length =
      sum_words_lem length header mem 0 b (omega arith) ∙ omega arith in
    rw e (
      complement (words mem header length) (fold 3 (words mem header length))
        (fold_lem (words mem header length) (omega (arith, words_bound mem header length b))))
