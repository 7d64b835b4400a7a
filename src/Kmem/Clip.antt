-- ===== src/Kmem/Clip.antt =====
-- Which addresses km_init takes from one region of the memory map.
use Prim.Native.Nat.{bit_and}
use os.Base.{
  ℕ, ◌+◌, ◌<◌, ◌≤◌, ◌≡◌, Bool, false, not, ◌&&◌, Option, none, some, arith, ltb, leb, ◌==◌,
}
use os.Kmem.{Region, u64_mod, km_low_cutoff, km_high_cutoff, region_usable, clip}

abbrev pub in_part : Option (ℕ × ℕ) → ℕ → Bool
in_part none a = false
in_part (some (base, length)) a = leb base a && ltb a (base + length)

-- Not ignored, not non-volatile, and of the usable type.
abbrev pub eligible : Region → Bool
eligible r = not (bit_and r.acpi 1 == 0) && (bit_and r.acpi 2 == 0) && (r.type == region_usable)

-- From a region that does not wrap round 2^64, km_init keeps exactly the addresses between the low
-- cutoff and the high cutoff, and keeps them only if the region is eligible.
pub clip-in_part :
    (r : Region) (a : ℕ)
    → r.base + r.length < u64_mod
    → in_part (clip r) a ≡ (
        eligible r
        && ((leb r.base a && ltb a (r.base + r.length))
            && (leb km_low_cutoff a && ltb a km_high_cutoff)))
unfolding clip
clip-in_part r a small = ground arith

-- What is kept lies between the cutoffs and inside the region.
pub record Kept (r : Region) (base length : ℕ) : Type 0 where
  pub low : km_low_cutoff ≤ base
  pub high : base + length ≤ km_high_cutoff
  pub from : r.base ≤ base
  pub upto : base + length ≤ r.base + r.length

pub clip-Kept :
    (r : Region) (base length : ℕ)
    → r.base + r.length < u64_mod
    → clip r ≡ some (base, length)
    → Kept r base length
unfolding clip
clip-Kept r base length small e = ground arith
