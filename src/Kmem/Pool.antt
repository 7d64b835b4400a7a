-- ===== src/Kmem/Pool.antt =====
-- The free page list of kmem.c as a set of page addresses: what it covers, how many pages it
-- holds, and when it is in order.
use os.Base.{
  ℕ, ◌+◌, ◌*◌, ◌≤◌, ◌<◌, ◌≡◌, ◌⊎◌, refl, Bool, true, false, ◌&&◌, ◌||◌, List, [], ◌∷◌, arith, ltb,
  leb,
}
use os.Kmem.{Block, Kmem, sz_page, km_low_cutoff, km_high_cutoff}

-- The first address behind a block.
abbrev pub end_of : Block → ℕ
end_of b = b.base + b.pages * sz_page

-- The blocks lie at `lo` or above in ascending order, none overlaps the next, none is empty, and
-- the last ends at the high cutoff at most.
abbrev pub IsPool : ℕ → List Block → Type 0
IsPool lo [] = lo ≤ km_high_cutoff
IsPool lo (b ∷ bs) = (lo ≤ b.base) × (1 ≤ b.pages) × IsPool (end_of b) bs

-- Whether an address lies in the block.
abbrev pub within : Block → ℕ → Bool
within b a = leb b.base a && ltb a (end_of b)

abbrev pub covers : List Block → ℕ → Bool
covers [] a = false
covers (b ∷ bs) a = within b a || covers bs a

abbrev pub total_pages : List Block → ℕ
total_pages [] = 0
total_pages (b ∷ bs) = b.pages + total_pages bs

-- A block that overlaps no block of the list.
abbrev pub Apart : Block → List Block → Type 0
Apart u [] = Unit {0}
Apart u (b ∷ bs) = ((end_of u ≤ b.base) ⊎ (end_of b ≤ u.base)) × Apart u bs

pub record IsValid (k : Kmem) : Type 0 where
  pub ready : k.initialized ≡ true
  pub pool : IsPool km_low_cutoff k.free_pages
  pub counted : k.n_pages ≡ total_pages k.free_pages

pub IsPool-weaken : (lo' lo : ℕ) (bs : List Block) → IsPool lo bs → lo' ≤ lo → IsPool lo' bs
IsPool-weaken lo' lo [] h le = omega arith
IsPool-weaken lo' lo (b ∷ bs) h le = (omega arith, h.1, h.2)

-- The pages of an ordered list fit between its lower end and the cutoff.
pub total-bound :
    (bs : List Block) (lo : ℕ) → IsPool lo bs → lo + total_pages bs * sz_page ≤ km_high_cutoff
total-bound [] lo h = omega arith
total-bound (b ∷ bs) lo h = omega (arith, total-bound bs (end_of b) h.2)

pub covers_below : (bs : List Block) (lo a : ℕ) → IsPool lo bs → a < lo → covers bs a ≡ false
covers_below [] lo a h lt = refl
covers_below (b ∷ bs) lo a h lt = ground (arith, covers_below bs (end_of b) a h.2)
