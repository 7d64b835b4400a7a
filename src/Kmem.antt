-- ===== src/Kmem.antt =====
-- kmem.c: the page allocator and the slice allocator.
--
-- A free list is the list of its blocks in link order: the `next` field of a block is the rest of
-- the list, and NULL its end. A block's address is its `base`. The words of memory that the code
-- clears are the field `mem`.
pub mod Alloc
pub mod Coalesce
pub mod Clip
pub mod Free
pub mod Init
pub mod RoundTrip
pub mod Slices
pub mod Pool
mod Tests
use Prim.Native.Nat.{bit_and}
use os.Base.{
  ℕ, zero, suc, ◌+◌, ◌-◌, ◌*◌, ◌/◌, ◌%◌, ◌^◌, Bool, true, false, not, ◌&&◌, ◌||◌, Option, none,
  some, List, [], ◌∷◌, Outcome, ok, panic, ◌>>=◌, ◌>>◌, assert, ltb, leb, is_nil, ◌==◌,
  if◌then◌else◌,
}

abbrev pub u32_mod : ℕ
u32_mod = 0x1_0000_0000

abbrev pub u64_mod : ℕ
u64_mod = 0x1_0000_0000_0000_0000

abbrev pub sz_page : ℕ
sz_page = 0x1000

abbrev pub sz_slice : ℕ
sz_slice = 0x400

abbrev pub km_low_cutoff : ℕ
km_low_cutoff = 0x0010_0000

abbrev pub km_high_cutoff : ℕ
km_high_cutoff = 0x4000_0000

-- P2B: pages to bytes, in 32 bits.
abbrev pub p2b : ℕ → ℕ
p2b x = x * sz_page % u32_mod

-- B2P: bytes to pages.
abbrev pub b2p : ℕ → ℕ
b2p x = x / sz_page

-- `Blockinfo`, with its address.
pub record Block : Type 0 where
  pub base : ℕ
  pub pages : ℕ

-- The file's globals, and memory by word address.
pub record Kmem : Type 0 where
  pub free_pages : List Block
  pub free_slices : List ℕ
  pub n_pages : ℕ
  pub n_slices : ℕ
  pub initialized : Bool
  pub mem : ℕ → ℕ

-- Whether the second block immediately follows the first.
pub adjacent : Block → Block → Bool
adjacent first second = ((first.base + p2b first.pages) % u32_mod) == second.base

-- The loop of add_block, and the links that it makes.
pub add_walk : Block → List Block → List Block
add_walk block [] = block ∷ []
add_walk block (curr ∷ rest) =
    if ltb curr.base block.base then curr ∷ add_walk block rest else block ∷ curr ∷ rest

-- The two ways in which add_block links the new block: into an empty list, and into one that is not.
pub link_block : Block → List Block → Kmem → Kmem
unfolding add_walk
link_block block [] k = record k { free_pages = block ∷ []; n_pages = block.pages }
link_block block (b ∷ bs) k = record k {
  free_pages = add_walk block (b ∷ bs);
  n_pages = (k.n_pages + block.pages) % u32_mod;
}

pub add_block : ℕ → ℕ → Kmem → Kmem
unfolding link_block
add_block base length k =
    if ltb length sz_page
    then k
    else link_block (record { base = base; pages = b2p (length / 0x1000 * 0x1000) }) k.free_pages k

-- A region descriptor of the BIOS memory map.
pub record Region : Type 0 where
  pub base : ℕ
  pub length : ℕ
  pub type : ℕ
  pub acpi : ℕ

abbrev pub region_usable : ℕ
region_usable = 1

-- km_init's test of the low cutoff, and the base and length that it leaves.
clip_low : ℕ → ℕ → Option (ℕ × ℕ)
clip_low base endpt =
    if ltb base km_low_cutoff || ltb endpt km_low_cutoff
    then if ltb endpt km_low_cutoff
      then none
      else some (km_low_cutoff, (endpt + u64_mod - km_low_cutoff) % u64_mod)
    else some (base, (endpt + u64_mod - base) % u64_mod)

-- The part of a region that km_init keeps, as two 64-bit numbers; `none` for a region it ignores.
pub clip : Region → Option (ℕ × ℕ)
unfolding clip_low
clip r =
    let endpt = (r.base + r.length) % u64_mod in
    if bit_and r.acpi 1 == 0
    then none
    else if not (bit_and r.acpi 2 == 0)
    then none
    else if not (r.type == region_usable)
    then none
    else if leb km_high_cutoff r.base || leb km_high_cutoff endpt
    then if ltb km_high_cutoff r.base then none else clip_low r.base km_high_cutoff
    else clip_low r.base endpt

-- The body of km_init's loop.
pub add_region : Region → Kmem → Kmem
add_region r k = elim (clip r) [
  | none ↦ k
  | some (base, length) ↦ add_block (base % u32_mod) (length % u32_mod) k
]

pub add_regions : List Region → Kmem → Kmem
add_regions [] k = k
add_regions (r ∷ rs) k = add_regions rs (add_region r k)

-- The allocator before km_init has looked at the memory map.
pub blank : (ℕ → ℕ) → Kmem
blank mem = record {
  free_pages = [];
  free_slices = [];
  n_pages = 0;
  n_slices = 0;
  initialized = false;
  mem = mem;
}

-- km_init, on the regions that the BIOS reported (none, when its count is below one). The
-- memory that it finds is `mem`.
pub km_init : List Region → (ℕ → ℕ) → Kmem
unfolding blank add_regions
km_init [] mem = blank mem
km_init (r ∷ rs) mem = record (add_regions (r ∷ rs) (blank mem)) { initialized = true }

-- The search of km_page_alloc and the relinking: the block found, and the list that is left.
pub take_first : ℕ → List Block → Option (ℕ × List Block)
take_first count [] = none
take_first count (block ∷ rest) =
    let found = take_first count rest in
    if ltb block.pages count
    then elim found [ none ↦ none | some (p, left) ↦ some (p, block ∷ left) ]
    else if block.pages == count
    then some (block.base, rest)
    else some (
      block.base,
      record { base = (block.base + p2b count) % u32_mod; pages = block.pages - count } ∷ rest,
    )

-- The result is the address of the block, or `none` for NULL.
pub km_page_alloc : ℕ → Kmem → Outcome (Option ℕ × Kmem)
unfolding take_first
km_page_alloc count k = do
  assert k.initialized
  if ltb count 1 then ok (none, k) else elim (take_first count k.free_pages) [
    | none ↦ ok (none, k)
    | some (p, left) ↦ ok (
      some p,
      record k { free_pages = left; n_pages = (k.n_pages + u32_mod - count % u32_mod) % u32_mod },
    )
  ]

-- The last part of km_page_free_multi: link `used` before `curr`, merging the two if adjacent.
pub join_next : Block → List Block → List Block
unfolding adjacent
join_next used [] = used ∷ []
join_next used (curr ∷ rest) =
    if adjacent used curr
    then record used { pages = (used.pages + curr.pages) % u32_mod } ∷ rest
    else used ∷ curr ∷ rest

-- The part before: merge `used` with its predecessor if adjacent, else link it behind.
pub join_prev : Block → Block → List Block → List Block
unfolding join_next
join_prev prev used rest =
    if adjacent prev used
    then join_next (record prev { pages = (prev.pages + used.pages) % u32_mod }) rest
    else prev ∷ join_next used rest

-- The loop, with a predecessor and without one.
pub free_after : Block → Block → List Block → List Block
unfolding join_prev
free_after used prev [] = join_prev prev used []
free_after used prev (curr ∷ rest) =
    if ltb curr.base used.base
    then prev ∷ free_after used curr rest
    else join_prev prev used (curr ∷ rest)

pub free_walk : Block → List Block → List Block
unfolding free_after
free_walk used [] = join_next used []
free_walk used (curr ∷ rest) =
    if ltb curr.base used.base then free_after used curr rest else join_next used (curr ∷ rest)

pub km_page_free_multi : Option ℕ → ℕ → Kmem → Outcome (Kmem)
unfolding free_walk
km_page_free_multi block count k = do
  assert k.initialized
  elim block [
    | none ↦ ok k
    | some p ↦ ok (record k {
      free_pages = free_walk (record { base = p; pages = count }) k.free_pages;
      n_pages = (k.n_pages + count) % u32_mod;
    })
  ]

pub km_page_free : Option ℕ → Kmem → Outcome Kmem
unfolding km_page_free_multi
km_page_free none k = ok k
km_page_free (some p) k = km_page_free_multi (some p) 1 k

pub km_slice_free : ℕ → Kmem → Outcome Kmem
km_slice_free slice k = do
  assert k.initialized
  ok (record k { free_slices = slice ∷ k.free_slices; n_slices = (k.n_slices + 1) % u32_mod })

-- The loop of carve_slices, for the rounds that are left.
pub carve_loop : ℕ → ℕ → Kmem → Outcome Kmem
unfolding km_slice_free
carve_loop zero ptr k = ok k
carve_loop (suc n) ptr k = km_slice_free ptr k >>= λ k'.
    carve_loop n ((ptr + sz_slice) % u32_mod) (record k' { n_slices = (k'.n_slices + 1) % u32_mod })

pub carve_slices : Kmem → Outcome Kmem
unfolding km_page_alloc carve_loop
carve_slices k =
    km_page_alloc 1 k >>= λ r. elim r.0 [ none ↦ panic | some page ↦ carve_loop 4 page r.1 ]

-- memclr on whole words: the words at `base` up to `base + len`.
pub clear_words : ℕ → ℕ → (ℕ → ℕ) → ℕ → ℕ
clear_words base len mem a = if leb base a && ltb a (base + len) then 0 else mem a

-- Taking the first slice of the free list.
pub take_slice : List ℕ → Kmem → Outcome (ℕ × Kmem)
unfolding clear_words
take_slice [] k = panic
take_slice (slice ∷ rest) k = ok (
  slice,
  record k {
    free_slices = rest;
    n_slices = (k.n_slices + u32_mod - 1) % u32_mod;
    mem = clear_words slice sz_slice k.mem;
  },
)

pub pop_slice : Kmem → Outcome (ℕ × Kmem)
unfolding take_slice
pop_slice k = take_slice k.free_slices k

pub km_slice_alloc : Kmem → Outcome (ℕ × Kmem)
unfolding pop_slice
km_slice_alloc k = do
  assert k.initialized
  if is_nil k.free_slices then carve_slices k >>= pop_slice else pop_slice k
