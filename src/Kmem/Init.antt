-- ===== src/Kmem/Init.antt =====
-- add_block and km_init.
use os.Base.{
  ℕ, ◌+◌, ◌%◌, ◌≤◌, ◌<◌, ◌≡◌, refl, List, [], ◌∷◌, arith, ltb, Bool-cases, inl, inr, ◌⊎◌,
  Option-cases,
}
use os.Kmem.{
  Block, Kmem, Region, sz_page, km_low_cutoff, km_high_cutoff, u32_mod, u64_mod, clip, add_walk,
  link_block, add_block, add_region, add_regions, km_init, blank,
}
use os.Kmem.Pool.{IsPool, total_pages, IsValid, total-bound, end_of, Apart}
use os.Kmem.Clip.{clip-Kept}
use os.Kmem.Free.{Freed, Freed-cons, before, behind}

add_walk-Freed :
    (bs : List Block) (lo : ℕ) (u : Block) (a : ℕ)
    → IsPool lo bs
    → Apart u bs
    → lo ≤ u.base
    → 1 ≤ u.pages
    → end_of u ≤ km_high_cutoff
    → Freed lo u bs (add_walk u bs) a
unfolding add_walk
add_walk-Freed [] lo u a pool away above pos top = record {
  pool = (above, pos, top);
  total = refl;
  split = refl;
}
add_walk-Freed (c ∷ rest) lo u a pool away above pos top = elim (Bool-cases (ltb c.base u.base)) [
  | inl pass ↦ rw pass (
      Freed-cons lo u a c rest (add_walk u rest) pool.0 pool.1
        (add_walk-Freed rest (end_of c) u a pool.2 away.1 (before u c away.0 pass) pos top))
  | inr stop ↦ rw stop (record {
    pool = (above, pos, behind u c rest away pool.1 stop pool.2);
    total = refl;
    split = refl;
  })
]

-- A range of addresses, from the first up to the second, that touches no block of the list.
abbrev Clear : ℕ → ℕ → List Block → Type 0
Clear s e [] = Unit {0}
Clear s e (b ∷ bs) = ((e ≤ b.base) ⊎ (end_of b ≤ s)) × Clear s e bs

Clear-Apart :
    (s e : ℕ) (u : Block) (bs : List Block) → Clear s e bs → s ≤ u.base → end_of u ≤ e → Apart u bs
Clear-Apart s e u [] c lo hi = tt
Clear-Apart s e u (b ∷ bs) c lo hi = (ground arith, Clear-Apart s e u bs c.1 lo hi)

Clear-add_walk :
    (s e : ℕ) (u : Block) (bs : List Block)
    → Clear s e bs
    → (e ≤ u.base) ⊎ (end_of u ≤ s)
    → Clear s e (add_walk u bs)
unfolding add_walk
Clear-add_walk s e u [] c away = (away, tt)
Clear-add_walk s e u (b ∷ bs) c away = elim (Bool-cases (ltb b.base u.base)) [
  | inl pass ↦ rw pass (c.0, Clear-add_walk s e u bs c.1 away)
  | inr stop ↦ rw stop (away, c)
]

-- The part of the state that holds while km_init runs.
record Pooled (k : Kmem) : Type 0 where
  pool : IsPool km_low_cutoff k.free_pages
  counted : k.n_pages ≡ total_pages k.free_pages

-- What adding a block inside a clear range of the list `bs` does.
record Added (s e : ℕ) (bs : List Block) (k' : Kmem) : Type 0 where
  pooled : Pooled k'
  keeps : (s' e' : ℕ) → (e ≤ s') ⊎ (e' ≤ s) → Clear s' e' bs → Clear s' e' k'.free_pages

link_block-Added :
    (bs : List Block) (u : Block) (s e : ℕ) (k : Kmem)
    → IsPool km_low_cutoff bs
    → k.n_pages ≡ total_pages bs
    → Clear s e bs
    → s ≤ u.base
    → end_of u ≤ e
    → km_low_cutoff ≤ u.base
    → 1 ≤ u.pages
    → end_of u ≤ km_high_cutoff
    → Added s e bs (link_block u bs k)
unfolding link_block
link_block-Added [] u s e k pool counted c lo hi above pos top = record {
  pooled = record { pool = (above, pos, top); counted = omega arith };
  keeps = λ s' e' away c'. (ground arith, tt);
}
link_block-Added (b ∷ bs) u s e k pool counted c lo hi above pos top =
    let f =
      add_walk-Freed (b ∷ bs) km_low_cutoff u 0 pool (Clear-Apart s e u (b ∷ bs) c lo hi) above pos
        top in
    record {
      pooled = record {
        pool = f.pool;
        counted = omega (arith, f.total, total-bound (add_walk u (b ∷ bs)) km_low_cutoff f.pool);
      };
      keeps = λ s' e' away c'. Clear-add_walk s' e' u (b ∷ bs) c' (ground arith);
    }

Added-same : (s e : ℕ) (k : Kmem) → Pooled k → Added s e k.free_pages k
Added-same s e k p = record { pooled = p; keeps = λ s' e' away c. c }

add_block-Added :
    (s e base length : ℕ) (k : Kmem)
    → Pooled k
    → Clear s e k.free_pages
    → s ≤ base
    → base + length ≤ e
    → km_low_cutoff ≤ base
    → base + length ≤ km_high_cutoff
    → Added s e k.free_pages (add_block base length k)
unfolding add_block
add_block-Added s e base length k p c lo hi above top = elim (Bool-cases (ltb length sz_page)) [
  | inl small ↦ rw small (Added-same s e k p)
  | inr big ↦ rw big (
      link_block-Added k.free_pages _ s e k p.pool p.counted c lo (ground arith) above
        (ground arith) (ground arith))
]

abbrev pub region_end : Region → ℕ
region_end r = r.base + r.length

add_region-Added :
    (r : Region) (k : Kmem)
    → Pooled k
    → region_end r < u64_mod
    → Clear r.base (region_end r) k.free_pages
    → Added r.base (region_end r) k.free_pages (add_region r k)
unfolding add_region
add_region-Added r k p small c = elim (Option-cases (clip r)) [
  | inl e ↦ rw (e, add_region) (Added-same _ _ k p)
  | inr ((base, length), e) ↦
      let kept = clip-Kept r base length small e in
      let b : base % u32_mod ≡ base = omega (arith, kept.high) in
      let l : length % u32_mod ≡ length = omega (arith, kept.high) in
      rw (e, add_region, b, l)
        (add_block-Added _ _ base length k p c kept.from kept.upto kept.low kept.high)
]

-- A region that touches no region of the list.
abbrev pub Away : Region → List Region → Type 0
Away r [] = Unit {0}
Away r (q ∷ rs) = ((region_end r ≤ q.base) ⊎ (region_end q ≤ r.base)) × Away r rs

-- A memory map as the BIOS documents it: no region wraps round 2^64, and no two regions overlap.
abbrev pub IsMap : List Region → Type 0
IsMap [] = Unit {0}
IsMap (r ∷ rs) = (region_end r < u64_mod) × Away r rs × IsMap rs

abbrev AllClear : List Region → List Block → Type 0
AllClear [] bs = Unit {0}
AllClear (r ∷ rs) bs = Clear r.base (region_end r) bs × AllClear rs bs

AllClear-kept :
    (rs : List Region) (r : Region) (bs : List Block) (k' : Kmem)
    → Added r.base (region_end r) bs k'
    → Away r rs
    → AllClear rs bs
    → AllClear rs k'.free_pages
AllClear-kept [] r bs k' d away c = tt
AllClear-kept (q ∷ rs) r bs k' d away c =
    (d.keeps q.base (region_end q) away.0 c.0, AllClear-kept rs r bs k' d away.1 c.1)

add_regions-Pooled :
    (rs : List Region) (k : Kmem)
    → Pooled k
    → IsMap rs
    → AllClear rs k.free_pages
    → Pooled (add_regions rs k)
unfolding add_regions
add_regions-Pooled [] k p m c = p
add_regions-Pooled (r ∷ rs) k p m c =
    let d = add_region-Added r k p m.0 c.0 in
    add_regions-Pooled rs (add_region r k) d.pooled m.2
      (AllClear-kept rs r k.free_pages (add_region r k) d m.1 c.1)

AllClear-nil : (rs : List Region) → AllClear rs []
AllClear-nil [] = tt
AllClear-nil (r ∷ rs) = (tt, AllClear-nil rs)

-- From a map with at least one region, in which no region wraps and no two overlap, km_init makes
-- a valid allocator, whatever the order and the kinds of the regions: the free blocks are in
-- ascending order, between the cutoffs, disjoint, and counted.
pub km_init-IsValid :
    (r : Region) (rs : List Region) (mem : ℕ → ℕ) → IsMap (r ∷ rs) → IsValid (km_init (r ∷ rs) mem)
unfolding km_init blank
km_init-IsValid r rs mem m =
    let p =
      add_regions-Pooled (r ∷ rs) (blank mem) (record { pool = omega arith; counted = refl }) m
        (AllClear-nil (r ∷ rs)) in
    record { ready = refl; pool = p.pool; counted = p.counted }
