-- ===== src/Kmem/Alloc.antt =====
-- km_page_alloc.
use os.Base.{
  ℕ, ◌+◌, ◌-◌, ◌*◌, ◌%◌, ◌≤◌, ◌<◌, ◌≡◌, refl, false, ◌&&◌, ◌||◌, Option, none, some, List, [], ◌∷◌,
  arith, ltb, ◌==◌, ok, Bool-cases, inl, inr, ltb→lt, le→ltb, Outcome, panic, out_of_fuel,
}
use os.Kmem.{
  Block, Kmem, sz_page, km_low_cutoff, km_high_cutoff, u32_mod, p2b, take_first, km_page_alloc,
}
use os.Kmem.Pool.{
  IsPool, within, covers, total_pages, IsValid, covers_below, total-bound, IsPool-weaken, end_of,
}

abbrev pub block_at : ℕ → ℕ → Block
block_at p n = record { base = p; pages = n }

-- What a successful search leaves: an ordered list, the right number of pages, and every address
-- either in the block taken or in the list, never in both.
pub record Taken (lo count : ℕ) (bs : List Block) (p : ℕ) (left : List Block) (a : ℕ) : Type 0 where
  pub above : lo ≤ p
  pub inside : p + count * sz_page ≤ km_high_cutoff
  pub pool : IsPool lo left
  pub total : total_pages bs ≡ total_pages left + count
  pub split : covers bs a ≡ (within (block_at p count) a || covers left a)
  pub apart : (within (block_at p count) a && covers left a) ≡ false

-- No block of the list has `count` pages.
abbrev pub NoFit : ℕ → List Block → Type 0
NoFit count [] = Unit {0}
NoFit count (b ∷ bs) = (b.pages < count) × NoFit count bs

abbrev Searched : ℕ → ℕ → List Block → ℕ → Option (ℕ × List Block) → Type 0
Searched lo count bs a none = NoFit count bs
Searched lo count bs a (some (p, left)) = Taken lo count bs p left a

module _ (lo count : ℕ) (b : Block) (bs : List Block) (a : ℕ) where
  Searched-cons :
      (r : Option (ℕ × List Block))
      → IsPool lo (b ∷ bs)
      → b.pages < count
      → Searched (end_of b) count bs a r
      → Searched lo count (b ∷ bs) a (elim r [ none ↦ none | some (p, left) ↦ some (p, b ∷ left) ])
  Searched-cons none pool small s = (small, s)
  Searched-cons (some (p, left)) pool small s = record {
    above = ground arith;
    inside = s.inside;
    pool = (pool.0, pool.1, s.pool);
    total = ground arith;
    split = ground arith;
    apart = ground arith;
  }

  exact-Taken : IsPool lo (b ∷ bs) → b.pages ≡ count → Taken lo count (b ∷ bs) b.base bs a
  exact-Taken pool e = record {
    above = pool.0;
    inside = ground (arith, total-bound bs (end_of b) pool.2);
    pool = IsPool-weaken lo (end_of b) bs pool.2 (ground arith);
    total = ground arith;
    split = ground arith;
    apart = ground (arith, covers_below bs (end_of b) a pool.2);
  }

  carved-Taken :
      IsPool lo (b ∷ bs)
      → 1 ≤ count
      → count < b.pages
      → Taken lo count
          (b ∷ bs)
          b.base
          (block_at ((b.base + p2b count) % u32_mod) (b.pages - count) ∷ bs)
          a
  carved-Taken pool pos big =
      let start : (b.base + p2b count) % u32_mod ≡ b.base + count * sz_page =
        omega (arith, total-bound bs (end_of b) pool.2) in
      rw start (record {
        above = pool.0;
        inside = ground (arith, total-bound bs (end_of b) pool.2);
        pool = (omega arith, omega arith, IsPool-weaken _ (end_of b) bs pool.2 (omega arith));
        total = omega arith;
        split = ground arith;
        apart = ground (arith, covers_below bs (end_of b) a pool.2);
      })

take_first-Searched :
    (bs : List Block) (lo count a : ℕ)
    → IsPool lo bs
    → 1 ≤ count
    → Searched lo count bs a (take_first count bs)
unfolding take_first
take_first-Searched [] lo count a pool pos = tt
take_first-Searched (b ∷ bs) lo count a pool pos = elim (Bool-cases (ltb b.pages count)) [
  | inl small ↦ rw small (
      Searched-cons lo count b bs a (take_first count bs) pool (ltb→lt _ _ small)
        (take_first-Searched bs (end_of b) count a pool.2 pos))
  | inr big ↦ rw big (elim (Bool-cases (b.pages == count)) [
    | inl e ↦ rw e (exact-Taken lo count b bs a pool (ground arith))
    | inr ne ↦ rw ne (carved-Taken lo count b bs a pool pos (ground arith))
  ])
]

-- What km_page_alloc comes to from the valid state `k`, seen at one address `a`.
pub record Allocated (k : Kmem) (count a p : ℕ) (k' : Kmem) : Type 0 where
  pub valid : IsValid k'
  pub pages : k.n_pages ≡ k'.n_pages + count
  pub split : covers k.free_pages a ≡ (within (block_at p count) a || covers k'.free_pages a)
  pub apart : (within (block_at p count) a && covers k'.free_pages a) ≡ false
  pub above : km_low_cutoff ≤ p
  pub inside : p + count * sz_page ≤ km_high_cutoff
  pub slices : k'.free_slices ≡ k.free_slices
  pub slice_count : k'.n_slices ≡ k.n_slices
  pub memory : k'.mem ≡ k.mem

abbrev pub AllocResult : Kmem → ℕ → ℕ → Outcome (Option ℕ × Kmem) → Type 0
AllocResult k count a (ok (none, k')) = (k' ≡ k) × NoFit count k.free_pages
AllocResult k count a (ok (some p, k')) = Allocated k count a p k'
AllocResult k count a panic = ⊥
AllocResult k count a out_of_fuel = ⊥

alloc_from :
    (k : Kmem) (count a : ℕ) (r : Option (ℕ × List Block))
    → IsValid k
    → Searched km_low_cutoff count k.free_pages a r
    → AllocResult k count a (elim r [
      | none ↦ ok (none, k)
      | some (p, left) ↦ ok (
        some p,
        record k { free_pages = left; n_pages = (k.n_pages + u32_mod - count % u32_mod) % u32_mod },
      )
    ])
alloc_from k count a none v s = (refl, s)
alloc_from k count a (some (p, left)) v s = record {
  valid = record {
    ready = v.ready;
    pool = s.pool;
    counted = omega (arith, total-bound k.free_pages km_low_cutoff v.pool, s.total, v.counted);
  };
  pages = omega (arith, total-bound k.free_pages km_low_cutoff v.pool, s.total, v.counted);
  split = s.split;
  apart = s.apart;
  above = s.above;
  inside = s.inside;
  slices = refl;
  slice_count = refl;
  memory = refl;
}

-- From a valid state, a request for at least one page does not panic. It fails only if no free
-- block has that many pages, and then changes nothing. Otherwise the state stays valid, the page
-- count falls by the request, every address that was free is in the block returned or still free,
-- never both, and slices and memory are untouched.
pub km_page_alloc_lem :
    (k : Kmem) (count a : ℕ) → IsValid k → 1 ≤ count → AllocResult k count a (km_page_alloc count k)
unfolding km_page_alloc
km_page_alloc_lem k count a v pos =
    simp (v.ready, le→ltb count 1 pos)
      (alloc_from k count a (take_first count k.free_pages) v
        (take_first-Searched k.free_pages km_low_cutoff count a v.pool pos))
