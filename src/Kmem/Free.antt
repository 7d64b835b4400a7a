-- ===== src/Kmem/Free.antt =====
-- km_page_free_multi.
use os.Base.{
  ℕ, ◌+◌, ◌*◌, ◌%◌, ◌≤◌, ◌≡◌, refl, true, false, ◌||◌, some, List, [], ◌∷◌, arith, ltb, ◌==◌, ok,
  panic, out_of_fuel, Outcome, Bool-cases, inl, inr, ◌⊎◌,
}
use os.Kmem.{
  Block, Kmem, sz_page, km_low_cutoff, km_high_cutoff, u32_mod, adjacent, join_next, join_prev,
  free_after, free_walk, km_page_free_multi,
}
use os.Kmem.Pool.{
  IsPool, within, covers, total_pages, IsValid, total-bound, IsPool-weaken, end_of, Apart,
}
use os.Kmem.Alloc.{block_at}

-- What freeing `u` into `bs` leaves in `out`: an ordered list with the pages of both, and every
-- address covered by either.
pub record Freed (lo : ℕ) (u : Block) (bs out : List Block) (a : ℕ) : Type 0 where
  pub pool : IsPool lo out
  pub total : total_pages out ≡ u.pages + total_pages bs
  pub split : covers out a ≡ (within u a || covers bs a)

-- Two blocks in order are adjacent exactly if the first ends where the second begins.
pub adjacent_lem :
    (b c : Block)
    → end_of b ≤ c.base
    → c.base ≤ km_high_cutoff
    → adjacent b c ≡ (end_of b == c.base)
unfolding adjacent
adjacent_lem b c le top = ground arith

-- Joining with the successor, where the block is followed by an ordered list.
join_next-Freed :
    (lo : ℕ) (u : Block) (a : ℕ) (rest : List Block)
    → lo ≤ u.base
    → 1 ≤ u.pages
    → IsPool (end_of u) rest
    → Freed lo u rest (join_next u rest) a
unfolding join_next
join_next-Freed lo u a [] above pos pool = record {
  pool = (above, pos, pool);
  total = refl;
  split = refl;
}
join_next-Freed lo u a (c ∷ rest) above pos pool =
    rw (adjacent_lem u c pool.0 (omega (arith, total-bound rest (end_of c) pool.2)))
      (elim (Bool-cases (end_of u == c.base)) [
        | inl e ↦ rw e (merged (ground arith))
        | inr ne ↦ rw ne (record { pool = (above, pos, pool); total = refl; split = refl })
      ])
  where
    sum : (u.pages + c.pages) % u32_mod ≡ u.pages + c.pages
    sum = omega (arith, total-bound rest (end_of c) pool.2)

    merged :
        end_of u ≡ c.base
        → Freed lo u (c ∷ rest) (record u { pages = (u.pages + c.pages) % u32_mod } ∷ rest) a
    merged e = rw sum (record {
      pool = (above, omega arith, IsPool-weaken _ (end_of c) rest pool.2 (omega arith));
      total = omega arith;
      split = ground arith;
    })

-- Joining with the predecessor too.
join_prev-Freed :
    (lo : ℕ) (u : Block) (a : ℕ) (prev : Block) (rest : List Block)
    → IsPool lo (prev ∷ rest)
    → 1 ≤ u.pages
    → end_of prev ≤ u.base
    → IsPool (end_of u) rest
    → Freed lo u (prev ∷ rest) (join_prev prev u rest) a
unfolding join_prev
join_prev-Freed lo u a prev rest pool pos le behind =
    rw (adjacent_lem prev u le (omega (arith, total-bound rest (end_of u) behind)))
      (elim (Bool-cases (end_of prev == u.base)) [
        | inl e ↦ rw e (merged (ground arith))
        | inr ne ↦ rw ne (apart (join_next-Freed (end_of prev) u a rest le pos behind))
      ])
  where
    sum : (prev.pages + u.pages) % u32_mod ≡ prev.pages + u.pages
    sum = omega (arith, total-bound rest (end_of u) behind)

    apart :
        Freed (end_of prev) u rest (join_next u rest) a
        → Freed lo u (prev ∷ rest) (prev ∷ join_next u rest) a
    apart f = record {
      pool = (pool.0, pool.1, f.pool);
      total = omega (arith, f.total);
      split = ground (arith, f.split);
    }

    grown : Block
    grown = record prev { pages = prev.pages + u.pages }

    widen :
        end_of prev ≡ u.base
        → Freed lo grown rest (join_next grown rest) a
        → Freed lo u (prev ∷ rest) (join_next grown rest) a
    widen e f = record {
      pool = f.pool;
      total = omega (arith, f.total);
      split = ground (arith, f.split);
    }

    merged :
        end_of prev ≡ u.base
        → Freed lo u
            (prev ∷ rest)
            (join_next (record prev { pages = (prev.pages + u.pages) % u32_mod }) rest)
            a
    merged e = rw sum (
        widen e (
          join_next-Freed lo grown a rest pool.0 (omega arith)
            (IsPool-weaken _ (end_of u) rest behind (omega arith))))

-- Behind the point where the search stops, the list starts at the end of the freed block or later.
pub behind :
    (u : Block) (c : Block) (rest : List Block)
    → Apart u (c ∷ rest)
    → 1 ≤ c.pages
    → ltb c.base u.base ≡ false
    → IsPool (end_of c) rest
    → IsPool (end_of u) (c ∷ rest)
behind u c rest away pos stop pool = (ground arith, pos, pool)

-- A block passed by the search ends where the freed block begins, or before.
pub before :
    (u : Block) (c : Block)
    → ((end_of u ≤ c.base) ⊎ (end_of c ≤ u.base))
    → ltb c.base u.base ≡ true
    → end_of c ≤ u.base
before u c away pass = ground arith

pub Freed-cons :
    (lo : ℕ) (u : Block) (a : ℕ) (prev : Block) (rest out : List Block)
    → lo ≤ prev.base
    → 1 ≤ prev.pages
    → Freed (end_of prev) u rest out a
    → Freed lo u (prev ∷ rest) (prev ∷ out) a
Freed-cons lo u a prev rest out above pos f = record {
  pool = (above, pos, f.pool);
  total = omega (arith, f.total);
  split = ground (arith, f.split);
}

free_after-Freed :
    (rest : List Block) (lo : ℕ) (u : Block) (a : ℕ) (prev : Block)
    → IsPool lo (prev ∷ rest)
    → Apart u rest
    → end_of prev ≤ u.base
    → 1 ≤ u.pages
    → end_of u ≤ km_high_cutoff
    → Freed lo u (prev ∷ rest) (free_after u prev rest) a
unfolding free_after
free_after-Freed [] lo u a prev pool away le pos top =
    join_prev-Freed lo u a prev [] pool pos le top
free_after-Freed (c ∷ rest) lo u a prev pool away le pos top =
    elim (Bool-cases (ltb c.base u.base)) [
      | inl pass ↦ rw pass (
          Freed-cons lo u a prev (c ∷ rest) (free_after u c rest) pool.0 pool.1 (
            free_after-Freed rest (end_of prev) u a c pool.2 away.1 (before u c away.0 pass) pos
              top))
      | inr stop ↦ rw stop (
          join_prev-Freed lo u a prev (c ∷ rest) pool pos le
            (behind u c rest away pool.2.1 stop pool.2.2))
    ]

free_walk-Freed :
    (bs : List Block) (lo : ℕ) (u : Block) (a : ℕ)
    → IsPool lo bs
    → Apart u bs
    → lo ≤ u.base
    → 1 ≤ u.pages
    → end_of u ≤ km_high_cutoff
    → Freed lo u bs (free_walk u bs) a
unfolding free_walk
free_walk-Freed [] lo u a pool away above pos top = join_next-Freed lo u a [] above pos top
free_walk-Freed (c ∷ rest) lo u a pool away above pos top = elim (Bool-cases (ltb c.base u.base)) [
  | inl pass ↦ rw pass (free_after-Freed rest lo u a c pool away.1 (before u c away.0 pass) pos top)
  | inr stop ↦
      rw stop
        (join_next-Freed lo u a (c ∷ rest) above pos (behind u c rest away pool.1 stop pool.2))
]

-- What km_page_free_multi comes to from the valid state `k`, seen at one address `a`.
pub record Released (k : Kmem) (p count a : ℕ) (k' : Kmem) : Type 0 where
  pub valid : IsValid k'
  pub pages : k'.n_pages ≡ k.n_pages + count
  pub split : covers k'.free_pages a ≡ (within (block_at p count) a || covers k.free_pages a)
  pub slices : k'.free_slices ≡ k.free_slices
  pub memory : k'.mem ≡ k.mem

abbrev pub FreeResult : Kmem → ℕ → ℕ → ℕ → Outcome Kmem → Type 0
FreeResult k p count a (ok k') = Released k p count a k'
FreeResult k p count a panic = ⊥
FreeResult k p count a out_of_fuel = ⊥

-- Freeing a block that lies between the cutoffs and overlaps no free block does not panic: the state
-- stays valid, the page count grows by the block's pages, exactly the addresses of the block
-- become free besides those that were, and slices and memory are untouched.
pub km_page_free_multi_lem :
    (k : Kmem) (p count a : ℕ)
    → IsValid k
    → 1 ≤ count
    → km_low_cutoff ≤ p
    → p + count * sz_page ≤ km_high_cutoff
    → Apart (block_at p count) k.free_pages
    → FreeResult k p count a (km_page_free_multi (some p) count k)
unfolding km_page_free_multi
km_page_free_multi_lem k p count a v pos low top away =
    let f =
      free_walk-Freed k.free_pages km_low_cutoff (block_at p count) a v.pool away low pos top in
    let fits : total_pages (free_walk (block_at p count) k.free_pages) * sz_page ≤ km_high_cutoff =
      omega (arith, total-bound (free_walk (block_at p count) k.free_pages) km_low_cutoff f.pool) in
    simp v.ready (record {
      valid = record {
        ready = refl;
        pool = f.pool;
        counted = omega (arith, v.counted, f.total, fits);
      };
      pages = omega (arith, v.counted, f.total, fits);
      split = f.split;
      slices = refl;
      memory = refl;
    })
