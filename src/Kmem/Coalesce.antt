-- ===== src/Kmem/Coalesce.antt =====
-- Coalescing: with no two free blocks adjacent, km_page_free_multi keeps it so.
use os.Base.{
  ℕ, ◌+◌, ◌*◌, ◌%◌, ◌≤◌, ◌<◌, ◌≡◌, some, List, [], ◌∷◌, arith, ltb, ◌==◌, ok, panic, out_of_fuel,
  Outcome, Bool-cases, inl, inr,
}
use os.Kmem.{
  Block, Kmem, sz_page, km_low_cutoff, km_high_cutoff, u32_mod, join_next, join_prev, free_after,
  free_walk, km_page_free_multi,
}
use os.Kmem.Pool.{IsPool, IsValid, total-bound, IsPool-weaken, end_of, Apart}
use os.Kmem.Alloc.{block_at}
use os.Kmem.Free.{adjacent_lem, before, behind}

-- Between two free blocks of the list there is a gap: the next one starts behind `e`, not at it.
abbrev pub Gap : ℕ → List Block → Type 0
Gap e [] = Unit {0}
Gap e (c ∷ rest) = (e < c.base) × Gap (end_of c) rest

abbrev pub IsCoalesced : List Block → Type 0
IsCoalesced bs = Gap 0 bs

Gap-weaken : (e e' : ℕ) (bs : List Block) → Gap e bs → e' ≤ e → Gap e' bs
Gap-weaken e e' [] g le = tt
Gap-weaken e e' (c ∷ rest) g le = (omega arith, g.1)

join_next-Gap :
    (e : ℕ) (u : Block) (rest : List Block)
    → e < u.base
    → IsPool (end_of u) rest
    → IsCoalesced rest
    → Gap e (join_next u rest)
unfolding join_next
join_next-Gap e u [] lt pool g = (lt, tt)
join_next-Gap e u (c ∷ rest) lt pool g =
    rw (adjacent_lem u c pool.0 (omega (arith, total-bound rest (end_of c) pool.2)))
      (elim (Bool-cases (end_of u == c.base)) [
        | inl same ↦ rw (same, sum) (lt, Gap-weaken (end_of c) _ rest g.1 (ground arith))
        | inr ne ↦ rw ne (lt, (ground arith, g.1))
      ])
  where
    sum : (u.pages + c.pages) % u32_mod ≡ u.pages + c.pages
    sum = omega (arith, total-bound rest (end_of c) pool.2)

join_prev-Gap :
    (e : ℕ) (u : Block) (prev : Block) (rest : List Block)
    → e < prev.base
    → end_of prev ≤ u.base
    → IsPool (end_of u) rest
    → IsCoalesced rest
    → Gap e (join_prev prev u rest)
unfolding join_prev
join_prev-Gap e u prev rest lt le pool g =
    rw (adjacent_lem prev u le (omega (arith, total-bound rest (end_of u) pool)))
      (elim (Bool-cases (end_of prev == u.base)) [
        | inl same ↦
            rw (same, sum)
              (join_next-Gap e (record prev { pages = prev.pages + u.pages }) rest lt
                (IsPool-weaken _ (end_of u) rest pool (ground arith)) g)
        | inr ne ↦ rw ne (lt, join_next-Gap (end_of prev) u rest (ground arith) pool g)
      ])
  where
    sum : (prev.pages + u.pages) % u32_mod ≡ prev.pages + u.pages
    sum = omega (arith, total-bound rest (end_of u) pool)

free_after-Gap :
    (rest : List Block) (e : ℕ) (u : Block) (prev : Block)
    → e < prev.base
    → IsPool (end_of prev) rest
    → Gap (end_of prev) rest
    → Apart u rest
    → end_of prev ≤ u.base
    → end_of u ≤ km_high_cutoff
    → Gap e (free_after u prev rest)
unfolding free_after
free_after-Gap [] e u prev lt pool g away le top = join_prev-Gap e u prev [] lt le top tt
free_after-Gap (c ∷ rest) e u prev lt pool g away le top = elim (Bool-cases (ltb c.base u.base)) [
  | inl pass ↦
      rw pass (
        lt,
        free_after-Gap rest (end_of prev) u c g.0 pool.2 g.1 away.1 (before u c away.0 pass) top,
      )
  | inr stop ↦ rw stop (
      join_prev-Gap e u prev (c ∷ rest) lt le (behind u c rest away pool.1 stop pool.2)
        (Gap-weaken (end_of prev) 0 (c ∷ rest) g (omega arith)))
]

free_walk-Gap :
    (bs : List Block) (u : Block)
    → IsPool km_low_cutoff bs
    → IsCoalesced bs
    → Apart u bs
    → km_low_cutoff ≤ u.base
    → end_of u ≤ km_high_cutoff
    → IsCoalesced (free_walk u bs)
unfolding free_walk
free_walk-Gap [] u pool g away above top = join_next-Gap 0 u [] (omega arith) top tt
free_walk-Gap (c ∷ rest) u pool g away above top = elim (Bool-cases (ltb c.base u.base)) [
  | inl pass ↦
      rw pass (free_after-Gap rest 0 u c g.0 pool.2 g.1 away.1 (before u c away.0 pass) top)
  | inr stop ↦
      rw stop
        (join_next-Gap 0 u (c ∷ rest) (omega arith) (behind u c rest away pool.1 stop pool.2) g)
]

abbrev pub CoalescedResult : Outcome Kmem → Type 0
CoalescedResult (ok k') = IsCoalesced k'.free_pages
CoalescedResult panic = ⊥
CoalescedResult out_of_fuel = ⊥

-- If no two free blocks are adjacent, none are after a block is freed that lies between the
-- cutoffs and overlaps no free block: the freed block is merged with every free neighbour.
pub km_page_free_multi-IsCoalesced :
    (k : Kmem) (p count : ℕ)
    → IsValid k
    → IsCoalesced k.free_pages
    → km_low_cutoff ≤ p
    → p + count * sz_page ≤ km_high_cutoff
    → Apart (block_at p count) k.free_pages
    → CoalescedResult (km_page_free_multi (some p) count k)
unfolding km_page_free_multi
km_page_free_multi-IsCoalesced k p count v g low top away =
    rw v.ready (free_walk-Gap k.free_pages (block_at p count) v.pool g away low top)
