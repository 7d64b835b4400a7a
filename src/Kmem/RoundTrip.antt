-- ===== src/Kmem/RoundTrip.antt =====
-- km_page_alloc and then km_page_free_multi of the same block.
use mathlib.Core.Path.{subst}
use os.Base.{
  ℕ, ◌≤◌, ◌≡◌, ◌⊎◌, sym, ap, ◌∙◌, Bool, true, false, ◌&&◌, ◌||◌, Option, none, some, List, [], ◌∷◌,
  Outcome, ok, panic, out_of_fuel, ◌>>=◌, arith,
}
use os.Kmem.{Block, Kmem, km_low_cutoff, km_page_alloc, km_page_free_multi}
use os.Kmem.Pool.{IsPool, IsValid, Apart, within, covers, end_of}
use os.Kmem.Alloc.{block_at, Allocated, AllocResult, km_page_alloc_lem}
use os.Kmem.Free.{FreeResult, km_page_free_multi_lem}

-- Blocks that share no address do not overlap.
Apart-one :
    (u b : Block)
    → 1 ≤ u.pages
    → 1 ≤ b.pages
    → ((a : ℕ) → (within u a && within b a) ≡ false)
    → (end_of u ≤ b.base) ⊎ (end_of b ≤ u.base)
Apart-one u b pu pb share = ground (arith, share u.base, share b.base)

Apart-covers :
    (u : Block) (bs : List Block) (lo : ℕ)
    → IsPool lo bs
    → 1 ≤ u.pages
    → ((a : ℕ) → (within u a && covers bs a) ≡ false)
    → Apart u bs
Apart-covers u [] lo pool pos share = tt
Apart-covers u (b ∷ bs) lo pool pos share = (
  Apart-one u b pos pool.1 (λ a. first (within u a) (within b a) (covers bs a) (share a)),
  Apart-covers u bs (end_of b) pool.2 pos
      (λ a. second (within u a) (within b a) (covers bs a) (share a)),
)
  where
    first : (x y z : Bool) → (x && (y || z)) ≡ false → (x && y) ≡ false
    first x y z e = ground arith

    second : (x y z : Bool) → (x && (y || z)) ≡ false → (x && z) ≡ false
    second x y z e = ground arith

-- What the two calls leave, seen at one address `a`.
pub record Restored (k : Kmem) (a : ℕ) (k' : Kmem) : Type 0 where
  pub valid : IsValid k'
  pub pages : k'.n_pages ≡ k.n_pages
  pub covered : covers k'.free_pages a ≡ covers k.free_pages a

abbrev pub RestoredResult : Kmem → ℕ → Outcome Kmem → Type 0
RestoredResult k a (ok k') = Restored k a k'
RestoredResult k a panic = ⊥
RestoredResult k a out_of_fuel = ⊥

restored_from :
    (k k1 : Kmem) (count a p : ℕ) (r : Outcome Kmem)
    → Allocated k count a p k1
    → FreeResult k1 p count a r
    → RestoredResult k a r
restored_from k k1 count a p panic d e = elim e [ ]
restored_from k k1 count a p out_of_fuel d e = elim e [ ]
restored_from k k1 count a p (ok k') d e = record {
  valid = e.valid;
  pages = e.pages ∙ sym d.pages;
  covered = e.split ∙ sym d.split;
}

free_again :
    (k : Kmem) (count a : ℕ) (r : Outcome (Option ℕ × Kmem))
    → IsValid k
    → 1 ≤ count
    → ((b : ℕ) → AllocResult k count b r)
    → RestoredResult k a (r >>= λ s. km_page_free_multi s.0 count s.1)
unfolding km_page_free_multi
free_again k count a panic v pos h = absurd (h 0)
free_again k count a out_of_fuel v pos h = absurd (h 0)
free_again k count a (ok (none, k1)) v pos h =
    let e : k1.initialized ≡ true = ap (λ (c : Kmem). c.initialized) (h a).0 ∙ v.ready in
    simp e (record {
      valid = subst (λ c. IsValid c) (sym (h a).0) v;
      pages = ap (λ (c : Kmem). c.n_pages) (h a).0;
      covered = ap (λ (c : Kmem). covers c.free_pages a) (h a).0;
    })
free_again k count a (ok (some p, k1)) v pos h =
    restored_from k k1 count a p (km_page_free_multi (some p) count k1) (h a) (
      km_page_free_multi_lem k1 p count a (h a).valid pos (h a).above (h a).inside (
        Apart-covers (block_at p count) k1.free_pages km_low_cutoff (h a).valid.pool pos
          (λ b. (h b).apart)))

-- From a valid state, asking for pages and freeing what was handed out, with the same count,
-- does not panic. The state is valid and the page count and the set of free addresses are what
-- they were, also if there was no block to hand out.
pub km_page_alloc-km_page_free_multi :
    (k : Kmem) (count a : ℕ)
    → IsValid k
    → 1 ≤ count
    → RestoredResult k a (km_page_alloc count k >>= λ s. km_page_free_multi s.0 count s.1)
km_page_alloc-km_page_free_multi k count a v pos =
    free_again k count a (km_page_alloc count k) v pos (λ b. km_page_alloc_lem k count b v pos)
