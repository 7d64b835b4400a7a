-- ===== src/Kmem/Slices.antt =====
-- The slice allocator: km_slice_alloc, km_slice_free and carve_slices.
use os.Base.{
  is_nil, ℕ, ◌+◌, ◌*◌, ◌%◌, ◌≤◌, ◌≡◌, refl, Bool, true, false, ◌&&◌, ◌||◌, Option, none, some, List,
  [], ◌∷◌, ◌++◌, arith, ltb, leb, if◌then◌else◌, ok, panic, out_of_fuel, Outcome, ◌>>=◌, ap, ◌∙◌,
}
use os.Kmem.{
  Kmem, sz_page, sz_slice, km_high_cutoff, u32_mod, carve_loop, carve_slices, km_slice_free,
  take_slice, km_slice_alloc, pop_slice, clear_words, km_page_alloc,
}
use os.Kmem.Pool.{covers, within, IsValid}
use os.Kmem.Alloc.{AllocResult, block_at, NoFit, km_page_alloc_lem}

-- The four slices of the page at `p`, last first: the order of the free list after carving.
abbrev pub slices_of : ℕ → List ℕ
slices_of p = (p + 3 * sz_slice) ∷ (p + 2 * sz_slice) ∷ (p + sz_slice) ∷ p ∷ []

-- What carve_slices comes to: no free block had a page, or the page `p` was taken from the free
-- list and its four slices were put in front of the slice list, and counted twice.
pub record Carved (k k' : Kmem) (a p : ℕ) : Type 0 where
  pub valid : IsValid k'
  pub pages : k.n_pages ≡ k'.n_pages + 1
  pub split : covers k.free_pages a ≡ (within (block_at p 1) a || covers k'.free_pages a)
  pub apart : (within (block_at p 1) a && covers k'.free_pages a) ≡ false
  pub inside : p + sz_page ≤ km_high_cutoff
  pub slices : k'.free_slices ≡ slices_of p ++ k.free_slices
  pub twice : k'.n_slices ≡ (k.n_slices + 8) % u32_mod
  pub memory : k'.mem ≡ k.mem

carve_loop_lem :
    (p : ℕ) (k : Kmem)
    → k.initialized ≡ true
    → p + sz_page ≤ km_high_cutoff
    → carve_loop 4 p k
      ≡ ok (record k {
        free_slices = slices_of p ++ k.free_slices;
        n_slices = (k.n_slices + 8) % u32_mod;
      })
unfolding carve_loop km_slice_free
carve_loop_lem p k ready top = ground arith

abbrev pub CarveResult : Kmem → ℕ → Outcome Kmem → Type 0
CarveResult k a (ok k') = (p : ℕ) × Carved k k' a p
CarveResult k a panic = NoFit 1 k.free_pages
CarveResult k a out_of_fuel = ⊥

carve_from :
    (k : Kmem) (a : ℕ) (r : Outcome (Option ℕ × Kmem))
    → AllocResult k 1 a r
    → CarveResult k a (r >>= λ r'. elim r'.0 [ none ↦ panic | some page ↦ carve_loop 4 page r'.1 ])
carve_from k a (ok (none, k')) s = s.1
carve_from k a (ok (some p, k')) s = rw (carve_loop_lem p k' s.valid.ready s.inside) (
  p,
  record {
    valid = record { ready = s.valid.ready; pool = s.valid.pool; counted = s.valid.counted };
    pages = s.pages;
    split = s.split;
    apart = s.apart;
    inside = s.inside;
    slices = ap (λ l. slices_of p ++ l) s.slices;
    twice = ap (λ n. (n + 8) % u32_mod) s.slice_count;
    memory = s.memory;
  },
)
carve_from k a panic s = absurd s
carve_from k a out_of_fuel s = absurd s

-- From a valid state, carve_slices takes one page from the free list and puts its four slices in
-- front of the slice list, but adds eight to the slice count; it panics only if no page is free.
pub carve_slices_lem : (k : Kmem) (a : ℕ) → IsValid k → CarveResult k a (carve_slices k)
unfolding carve_slices
carve_slices_lem k a v =
    carve_from k a (km_page_alloc 1 k) (km_page_alloc_lem k 1 a v (omega arith))

abbrev pub in_slice : ℕ → ℕ → Bool
in_slice s a = leb s a && ltb a (s + sz_slice)

abbrev pub one_if : Bool → ℕ
one_if b = if b then 1 else 0

abbrev pub slice_count : List ℕ → ℕ → ℕ
slice_count [] a = 0
slice_count (s ∷ ss) a = one_if (in_slice s a) + slice_count ss a

-- How often an address is free: as part of a free page, and as part of each free slice.
abbrev pub free_count : Kmem → ℕ → ℕ
free_count k a = one_if (covers k.free_pages a) + slice_count k.free_slices a

-- What km_slice_alloc comes to, seen at one address `a`.
pub record Sliced (k : Kmem) (a s : ℕ) (k' : Kmem) : Type 0 where
  pub valid : IsValid k'
  pub count : free_count k a ≡ free_count k' a + one_if (in_slice s a)
  pub cleared : k'.mem a ≡ (if in_slice s a then 0 else k.mem a)

abbrev pub SliceResult : Kmem → ℕ → Outcome (ℕ × Kmem) → Type 0
SliceResult k a (ok (s, k')) = Sliced k a s k'
SliceResult k a panic = (k.free_slices ≡ []) × NoFit 1 k.free_pages
SliceResult k a out_of_fuel = ⊥

take_slice-Sliced :
    (k : Kmem) (a s : ℕ) (rest : List ℕ)
    → IsValid k
    → k.free_slices ≡ s ∷ rest
    → SliceResult k a (take_slice (s ∷ rest) k)
unfolding take_slice clear_words
take_slice-Sliced k a s rest v e = record {
  valid = record { ready = v.ready; pool = v.pool; counted = v.counted };
  count = simp e (omega arith);
  cleared = refl;
}

-- After carving, the first slice of the page is taken.
take-Carved :
    (k k' : Kmem) (a p : ℕ)
    → k.free_slices ≡ []
    → Carved k k' a p
    → SliceResult k a (take_slice (slices_of p) k')
unfolding take_slice clear_words
take-Carved k k' a p empty c = record {
  valid = record { ready = c.valid.ready; pool = c.valid.pool; counted = c.valid.counted };
  count = simp empty (ground (arith, c.split, c.apart, c.inside));
  cleared = rw c.memory refl;
}

carved_then :
    (k : Kmem) (a : ℕ) (r : Outcome Kmem)
    → k.free_slices ≡ []
    → CarveResult k a r
    → SliceResult k a (r >>= pop_slice)
unfolding pop_slice
carved_then k a (ok k') empty (p, c) =
    let listed : k'.free_slices ≡ slices_of p = c.slices ∙ ap (λ l. slices_of p ++ l) empty in
    rw (ap (λ l. take_slice l k') listed) (take-Carved k k' a p empty c)
carved_then k a panic empty s = (empty, s)
carved_then k a out_of_fuel empty s = absurd s

alloc_by :
    (k : Kmem) (a : ℕ) (ss : List ℕ)
    → IsValid k
    → k.free_slices ≡ ss
    → SliceResult k a (if is_nil ss then carve_slices k >>= pop_slice else take_slice ss k)
alloc_by k a [] v e = carved_then k a (carve_slices k) e (carve_slices_lem k a v)
alloc_by k a (s ∷ rest) v e = take_slice-Sliced k a s rest v e

-- From a valid state: the slice that is returned is cleared and all other memory is untouched; an
-- address of the slice is free one time less than before, any other address as often, so what is
-- handed out is free nowhere else if it was free once; and the state stays valid. It panics only
-- if the slice list is empty and no page is free.
pub km_slice_alloc_lem : (k : Kmem) (a : ℕ) → IsValid k → SliceResult k a (km_slice_alloc k)
unfolding km_slice_alloc pop_slice
km_slice_alloc_lem k a v = simp v.ready (alloc_by k a k.free_slices v refl)
