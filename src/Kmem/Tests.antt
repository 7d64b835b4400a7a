-- ===== src/Kmem/Tests.antt =====
-- kmem.c on concrete states: the allocator's theorems applied, and runs of its operations.
use os.Base.{◌>>=◌, ◌≡◌, refl, true, some, [], ◌∷◌, ok, inl, inr, arith}
use os.Kmem.{
  Kmem, Region, km_init, km_page_alloc, km_page_free_multi, km_page_free, carve_slices, free_walk,
}
use os.Kmem.Pool.{IsValid, Apart}
use os.Kmem.Alloc.{AllocResult, block_at, km_page_alloc_lem}
use os.Kmem.Free.{FreeResult, km_page_free_multi_lem}
use os.Kmem.RoundTrip.{RestoredResult, km_page_alloc-km_page_free_multi}
use os.Kmem.Coalesce.{IsCoalesced, CoalescedResult, km_page_free_multi-IsCoalesced}
use os.Kmem.Init.{km_init-IsValid}
use os.Kmem.Slices.{CarveResult, carve_slices_lem}

-- Two free blocks and one free slice.
abbrev two_blocks : Kmem
two_blocks = record {
  free_pages = record { base = 0x10_0000; pages = 4 } ∷ record { base = 0x20_0000; pages = 2 } ∷ [];
  free_slices = 0x30_0400 ∷ [];
  n_pages = 6;
  n_slices = 1;
  initialized = true;
  mem = λ a. 7;
}

two_blocks-IsValid : IsValid two_blocks
two_blocks-IsValid = record {
  ready = refl;
  pool = (omega arith, omega arith, (omega arith, omega arith, omega arith));
  counted = refl;
}

km_page_alloc_lem_example : AllocResult two_blocks 3 0x10_0000 (km_page_alloc 3 two_blocks)
km_page_alloc_lem_example =
    km_page_alloc_lem two_blocks 3 0x10_0000 two_blocks-IsValid (omega arith)

-- The block behind the first free one.
behind-Apart : Apart (block_at 0x10_4000 2) (two_blocks.free_pages)
behind-Apart = (inr (omega arith), (inl (omega arith), tt))

km_page_free_multi_lem_example :
    FreeResult two_blocks 0x10_4000 2 0x10_5000 (km_page_free_multi (some 0x10_4000) 2 two_blocks)
km_page_free_multi_lem_example =
    km_page_free_multi_lem two_blocks 0x10_4000 2 0x10_5000 two_blocks-IsValid (omega arith)
      (omega arith) (omega arith) behind-Apart

two_blocks-IsCoalesced : IsCoalesced (two_blocks.free_pages)
two_blocks-IsCoalesced = (omega arith, (omega arith, tt))

km_page_free_multi-IsCoalesced_example :
    CoalescedResult (km_page_free_multi (some 0x10_4000) 2 two_blocks)
km_page_free_multi-IsCoalesced_example =
    km_page_free_multi-IsCoalesced two_blocks 0x10_4000 2 two_blocks-IsValid two_blocks-IsCoalesced
      (omega arith) (omega arith) behind-Apart

-- A usable region that begins below the low cutoff.
abbrev low_region : Region
low_region = record { base = 0x8_0000; length = 0x10_0000; type = 1; acpi = 1 }

abbrev high_region : Region
high_region = record { base = 0x3000_0000; length = 0x2000_0000; type = 1; acpi = 1 }

km_init-IsValid_example : IsValid (km_init (high_region ∷ low_region ∷ []) (λ a. 0))
km_init-IsValid_example =
    km_init-IsValid high_region (low_region ∷ []) (λ a. 0)
      (omega arith, (inr (omega arith), tt), (omega arith, tt, tt))

carve_slices_lem_example : CarveResult two_blocks 0x10_0000 (carve_slices two_blocks)
carve_slices_lem_example = carve_slices_lem two_blocks 0x10_0000 two_blocks-IsValid

freed_page_joins :
    km_page_free (some 0x10_4000) two_blocks
    ≡ ok (record two_blocks {
      free_pages =
          record { base = 0x10_0000; pages = 5 } ∷ record { base = 0x20_0000; pages = 2 } ∷ [];
      n_pages = 7;
    })
unfolding km_page_free km_page_free_multi free_walk
freed_page_joins = refl

km_page_alloc-km_page_free_multi_example :
    RestoredResult two_blocks 0x10_0000
      (km_page_alloc 3 two_blocks >>= λ s. km_page_free_multi s.0 3 s.1)
km_page_alloc-km_page_free_multi_example =
    km_page_alloc-km_page_free_multi two_blocks 3 0x10_0000 two_blocks-IsValid (omega arith)
