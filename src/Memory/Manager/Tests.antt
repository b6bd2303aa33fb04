-- ===== src/Memory/Manager/Tests.antt =====
-- Runs of the cache manager, and its theorems at a cache of four blocks.
use strange_io.Common.{◌≡◌, refl, inr, true, false, some, none, [], ◌∷◌, arith, ◌>>=◌}
use strange_io.Memory.Manager.{
  Manager, new_manager, build_cache, unbuilt, block, alloc_raw, allocate, claim_all, free_raw,
  free_at,
}
use strange_io.Memory.Manager.Segments.{free, taken}
use strange_io.Memory.Manager.Alloc.{carve}
use strange_io.Memory.Manager.Carving.{IsTidy}
use strange_io.Memory.Manager.State.{Renders, free_raw-Renders, free_raw-last}
use strange_io.Memory.Manager.Cycle.{alloc_raw-carve, free_raw-alloc_raw}

-- Blocks of two samples at address 100; the second and the fourth are free.
abbrev striped : Manager
striped = record {
  raw_cache = 100;
  bound = 106;
  num_blocks = 4;
  block_size = 2;
  total = 2;
  cache_size = 8;
  track_id = 5;
  handles =
      record { ptr = 100; in_use = true; num_blocks = 1 }
      ∷ record { ptr = 102; in_use = false; num_blocks = 1 }
      ∷ record { ptr = 104; in_use = true; num_blocks = 1 }
      ∷ record { ptr = 106; in_use = false; num_blocks = 1 }
      ∷ [];
}

striped-Renders : Renders striped (taken 1 ∷ free 1 ∷ taken 1 ∷ free 1 ∷ [])
striped-Renders = record {
  built = omega arith;
  sized = omega arith;
  cached = omega arith;
  handles_of = refl;
  covers = refl;
  last_block = refl;
  small = omega arith;
  counted = refl;
}

tidy : IsTidy (taken 1 ∷ free 1 ∷ taken 1 ∷ free 1 ∷ [])
tidy = (
  omega arith,
  λ e. cc,
  (omega arith, λ _. (refl, omega arith), (omega arith, λ e. cc, (omega arith, λ _. tt, tt))),
)

-- As `striped`, with the last block in use.
abbrev ended : Manager
ended = record striped {
  total = 3;
  handles =
      record { ptr = 100; in_use = true; num_blocks = 1 }
      ∷ record { ptr = 102; in_use = false; num_blocks = 1 }
      ∷ record { ptr = 104; in_use = true; num_blocks = 2 }
      ∷ record { ptr = 106; in_use = true; num_blocks = 1 }
      ∷ [];
}

ended-Renders : Renders ended (taken 1 ∷ free 1 ∷ taken 2 ∷ [])
ended-Renders = record {
  built = omega arith;
  sized = omega arith;
  cached = omega arith;
  handles_of = refl;
  covers = refl;
  last_block = refl;
  small = omega arith;
  counted = refl;
}

-- "alloc_raw(1) == nullptr" before the cache is built, as test/catch_staged.cpp has it.
unbuilt_alloc : (alloc_raw 1 (new_manager 0 32)).0 ≡ unbuilt
unfolding alloc_raw new_manager
unbuilt_alloc = refl

-- Build, give out all four blocks, free them: the read behind the last handle.
whole_cache_fault :
    (build_cache 100 2 (new_manager 0 4) >>= λ m. free_raw 100 (alloc_raw 4 m).1) ≡ none
unfolding build_cache new_manager alloc_raw allocate claim_all free_raw free_at
whole_cache_fault = refl

alloc_raw-carve_example :
    (m : Manager) × (alloc_raw 1 striped ≡ (block 102 6, m))
    × Renders m (taken 1 ∷ taken 1 ∷ taken 1 ∷ free 1 ∷ [])
    × (m.raw_cache ≡ 100)
    × (m.block_size ≡ 2)
unfolding carve
alloc_raw-carve_example =
    alloc_raw-carve striped (taken 1 ∷ free 1 ∷ taken 1 ∷ free 1 ∷ []) 1 1
      (taken 1 ∷ taken 1 ∷ taken 1 ∷ free 1 ∷ []) striped-Renders (omega arith) refl

free_raw-alloc_raw_example :
    (m : Manager) × (alloc_raw 1 striped ≡ (block 102 6, m))
    × (m' : Manager) × (free_raw 102 m ≡ some m')
    × Renders m' (taken 1 ∷ free 1 ∷ taken 1 ∷ free 1 ∷ [])
unfolding carve
free_raw-alloc_raw_example =
    free_raw-alloc_raw striped (taken 1 ∷ free 1 ∷ taken 1 ∷ free 1 ∷ []) 1 1
      (taken 1 ∷ taken 1 ∷ taken 1 ∷ free 1 ∷ []) striped-Renders tidy (omega arith) refl
      (omega arith)

free_raw-Renders_example :
    (m : Manager) × (free_raw 104 striped ≡ some m) × Renders m (taken 1 ∷ free 3 ∷ [])
free_raw-Renders_example =
    free_raw-Renders striped (taken 1 ∷ []) 1 1 1 [] striped-Renders (omega arith)
      (inr ([], 0, refl)) tt tt

free_raw-last_example : free_raw 104 ended ≡ none
free_raw-last_example = free_raw-last ended (taken 1 ∷ []) 1 2 ended-Renders (omega arith)
