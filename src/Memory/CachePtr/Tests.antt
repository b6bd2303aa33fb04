-- ===== src/Memory/CachePtr/Tests.antt =====
-- The theorems on ownership at pointers into a cache of four blocks.
use strange_io.Common.{◌≡◌, true, false, [], ◌∷◌}
use strange_io.Component.Registrable.{Rhandle, unspec}
use strange_io.Memory.Manager.{Manager}
use strange_io.Memory.CachePtr.{CachePtr, cache_manager, assign, destroy}
use strange_io.Memory.CachePtr.Ownership.{destroy_both, destroy-assign}

abbrev blank : Rhandle
blank = record { id = 0; type = unspec; model = ""; label = "" }

-- Blocks of two samples at address 100; the second and the fourth are free.
abbrev cache : Manager
cache = record {
  raw_cache = 100;
  bound = 106;
  num_blocks = 4;
  block_size = 2;
  total = 2;
  cache_size = 8;
  track_id = 5;
  handles =
      record { ptr = 100; in_use = true; num_blocks = 1 }
      ∷ record { ptr = 102; in_use = false; num_blocks = 1 }
      ∷ record { ptr = 104; in_use = true; num_blocks = 1 }
      ∷ record { ptr = 106; in_use = false; num_blocks = 1 }
      ∷ [];
}

abbrev first : CachePtr
first = record { has_cache = true; block = 100; num_blocks = 1; tracking_id = 2; owner = blank }

abbrev third : CachePtr
third = record { has_cache = true; block = 104; num_blocks = 1; tracking_id = 3; owner = blank }

destroy-assign_example :
    (destroy_both cache_manager (assign first third).0 (assign first third).1 cache
      ≡ destroy cache_manager third cache)
    × (destroy_both cache_manager (assign first third).1 (assign first third).0 cache
        ≡ destroy cache_manager third cache)
destroy-assign_example = destroy-assign cache_manager first third cache
