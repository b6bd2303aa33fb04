-- ===== src/Memory/Samples/Tests.antt =====
-- Two pointers into a memory of six samples.
use strange_io.Common.{ℕ, ◌≡◌, refl, inl, true, some, [], ◌∷◌, ◌++◌, take, drop, arith}
use strange_io.Component.Registrable.{Rhandle, unspec}
use strange_io.Memory.CachePtr.{CachePtr, holds}
use strange_io.Memory.Samples.{Samples, copy_from, copy_to_num}
use strange_io.Memory.Samples.Copies.{Reaches, samples_at, copy_to_num-copy_from}

abbrev nobody : Rhandle
nobody = record { id = 0; type = unspec; model = ""; label = "" }

abbrev low_ptr : CachePtr
low_ptr = record { has_cache = true; block = 100; num_blocks = 1; tracking_id = 1; owner = nobody }

abbrev high_ptr : CachePtr
high_ptr = record { has_cache = true; block = 103; num_blocks = 1; tracking_id = 2; owner = nobody }

abbrev six_samples : Samples ℕ
six_samples = record { base = 100; cells = 1 ∷ 2 ∷ 3 ∷ 4 ∷ 5 ∷ 6 ∷ [] }

low_ptr-Reaches : Reaches low_ptr 2 six_samples
unfolding holds
low_ptr-Reaches = record { there = refl; from = omega arith; to = omega arith }

high_ptr-Reaches : Reaches high_ptr 3 six_samples
unfolding holds
high_ptr-Reaches = record { there = refl; from = omega arith; to = omega arith }

copy_from-six_samples :
    copy_from low_ptr (8 ∷ 9 ∷ []) 2 six_samples
    ≡ some (record { base = 100; cells = 8 ∷ 9 ∷ 3 ∷ 4 ∷ 5 ∷ 6 ∷ [] })
unfolding copy_from
copy_from-six_samples = refl

copy_to_num-copy_from_example :
    (mem' : Samples ℕ) × (copy_from low_ptr (8 ∷ 9 ∷ []) 2 six_samples ≡ some mem')
    × (copy_to_num low_ptr (0 ∷ 0 ∷ 0 ∷ []) 2 mem'
        ≡ some (take 2 (8 ∷ 9 ∷ []) ++ drop 2 (0 ∷ 0 ∷ 0 ∷ [])))
    × (copy_to_num high_ptr (0 ∷ 0 ∷ 0 ∷ []) 3 mem'
        ≡ some (samples_at high_ptr 3 six_samples ++ drop 3 (0 ∷ 0 ∷ 0 ∷ [])))
    × (copy_to_num high_ptr (0 ∷ 0 ∷ 0 ∷ []) 3 six_samples
        ≡ some (samples_at high_ptr 3 six_samples ++ drop 3 (0 ∷ 0 ∷ 0 ∷ [])))
copy_to_num-copy_from_example =
    copy_to_num-copy_from low_ptr high_ptr 2 3 (8 ∷ 9 ∷ []) (0 ∷ 0 ∷ 0 ∷ []) (0 ∷ 0 ∷ 0 ∷ [])
      six_samples low_ptr-Reaches high_ptr-Reaches (inl (omega arith)) (omega arith) (omega arith)
      (omega arith)
