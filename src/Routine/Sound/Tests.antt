-- ===== src/Routine/Sound/Tests.antt =====
-- Two frames of two channels, in arrays and in a block of a cache.
use strange_io.Common.{ℕ, true, ◌*◌, ◌≡◌, refl, some, List, [], ◌∷◌, arith, ◌>>=◌}
use strange_io.Routine.Sound.{deinterleave2}
use strange_io.Component.Registrable.{Rhandle, unspec}
use strange_io.Memory.Manager.{Manager}
use strange_io.Memory.Manager.Segments.{Segment, free, taken, render}
use strange_io.Memory.Manager.Alloc.{carve}
use strange_io.Memory.Manager.Carving.{IsTidy}
use strange_io.Memory.Manager.State.{Renders}
use strange_io.Memory.CachePtr.{CachePtr, cache_manager, cache_alloc}
use strange_io.Memory.Samples.{Samples, copy_from}
use strange_io.Routine.Sound.Pointers.{written, interleave_ptr}
use strange_io.Routine.Sound.Trip.{interleave_ptr-deinterleave2}

abbrev frames : List ℕ
frames = 1 ∷ 2 ∷ 3 ∷ 4 ∷ []

abbrev silence : List ℕ
silence = 0 ∷ 0 ∷ 0 ∷ 0 ∷ []

deinterleave2-frames : deinterleave2 frames silence 2 ≡ some (1 ∷ 3 ∷ 2 ∷ 4 ∷ [])
unfolding deinterleave2
deinterleave2-frames = refl

-- A cache of four free blocks of two samples at address 100.
abbrev four_free : List Segment
four_free = free 4 ∷ []

abbrev small_cache : Manager
small_cache = record {
  raw_cache = 100;
  bound = 106;
  num_blocks = 4;
  block_size = 2;
  total = 0;
  cache_size = 8;
  track_id = 0;
  handles = render 2 100 four_free;
}

small_cache-Renders : Renders small_cache four_free
small_cache-Renders = record {
  built = omega arith;
  sized = omega arith;
  cached = omega arith;
  handles_of = refl;
  covers = refl;
  last_block = refl;
  small = omega arith;
  counted = refl;
}

four_free-IsTidy : IsTidy four_free
four_free-IsTidy = (omega arith, λ _. tt, tt)

abbrev no_owner : Rhandle
no_owner = record { id = 0; type = unspec; model = ""; label = "" }

abbrev blank_samples : Samples ℕ
blank_samples = record { base = 100; cells = 0 ∷ 0 ∷ 0 ∷ 0 ∷ 0 ∷ 0 ∷ 0 ∷ 0 ∷ [] }

interleave_ptr-deinterleave2_example :
    (p : CachePtr) × (m' : Manager) × (cache_alloc cache_manager no_owner true 2 small_cache
      ≡ (some p, m'))
    × (mem' : Samples ℕ) × ((deinterleave2 frames silence 2 >>= λ mid.
          copy_from p mid (2 * 2) blank_samples)
        ≡ some mem')
    × (m'' : Manager) × (interleave_ptr cache_manager p (some silence) 2 mem' m'
        ≡ some (written frames, m''))
    × Renders m'' four_free
unfolding carve
interleave_ptr-deinterleave2_example =
    interleave_ptr-deinterleave2 0 no_owner small_cache four_free 2 0 (taken 2 ∷ free 2 ∷ []) frames
      silence silence 2 blank_samples small_cache-Renders four_free-IsTidy (omega arith) refl
      (omega arith) refl refl refl refl refl (omega arith) (omega arith)
