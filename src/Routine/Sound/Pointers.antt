-- ===== src/Routine/Sound/Pointers.antt =====
-- The checks of `interleave2` and its overload for cache pointers, with that of `deinterleave2`
-- (framework/routine/sound.cpp). The pointer is passed by value, so its block goes back to the cache
-- at the end, also where an exception is thrown.
use strange_io.Common.{ℕ, ◌-◌, not, Option, none, some, List, if◌then◌else◌, ◌>>=◌, u64_mod}
use strange_io.Component.Registrable.{Rhandle, unspec}
use strange_io.Memory.CachePtr.{CachePtr, CacheUtility, holds, set_owner, destroy}
use strange_io.Memory.Samples.{Samples, view}
use strange_io.Routine.Sound.{deinterleave2, interleave2}

-- The buffer written, or the exception.
pub data SoundResult (A : Type 0) : Type 0 where
  written : List A → SoundResult A
  cache_nullptr : SoundResult A

abbrev pub interleave_owner : Rhandle
interleave_owner = record {
  id = u64_mod - 1;
  type = unspec;
  model = "snd::routine";
  label = "interleave2";
}

abbrev pub deinterleave_owner : Rhandle
deinterleave_owner = record {
  id = u64_mod - 1;
  type = unspec;
  model = "snd::routine";
  label = "deinterleave2";
}

module _ {A : Type 0} where
  -- `interleave2` with its test for null pointers.
  unfoldable pub interleave_checked : Option (List A) → Option (List A) → ℕ → Option (SoundResult A)
  unfolding interleave2
  interleave_checked none out num_frames = some cache_nullptr
  interleave_checked (some inp) none num_frames = some cache_nullptr
  interleave_checked (some inp) (some out) num_frames =
      interleave2 inp out num_frames >>= λ res. some (written res)

  module _ {S : Type 0} (cache : CacheUtility S) where
    unfoldable pub interleave_ptr :
        CachePtr → Option (List A) → ℕ → Samples A → S → Option (SoundResult A × S)
    unfolding interleave_checked holds set_owner destroy view
    interleave_ptr p out num_frames mem s =
        if not (holds p)
        then (destroy cache p s >>= λ s'. some (cache_nullptr, s'))
        else (view p mem >>= λ inp. interleave_checked (some inp) out num_frames >>= λ result.
            destroy cache (set_owner interleave_owner p) s >>= λ s'. some (result, s'))

    -- `deinterleave2` itself makes no test.
    unfoldable pub deinterleave_ptr :
        CachePtr → List A → ℕ → Samples A → S → Option (SoundResult A × S)
    unfolding deinterleave2 holds set_owner destroy view
    deinterleave_ptr p out num_frames mem s =
        if not (holds p)
        then (destroy cache p s >>= λ s'. some (cache_nullptr, s'))
        else (view p mem >>= λ inp. deinterleave2 inp out num_frames >>= λ res.
            destroy cache (set_owner deinterleave_owner p) s >>= λ s'. some (written res, s'))
