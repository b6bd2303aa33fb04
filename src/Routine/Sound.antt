-- ===== src/Routine/Sound.antt =====
-- `interleave2` and `deinterleave2` of framework/routine/sound.cpp, on two channels. A buffer is a
-- list of samples that is there; an access outside it is undefined (`none`).
pub mod Pairs
pub mod Round
pub mod Inverse
pub mod Pointers
pub mod Trip
mod Tests
use strange_io.Common.{
  ℕ, zero, suc, ◌+◌, ◌*◌, ◌%◌, Bool, true, false, Option, none, some, List, [], ◌∷◌, ltb,
  if◌then◌else◌, get_elem?, set, length, ◌>>=◌, ◌>>◌, require, u32_mod,
}

module _ {A : Type 0} where
  -- `out[i] = x`
  unfoldable pub write : ℕ → A → List A → Option (List A)
  write i x out = if ltb i (length out) then some (set out i x) else none

  -- The loop of `deinterleave2` from frame `sample` on, with `left` frames to go.
  unfoldable pub deinterleave_loop : List A → ℕ → ℕ → ℕ → ℕ → List A → Option (List A)
  unfolding write
  deinterleave_loop inp num_frames zero sample block_index out = some out
  deinterleave_loop inp num_frames (suc left) sample block_index out = do
    x ← get_elem? inp block_index
    out₁ ← write sample x out
    let second = (block_index + 1) % u32_mod
    y ← get_elem? inp second
    out₂ ← write (num_frames + sample) y out₁
    deinterleave_loop inp num_frames left (sample + 1) ((second + 1) % u32_mod) out₂

  unfoldable pub deinterleave2 : List A → List A → ℕ → Option (List A)
  unfolding deinterleave_loop
  deinterleave2 inp out num_frames = deinterleave_loop inp num_frames num_frames 0 0 out

  unfoldable pub interleave_loop : List A → ℕ → ℕ → ℕ → ℕ → List A → Option (List A)
  unfolding write
  interleave_loop inp num_frames zero sample block_index out = some out
  interleave_loop inp num_frames (suc left) sample block_index out = do
    x ← get_elem? inp sample
    out₁ ← write block_index x out
    let second = (block_index + 1) % u32_mod
    y ← get_elem? inp (num_frames + sample)
    out₂ ← write second y out₁
    interleave_loop inp num_frames left (sample + 1) ((second + 1) % u32_mod) out₂

  unfoldable pub interleave2 : List A → List A → ℕ → Option (List A)
  unfolding interleave_loop
  interleave2 inp out num_frames = interleave_loop inp num_frames num_frames 0 0 out
