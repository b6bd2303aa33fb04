-- ===== src/Buffer/Normalised.antt =====
-- `NormalisedSizeBuffer` of framework/staging/buffer/NormalisedSizeBuffer.cpp: periods of any size in,
-- periods of one size out. A pointer into `remainder` is its distance from the first sample; `bound`
-- is the number of samples there. Sizes are not negative.
pub mod Holds
pub mod Supply
pub mod Flush
pub mod Stream
pub mod Overrun
mod Tests
use strange_io.Common.{
  copy_in, copy_out, ℕ, ◌+◌, ◌-◌, ◌≡◌, Bool, true, false, ◌&&◌, ◌||◌, Option, none, some, List, [],
  ◌∷◌, ◌++◌, ◌>>=◌, length, take, drop, if◌then◌else◌, ltb, leb,
}

pub data BufferState : Type 0 where
  partial dispatch overrun : BufferState

pub record Normalised (A : Type 0) : Type 0 where
  pub n_size : ℕ
  pub remainder : List A
  pub bound : ℕ
  pub r_write : ℕ
  pub r_read : ℕ
  pub load : ℕ
  pub state : BufferState

unfoldable pub state_of : ℕ → ℕ → BufferState
state_of n_size load = if leb n_size load then dispatch else partial

abbrev pub is_partial : BufferState → Bool
is_partial partial = true
is_partial dispatch = false
is_partial overrun = false

module _ {A : Type 0} where
  -- `fresh` is what the new memory holds.
  unfoldable pub new_normalised : ℕ → ℕ → List A → Normalised A
  new_normalised normal overflow fresh = record {
    n_size = normal;
    remainder = fresh;
    bound = normal + overflow;
    r_write = 0;
    r_read = 0;
    load = 0;
    state = partial;
  }

  unfoldable pub supplied : ℕ → List A → ℕ → Normalised A → BufferState × Normalised A
  unfolding state_of
  supplied p_size region to b =
      let after = state_of b.n_size (b.load + p_size) in
      (after, record b { remainder = region; r_write = to; load = b.load + p_size; state = after })

  -- The state `OVERFLOW` is returned only.
  unfoldable pub supply : List A → Normalised A → Option (BufferState × Normalised A)
  unfolding copy_in supplied
  supply period b =
      let p_size = length period in
      let delta = b.bound - b.r_write in
      if ltb b.r_write b.r_read && ltb b.r_read (b.r_write + p_size)
      then some (overrun, b)
      else if leb b.bound (b.r_write + p_size)
      then (copy_in b.r_write (take delta period) b.remainder >>= λ region.
          copy_in 0 (drop delta period) region >>= λ region'.
          some (supplied p_size region' (p_size - delta) b))
      else (copy_in b.r_write period b.remainder >>= λ region.
          some (supplied p_size region (b.r_write + p_size) b))

  unfoldable pub flushed : List A → ℕ → Normalised A → List A × Normalised A
  unfolding state_of
  flushed period to b = (
    period,
    record b {
      r_read = to;
      load = b.load - b.n_size;
      state = state_of b.n_size (b.load - b.n_size);
    },
  )

  -- The samples that `flush` writes to the period, none of them where it returns at once.
  unfoldable pub flush : Normalised A → Option (List A × Normalised A)
  unfolding copy_out flushed
  flush b =
      let delta = b.bound - b.r_read in
      if is_partial b.state || ltb b.load b.n_size
      then some ([], b)
      else if leb b.bound (b.r_read + b.n_size)
      then (copy_out b.r_read delta b.remainder >>= λ first.
          copy_out 0 (b.n_size - delta) b.remainder >>= λ second.
          some (flushed (first ++ second) (b.n_size - delta) b))
      else (copy_out b.r_read b.n_size b.remainder >>= λ period.
          some (flushed period (b.r_read + b.n_size) b))

  unfoldable pub get_state : Normalised A → BufferState
  get_state b = b.state

pub data BufferCall (A : Type 0) : Type 0 where
  supplies : List A → BufferCall A
  flushes : BufferCall A

module _ {A : Type 0} where
  -- A sequence of calls, with the samples that come out of all of them.
  unfoldable pub run_buffer : List (BufferCall A) → Normalised A → Option (List A × Normalised A)
  unfolding supply flush
  run_buffer [] b = some ([], b)
  run_buffer (supplies period ∷ calls) b = supply period b >>= λ r. run_buffer calls r.1
  run_buffer (flushes ∷ calls) b =
      flush b >>= λ r. run_buffer calls r.1 >>= λ s. some (r.0 ++ s.0, s.1)
