-- ===== src/Buffer/Delay.antt =====
-- `delay` of framework/buffer/delay.cpp. `A` is the type of samples; `none` is undefined behaviour.
-- The constructor leaves the buffer a null pointer, and no method allocates it.
pub mod Capacity
mod Tests
use strange_io.Common.{
  ℕ, ◌+◌, ◌*◌, ◌%◌, Bool, true, false, Option, none, some, List, [], ◌∷◌, ◌++◌, ltb, leb, ◌==◌,
  if◌then◌else◌, length, take, drop, ◌>>=◌, u32_mod,
}

-- `state`
pub data DelayState : Type 0 where
  ok wait : DelayState

pub record Delay (A : Type 0) : Type 0 where
  pub size : ℕ
  pub load : ℕ
  pub blocks : ℕ
  pub buffer : Option (List A)

module _ {A : Type 0} where
  unfoldable pub new_delay : ℕ → Delay A
  new_delay num_blocks = record { size = 0; load = 0; blocks = num_blocks; buffer = none }

  -- `std::copy` of `samples` to the place `at` of an array; copying nothing touches nothing.
  unfoldable pub copy_to : ℕ → List A → Option (List A) → Option (Option (List A))
  copy_to at [] buffer = some buffer
  copy_to at (x ∷ xs) none = none
  copy_to at (x ∷ xs) (some cells) =
      if leb (at + length (x ∷ xs)) (length cells)
      then some (some (take at cells ++ (x ∷ xs) ++ drop (at + length (x ∷ xs)) cells))
      else none

  -- `supply`: the samples are those of the block, which the buffer takes over.
  unfoldable pub supply : List A → Delay A → Option (DelayState × Delay A)
  unfolding copy_to
  supply samples d = do
    buffer ← copy_to d.load samples d.buffer
    some (ok, record d { buffer = buffer; load = (d.load + length samples) % u32_mod })

  unfoldable pub flush_raw : Delay A → Option (List A) × Delay A
  flush_raw d = (d.buffer, record d { load = 0 })

  -- `has_capacity` for a number of samples that is not negative.
  unfoldable pub has_capacity : ℕ → Delay A → DelayState
  has_capacity num_samples d = if ltb d.size ((d.load + num_samples) % u32_mod) then wait else ok
