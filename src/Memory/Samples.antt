-- ===== src/Memory/Samples.antt =====
-- The samples that a `cache_ptr` copies (framework/memory/cache_ptr.cpp): the memory of the cache is
-- an array that begins at an address, and a copy outside it is undefined (`none`).
pub mod Copies
mod Tests
use strange_io.Common.{
  ℕ, ◌-◌, ◌*◌, ◌%◌, ◌+◌, Bool, not, Option, none, some, List, if◌then◌else◌, leb, drop, ◌>>=◌,
  copy_in, copy_out, u32_mod,
}
use strange_io.Memory.CachePtr.{CachePtr, CacheUtility, holds, ptr_block_size}

pub record Samples (A : Type 0) : Type 0 where
  pub base : ℕ
  pub cells : List A

module _ {A : Type 0} where
  -- Where the block of a pointer begins.
  unfoldable pub offset : CachePtr → Samples A → Option ℕ
  offset p mem = if leb mem.base p.block then some (p.block - mem.base) else none

  -- What stands from the block of a pointer on.
  unfoldable pub view : CachePtr → Samples A → Option (List A)
  unfolding offset
  view p mem = offset p mem >>= λ i. some (drop i mem.cells)

  unfoldable pub copy_from : CachePtr → List A → ℕ → Samples A → Option (Samples A)
  unfolding holds offset copy_in copy_out
  copy_from p samples num_samples mem =
      if not (holds p)
      then some mem
      else (offset p mem >>= λ i. copy_out 0 num_samples samples >>= λ xs.
          copy_in i xs mem.cells >>= λ cells. some (record mem { cells = cells }))

  -- `copy_to(PcmSample*, unsigned int)`
  unfoldable pub copy_to_num : CachePtr → List A → ℕ → Samples A → Option (List A)
  unfolding holds offset copy_in copy_out
  copy_to_num p samples num_samples mem =
      if not (holds p)
      then some samples
      else (offset p mem >>= λ i. copy_out i num_samples mem.cells >>= λ xs. copy_in 0 xs samples)

  -- `copy_to(PcmSample*)`: all blocks, their product an `unsigned int`.
  unfoldable pub copy_to_all :
      {S : Type 0} → CacheUtility S → CachePtr → List A → Samples A → S → Option (List A)
  unfolding copy_to_num ptr_block_size
  copy_to_all cache p samples mem s =
      copy_to_num p samples ((p.num_blocks * ptr_block_size cache p s) % u32_mod) mem
