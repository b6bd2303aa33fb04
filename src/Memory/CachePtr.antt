-- ===== src/Memory/CachePtr.antt =====
-- `cache_ptr` of framework/memory/cache_ptr.cpp and `cptr_utility` of cptr_utility.cpp, with
-- CACHE_TRACKING on. The cache is behind the interface `CacheUtility`; `S` is its state.
-- Of `m_cache` only whether it is null is kept, since one cache serves a rack.
pub mod Ownership
mod Tests
use Prim.Native.String.{String}
use strange_io.Common.{
  ℕ, ◌-◌, ◌+◌, ◌*◌, Bool, true, false, not, ◌||◌, ◌&&◌, Option, none, some, ◌==◌, if◌then◌else◌,
  ◌>>=◌, u64_mod,
}
use strange_io.Component.Registrable.{Rhandle, unspec}
use strange_io.Memory.Manager.{Allocated, unbuilt, cache_drain, block, Manager}
use strange_io.Memory.Manager

-- `cache_utility` of cache_utility.hpp: `none` is undefined behaviour of the call.
pub record CacheUtility (S : Type 0) : Type 0 where
  pub alloc_raw : ℕ → S → Allocated × S
  pub free_raw : ℕ → S → Option S
  pub block_size : S → ℕ

-- What implements it.
abbrev pub cache_manager : CacheUtility Manager
cache_manager = record {
  alloc_raw = Manager.alloc_raw;
  free_raw = Manager.free_raw;
  block_size = λ m. m.block_size;
}

pub record CachePtr : Type 0 where
  pub has_cache : Bool
  pub block : ℕ
  pub num_blocks : ℕ
  pub tracking_id : ℕ
  pub owner : Rhandle

-- `reset_owner`; -1 as a 64-bit pattern.
unfoldable pub null_owner : Rhandle
null_owner = record { id = u64_mod - 1; type = unspec; model = "null"; label = "null" }

-- The default constructor; `blank` is `rhandle()`.
unfoldable pub empty_ptr : Rhandle → CachePtr
empty_ptr blank = record {
  has_cache = false;
  block = 0;
  num_blocks = 0;
  tracking_id = 0;
  owner = blank;
}

unfoldable pub make_ptr : Rhandle → ℕ → ℕ → Bool → ℕ → CachePtr
make_ptr blank ptr num_blocks has_cache id = record {
  has_cache = has_cache;
  block = ptr;
  num_blocks = num_blocks;
  tracking_id = id;
  owner = blank;
}

-- The move constructor: the new pointer, and what is left of `that`.
unfoldable pub move_ptr : CachePtr → CachePtr × CachePtr
move_ptr that = (that, record that { block = 0; num_blocks = 0; tracking_id = 0 })

-- `operator=(cache_ptr&&)`: the pointer assigned to, and what is left of `that`.
unfoldable pub assign : CachePtr → CachePtr → CachePtr × CachePtr
unfolding null_owner
assign this that = (
  record this {
    has_cache = that.has_cache;
    block = that.block;
    num_blocks = that.num_blocks;
    tracking_id = that.tracking_id;
    owner = that.owner;
  },
  record that { owner = null_owner; block = 0; num_blocks = 0 },
)

unfoldable pub set_owner : Rhandle → CachePtr → CachePtr
set_owner h p = record p { owner = h }

-- The old block, and the pointer without it.
unfoldable pub release : CachePtr → ℕ × CachePtr
release p = (p.block, record p { num_blocks = 0; block = 0 })

-- `operator bool`
unfoldable pub holds : CachePtr → Bool
holds p = not (p.block == 0)

module _ {S : Type 0} (cache : CacheUtility S) where
  open cache use {alloc_raw, free_raw, block_size}

  unfoldable pub ptr_block_size : CachePtr → S → ℕ
  ptr_block_size p s = if p.has_cache then block_size s else 0

  unfoldable pub destroy : CachePtr → S → Option S
  destroy p s = if p.block == 0 || not p.has_cache then some s else free_raw p.block s

  unfoldable pub free : CachePtr → S → Option (CachePtr × S)
  unfolding null_owner
  free p s =
      if p.block == 0 || not p.has_cache
      then some (p, s)
      else do s' ← free_raw p.block s; some (record p { block = 0; owner = null_owner }, s')

  unfoldable pub reset : ℕ → ℕ → CachePtr → S → Option (CachePtr × S)
  unfolding free
  reset ptr num_blocks p s = do
    (q, s') ← if p.block == 0 then some (p, s) else free p s
    some (record q { num_blocks = num_blocks; block = ptr }, s')

  -- `swap`. C++ leaves open whether the second argument of `cptr.reset(release(), m_num_blocks)` is
  -- read before or after the call of `release`, which sets it to 0: `released_first` is that choice.
  unfoldable pub swap : Bool → CachePtr → CachePtr → S → Option (CachePtr × CachePtr × S)
  unfolding release reset
  swap released_first this cptr s = do
    let nblocks = cptr.num_blocks
    let (ptr, cptr') = release cptr
    let (own, this') = release this
    let count = if released_first then this'.num_blocks else this.num_blocks
    (cptr'', s') ← reset own count cptr' s
    (this'', s'') ← reset ptr nblocks this' s'
    some (this'', cptr'', s'')

  -- `cptr_utility::cache_alloc`: the pointer, or the exception `cache_drain`.
  unfoldable pub cache_alloc : Rhandle → Bool → ℕ → S → Option CachePtr × S
  unfolding make_ptr
  cache_alloc blank has_cache num s =
      if not has_cache
      then (some (make_ptr blank 0 0 false 0), s)
      else let (result, s') = alloc_raw num s in
        (
          elim result [
            | unbuilt ↦ some (make_ptr blank 0 num true 0)
            | cache_drain ↦ none
            | block ptr id ↦ some (make_ptr blank ptr num true id)
          ],
          s',
        )

  unfoldable pub utility_block_size : Bool → S → ℕ
  utility_block_size has_cache s = if has_cache then block_size s else 1
