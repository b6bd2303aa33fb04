-- ===== src/Memory/Manager.antt =====
-- `cache_manager` of framework/memory/cache_manager.cpp, with CACHE_TRACKING and DEVBUILD on, as
-- framework/include/framework/fwcommon.hpp sets them. Addresses are counted in samples and 0 is
-- `nullptr`. Calls hold the mutex throughout, so each is one step.
-- What C++ leaves undefined (an access outside the vector, a division by zero) is `none`.
pub mod Segments
pub mod Alloc
pub mod Free
pub mod State
pub mod Cycle
pub mod Carving
mod Tests
use strange_io.Common.{
  ℕ, zero, suc, ◌+◌, ◌-◌, ◌*◌, ◌/◌, ◌%◌, Bool, true, false, not, ◌&&◌, ◌||◌, Option, none, some,
  List, [], ◌∷◌, ◌++◌, ltb, leb, ◌==◌, if◌then◌else◌, length, get_elem?, set, ◌>>=◌, ◌>>◌, require,
  u32_mod,
}

-- `cache_handle` of memory.hpp.
pub record Handle : Type 0 where
  pub ptr : ℕ
  pub in_use : Bool
  pub num_blocks : ℕ

-- `m_total` is the bit pattern of an `int`.
pub record Manager : Type 0 where
  pub raw_cache : ℕ
  pub bound : ℕ
  pub num_blocks : ℕ
  pub block_size : ℕ
  pub total : ℕ
  pub cache_size : ℕ
  pub track_id : ℕ
  pub handles : List Handle

-- The constructor, which leaves `m_bound` as the memory was.
unfoldable pub new_manager : ℕ → ℕ → Manager
new_manager stray n = record {
  raw_cache = 0;
  bound = stray;
  num_blocks = n % u32_mod;
  block_size = 0;
  total = 0;
  cache_size = 0;
  track_id = 1;
  handles = [];
}

-- The loop of `build_cache` from handle `i` on, with `left` handles to go; `nblocks--` counts down
-- from `m_num_blocks`, so it is `left`.
unfoldable pub build_handles : ℕ → ℕ → ℕ → ℕ → List Handle
build_handles base block_size i zero = []
build_handles base block_size i (suc left) =
    record { ptr = base + i * block_size % u32_mod; in_use = false; num_blocks = suc left }
    ∷ build_handles base block_size (i + 1) left

-- `base` is what `new` returns.
unfoldable pub build_cache : ℕ → ℕ → Manager → Option Manager
unfolding build_handles
build_cache base block_size m = if not (m.raw_cache == 0) then some m else do
  let handles = m.handles ++ build_handles base block_size 0 m.num_blocks
  last ← get_elem? handles ((m.num_blocks + u32_mod - 1) % u32_mod)
  some (record m {
    raw_cache = base;
    bound = last.ptr;
    block_size = block_size;
    cache_size = block_size * m.num_blocks % u32_mod;
    handles = handles;
  })

-- One round of the loop of `allocate`, past its `break`: the new `toggle`, `ptr` and handle.
unfoldable pub claim : ℕ → ℕ → ℕ → Handle → ℕ × ℕ × Handle
claim num toggle ptr h =
    if ltb toggle num
    then (toggle - 1, ptr, record h { in_use = true; num_blocks = toggle })
    else if not h.in_use && leb num h.num_blocks
    then (toggle - 1, h.ptr, record h { in_use = true; num_blocks = num })
    else (toggle, ptr, h)

unfoldable pub claim_all : ℕ → ℕ → ℕ → List Handle → ℕ × List Handle
unfolding claim
claim_all num toggle ptr [] = (ptr, [])
claim_all num toggle ptr (h ∷ hs) =
    let round = claim num toggle ptr h in
    let rest = claim_all num round.0 round.1 hs in
    if toggle == 0 then (ptr, h ∷ hs) else (rest.0, round.2 ∷ rest.1)

pub data Allocated : Type 0 where
  unbuilt : Allocated
  cache_drain : Allocated
  block : ℕ → ℕ → Allocated

-- `allocate`: the handles are kept where it throws, since no block was found.
unfoldable pub allocate : ℕ → Manager → Option ℕ × Manager
allocate num m =
    let (ptr, handles) = claim_all num num 0 m.handles in
    if ptr == 0
    then (none, record m { handles = handles })
    else (some ptr, record m { handles = handles; total = (m.total + num) % u32_mod })

-- `alloc_raw`: `block` carries the address and the tracking id.
unfoldable pub alloc_raw : ℕ → Manager → Allocated × Manager
unfolding allocate
alloc_raw num m =
    if m.cache_size == 0
    then (unbuilt, m)
    else let tracked = record m { track_id = m.track_id + 1 } in
      let (found, m') = allocate num tracked in
      (elim found [ none ↦ cache_drain | some ptr ↦ block ptr (m.track_id + 1) ], m')

-- "free and link in the blocks": `count` handles from `i` on, with `link` falling.
unfoldable pub free_blocks : ℕ → ℕ → ℕ → List Handle → Option (List Handle)
free_blocks zero i link hs = some hs
free_blocks (suc count) i link hs = do
  h ← get_elem? hs i
  free_blocks count (i + 1) (link - 1) (set hs i (record h { in_use = false; num_blocks = link }))

-- "Relink the blocks up the line": from the handle before place `i` upwards.
unfoldable pub relink : ℕ → ℕ → List Handle → Option (List Handle)
relink zero link hs = some hs
relink (suc i) link hs = do
  h ← get_elem? hs i
  let rest = relink i (link + 1) (set hs i (record h { num_blocks = link }))
  if h.in_use then some hs else rest

-- `free_raw` on the handles: the number of blocks freed and the new handles.
unfoldable pub free_at : ℕ → List Handle → Option (ℕ × List Handle)
unfolding free_blocks relink
free_at index hs = do
  h ← get_elem? hs index
  after ← get_elem? hs (index + h.num_blocks)
  let link = if after.in_use then h.num_blocks else h.num_blocks + after.num_blocks
  freed ← free_blocks h.num_blocks index link hs
  linked ← relink (suc index) link freed
  some (h.num_blocks, linked)

unfoldable pub free_raw : ℕ → Manager → Option Manager
free_raw ptr m = if ltb ptr m.raw_cache || ltb m.bound ptr then some m else do
  require (ltb 0 m.block_size)
  (blocks, handles) ← free_at ((ptr - m.raw_cache) / m.block_size) m.handles
  some (record m { handles = handles; total = (m.total + u32_mod - blocks) % u32_mod })
