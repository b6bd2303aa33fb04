-- ===== src/Memory/CachePtr/Ownership.antt =====
-- Who frees a block: what the operations of `cache_ptr` do to the number of owners.
use strange_io.Common.{
  ℕ, ◌+◌, ◌*◌, ◌<◌, ◌≡◌, refl, ◌≢◌, Bool, true, Option, some, arith, if◌then◌else◌, ◌>>=◌, List,
}
use strange_io.Component.Registrable.{Rhandle}
use strange_io.Memory.Manager.{Manager}
use strange_io.Memory.Manager.Segments.{Segment}
use strange_io.Memory.Manager.Alloc.{carve}
use strange_io.Memory.Manager.Carving.{IsTidy}
use strange_io.Memory.Manager.State.{Renders}
use strange_io.Memory.Manager.Cycle.{free_raw-alloc_raw}
use strange_io.Memory.CachePtr.{
  CacheUtility, cache_manager, CachePtr, move_ptr, assign, make_ptr, destroy, reset, swap,
  cache_alloc,
}

module _ {S : Type 0} (cache : CacheUtility S) where
  -- The end of two pointers' lives, in the order given.
  abbrev pub destroy_both : CachePtr → CachePtr → S → Option S
  destroy_both p q s = destroy cache p s >>= destroy cache q

  -- After a move the block is freed exactly as it would have been by the pointer moved from.
  pub destroy-move :
      (p : CachePtr) (s : S)
      → let (q, p') = move_ptr p in
        (destroy_both q p' s ≡ destroy cache p s) × (destroy_both p' q s ≡ destroy cache p s)
  unfolding destroy move_ptr
  destroy-move p s = ground arith

  -- Assigning over a pointer that holds a block: that block is never freed. When both pointers are
  -- gone only the block assigned has been.
  pub destroy-assign :
      (p q : CachePtr) (s : S)
      → let (p', q') = assign p q in
        (destroy_both p' q' s ≡ destroy cache q s) × (destroy_both q' p' s ≡ destroy cache q s)
  unfolding destroy assign
  destroy-assign p q s = ground arith

  -- `reset` frees the block held, once, and takes the new one over.
  pub destroy-reset :
      (ptr n : ℕ) (p : CachePtr) (s : S)
      → p.has_cache ≡ true
      → ptr ≢ 0
      → (reset cache ptr n p s >>= λ r. destroy cache r.0 r.1)
        ≡ (destroy cache p s >>= λ s'. cache.free_raw ptr s')
  unfolding destroy reset
  destroy-reset ptr n p s h hp = ground arith

  -- `swap` exchanges the blocks and frees nothing. The count of the first pointer is exchanged too;
  -- that of the second is right only if it is read before `release`.
  pub swap-exchange :
      (first : Bool) (p q : CachePtr) (s : S)
      → (p' : CachePtr) × (q' : CachePtr) × (swap cache first p q s ≡ some (p', q', s))
        × (p'.block ≡ q.block)
        × (q'.block ≡ p.block)
        × (p'.num_blocks ≡ q.num_blocks)
        × (q'.num_blocks ≡ (if first then 0 else p.num_blocks))
  unfolding swap
  swap-exchange first p q s = (
    record p { block = q.block; num_blocks = q.num_blocks },
    record q { block = p.block; num_blocks = if first then 0 else p.num_blocks },
    ground arith,
    refl,
    refl,
    refl,
    refl,
  )

-- A block that `cache_alloc` hands out goes back to the cache when its pointer ends, and the cache
-- is then as it was.
pub destroy-cache_alloc :
    (blank : Rhandle) (m : Manager) (ss : List Segment) (num off : ℕ) (ts : List Segment)
    → Renders m ss
    → IsTidy ss
    → 0 < num
    → carve num ss ≡ some (off, ts)
    → off + num < m.num_blocks
    → (p : CachePtr) × (m' : Manager) × (cache_alloc cache_manager blank true num m ≡ (some p, m'))
      × (p.num_blocks ≡ num)
      × (m'' : Manager) × (destroy cache_manager p m' ≡ some m'')
      × Renders m'' ss
unfolding cache_alloc destroy
destroy-cache_alloc blank m ss num off ts h t pos e inside =
    let trip = free_raw-alloc_raw m ss num off ts h t pos e inside in
    (
      make_ptr blank (m.raw_cache + off * m.block_size) num true (m.track_id + 1),
      trip.0,
      ground (arith, trip.1),
      refl,
      trip.2,
      ground (arith, trip.3, h.built),
      trip.4,
    )
