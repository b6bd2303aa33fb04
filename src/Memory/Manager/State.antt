-- ===== src/Memory/Manager/State.antt =====
-- The whole cache manager against a row of segments: `build_cache`, `alloc_raw` and `free_raw`.
use native.Mathlib.Nat.{mul-div_cancel}
use strange_io.Common.{
  if◌then◌else◌, ℕ, zero, suc, ◌+◌, ◌-◌, ◌*◌, ◌/◌, ◌%◌, ◌≤◌, ◌<◌, ◌≡◌, refl, ap, ◌∙◌, none, some,
  List, [], ◌∷◌, ◌++◌, arith, u32_mod,
}
use strange_io.Memory.Manager.{Handle, Manager, free_raw, free_at}
use strange_io.Memory.Manager.Segments.{mul-split, Segment, free, taken, render, size, size-append}
use strange_io.Memory.Manager.Alloc.{rest_free}
use strange_io.Memory.Manager.Free.Segment.{
  EndsUsed, StartsUsed, Followed, around, size-around, free_at-around, free_at-last,
}

-- The blocks in use.
abbrev pub in_use_of : List Segment → ℕ
in_use_of [] = 0
in_use_of (s ∷ ss) = (if s.used then s.blocks else 0) + in_use_of ss

-- A built cache whose handles are those of a row of segments, with the count of blocks in use.
pub record Renders (m : Manager) (ss : List Segment) : Type 0 where
  pub built : 0 < m.raw_cache
  pub sized : 0 < m.block_size
  pub cached : 0 < m.cache_size
  pub handles_of : m.handles ≡ render m.block_size m.raw_cache ss
  pub covers : size ss ≡ m.num_blocks
  pub last_block : m.bound ≡ m.raw_cache + (m.num_blocks - 1) * m.block_size
  pub small : m.num_blocks < u32_mod
  pub counted : m.total ≡ in_use_of ss

pub in_use_of-append : (ss ts : List Segment) → in_use_of (ss ++ ts) ≡ in_use_of ss + in_use_of ts
in_use_of-append [] ts = omega arith
in_use_of-append (s ∷ ss) ts = omega (arith, in_use_of-append ss ts)

in_use_of-rest_free : (r : ℕ) (ss : List Segment) → in_use_of (rest_free r ss) ≡ in_use_of ss
in_use_of-rest_free zero ss = refl
in_use_of-rest_free (suc r) ss = omega arith

pub in_use_of-around :
    (pre : List Segment) (l n r : ℕ) (post : List Segment)
    → in_use_of (around pre l n r post) ≡ in_use_of pre + n + in_use_of post
in_use_of-around pre l n r post = omega (
  arith,
  in_use_of-append pre (rest_free l (taken n ∷ rest_free r post)),
  in_use_of-rest_free l (taken n ∷ rest_free r post),
  in_use_of-rest_free r post,
)

pub in_use_of-le-size : (ss : List Segment) → in_use_of ss ≤ size ss
in_use_of-le-size [] = omega arith
in_use_of-le-size (s ∷ ss) = ground (arith, in_use_of-le-size ss)

block_index : (raw bs k : ℕ) → 0 < bs → (raw + k * bs - raw) / bs ≡ k
block_index raw bs k h = ap (λ t. t / bs) (omega arith) ∙ mul-div_cancel k h

-- `free_raw` at the first address of block `k`.
free_raw-at :
    (m : Manager) (k n : ℕ) (hs : List Handle)
    → 0 < m.block_size
    → m.bound ≡ m.raw_cache + (m.num_blocks - 1) * m.block_size
    → k < m.num_blocks
    → free_at k m.handles ≡ some (n, hs)
    → free_raw (m.raw_cache + k * m.block_size) m
      ≡ some (record m { handles = hs; total = (m.total + u32_mod - n) % u32_mod })
unfolding free_raw
free_raw-at m k n hs sized last inside e = ground (
  arith,
  block_index m.raw_cache m.block_size k sized,
  mul-split k (m.num_blocks - 1) m.block_size,
)

-- Freeing the address of a segment in use makes it free, joined with the free blocks around it, if
-- the segment, with the free blocks behind it, does not reach the end of the cache.
pub free_raw-Renders :
    (m : Manager) (pre : List Segment) (l n r : ℕ) (post : List Segment)
    → Renders m (around pre l n r post)
    → 0 < n
    → EndsUsed pre
    → StartsUsed post
    → Followed r post
    → (m' : Manager) × (free_raw (m.raw_cache + (size pre + l) * m.block_size) m ≡ some m')
      × Renders m' (pre ++ free (l + (n + r)) ∷ post)
free_raw-Renders m pre l n r post h pos ends starts fo = (
  record m {
    handles = render m.block_size m.raw_cache (pre ++ free (l + (n + r)) ∷ post);
    total = (m.total + u32_mod - n) % u32_mod;
  },
  free_raw-at m (size pre + l) n _ h.sized h.last_block
      (omega (arith, h.covers, size-around pre l n r post))
      (ap (free_at (size pre + l)) h.handles_of
        ∙ free_at-around m.block_size m.raw_cache pre l n r post pos ends starts fo),
  record {
    built = h.built;
    sized = h.sized;
    cached = h.cached;
    handles_of = refl;
    covers =
        omega (
          arith,
          h.covers,
          size-around pre l n r post,
          size-append pre (free (l + (n + r)) ∷ post),
        );
    last_block = h.last_block;
    small = h.small;
    counted = omega (
      arith,
      h.counted,
      h.small,
      h.covers,
      in_use_of-le-size (around pre l n r post),
      in_use_of-around pre l n r post,
      in_use_of-append pre (free (l + (n + r)) ∷ post),
    );
  },
)

free_raw-fault :
    (m : Manager) (k : ℕ)
    → 0 < m.block_size
    → m.bound ≡ m.raw_cache + (m.num_blocks - 1) * m.block_size
    → k < m.num_blocks
    → free_at k m.handles ≡ none
    → free_raw (m.raw_cache + k * m.block_size) m ≡ none
unfolding free_raw
free_raw-fault m k sized last inside e = ground (
  arith,
  block_index m.raw_cache m.block_size k sized,
  mul-split k (m.num_blocks - 1) m.block_size,
)

-- A segment in use that reaches the end of the cache cannot be freed: `free_raw` reads the handle
-- behind the last one.
pub free_raw-last :
    (m : Manager) (pre : List Segment) (l n : ℕ)
    → Renders m (around pre l n 0 [])
    → 0 < n
    → free_raw (m.raw_cache + (size pre + l) * m.block_size) m ≡ none
free_raw-last m pre l n h pos =
    free_raw-fault m (size pre + l) h.sized h.last_block
      (omega (arith, h.covers, size-around pre l n 0 []))
      (ap (free_at (size pre + l)) h.handles_of ∙ free_at-last m.block_size m.raw_cache pre l n pos)
