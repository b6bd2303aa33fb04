-- ===== src/Memory/Manager/Cycle.antt =====
-- Building the cache, giving blocks out, and taking them back.
use mathlib.Core.List.{append-nil}
use native.Mathlib.Nat.{mod-eq_of_lt, mul_comm}
use strange_io.Common.{
  ℕ, zero, suc, ◌+◌, ◌-◌, ◌*◌, ◌%◌, ◌<◌, ◌≡◌, refl, ap, sym, subst, ◌∙◌, Bool, false, none, some,
  List, [], ◌∷◌, ◌++◌, arith, get_elem?, u32_mod,
}
use strange_io.Memory.Manager.{
  Manager, new_manager, build_handles, build_cache, block, cache_drain, allocate, alloc_raw,
  free_raw, claim_all,
}
use strange_io.Memory.Manager.Segments.{
  Segment, free, run, stretch, stretch_eq, render, size, size-append, mul_of_add, mul-split,
}
use strange_io.Memory.Manager.Alloc.{carve, claim_all-carve, claim_all-drained}
use strange_io.Memory.Manager.Carving.{Cut, carve-Cut, IsTidy, IsTidy-neighbours}
use strange_io.Memory.Manager.Free.Segment.{size-around, Followed}
use strange_io.Memory.Manager.State.{
  Renders, in_use_of, in_use_of-append, in_use_of-around, in_use_of-le-size, free_raw-Renders,
}

build_handles-run :
    (base bs i left : ℕ)
    → (i + left) * bs < u32_mod
    → build_handles base bs i left ≡ run bs (base + i * bs) false left
unfolding build_handles
build_handles-run base bs i zero h = refl
build_handles-run base bs i (suc left) h = ground (
  arith,
  mul_of_add (i + suc left) i (suc left) bs refl,
  mul_of_add (i + 1 + left) i (suc left) bs (omega arith),
  mul_of_add (i + 1) i 1 bs refl,
  mod-eq_of_lt {n = i * bs} {m = u32_mod},
  build_handles-run base bs (i + 1) left,
  stretch_eq bs false {a = base + (i + 1) * bs} {b = base + i * bs + bs} {top = left}
      {t = suc left - 1} {m = left} {n = left} (omega (arith, mul_of_add (i + 1) i 1 bs refl))
      (omega arith) refl,
)

fresh_handles : (base bs n : ℕ) → n * bs < u32_mod → build_handles base bs 0 n ≡ run bs base false n
fresh_handles base bs n h =
    build_handles-run base bs 0 n (omega (arith, mul_of_add (0 + n) 0 n bs refl))
    ∙ stretch_eq bs false (omega arith) refl refl

get_elem?-stretch :
    (bs a : ℕ) (u : Bool) (top n k : ℕ)
    → k < n
    → get_elem? (stretch bs a u top n) k
      ≡ some (record { ptr = a + k * bs; in_use = u; num_blocks = top - k })
get_elem?-stretch bs a u top zero k h = elim h [ ]
get_elem?-stretch bs a u top (suc n) zero h = ground arith
get_elem?-stretch bs a u top (suc n) (suc k) h = ground (
  arith,
  get_elem?-stretch bs (a + bs) u (top - 1) n k (omega arith),
  mul_of_add (suc k) k 1 bs (omega arith),
)

-- A new cache is one free segment of blocks of the size asked for.
pub build_cache-Renders :
    (stray n base bs : ℕ)
    → 0 < n
    → 0 < bs
    → 0 < base
    → n * bs < u32_mod
    → (m : Manager) × (build_cache base bs (new_manager stray n) ≡ some m)
      × Renders m (free n ∷ [])
      × (m.block_size ≡ bs)
unfolding build_cache new_manager
build_cache-Renders stray n base bs hn hs hb fits =
    let narrow : n < u32_mod = omega (arith, mul-split 1 bs n hs, mul_comm n bs) in
    let same : n % u32_mod ≡ n = mod-eq_of_lt narrow in
    let last : (n + u32_mod - 1) % u32_mod ≡ n - 1 = omega arith in
    (
      record {
        raw_cache = base;
        bound = base + (n - 1) * bs;
        num_blocks = n;
        block_size = bs;
        total = 0;
        cache_size = bs * n % u32_mod;
        track_id = 1;
        handles = run bs base false n;
      },
      rw same (
          rw last (
            rw (fresh_handles base bs n fits)
              (rw (get_elem?-stretch bs base false n n (n - 1) (omega arith))))),
      record {
        built = hb;
        sized = hs;
        cached = omega (arith, mul-split 1 bs n hs, mul_comm n bs);
        handles_of = sym (append-nil _);
        covers = omega arith;
        last_block = refl;
        small = narrow;
        counted = omega arith;
      },
      refl,
    )

carve-sizes :
    (num : ℕ) (ss : List Segment) (off : ℕ) (ts : List Segment)
    → Cut num ss off ts
    → (size ts ≡ size ss) × (in_use_of ts ≡ in_use_of ss + num)
carve-sizes num ss off ts c = (
  omega (
    arith,
    ap size c.whole,
    ap size c.cut,
    size-append c.pre (free c.found ∷ c.post),
    size-around c.pre 0 num (c.found - num) c.post,
    c.fits,
  ),
  omega (
    arith,
    ap in_use_of c.whole,
    ap in_use_of c.cut,
    in_use_of-append c.pre (free c.found ∷ c.post),
    in_use_of-around c.pre 0 num (c.found - num) c.post,
  ),
)

-- `alloc_raw` gives out the first blocks of the first free segment that is large enough.
pub alloc_raw-carve :
    (m : Manager) (ss : List Segment) (num off : ℕ) (ts : List Segment)
    → Renders m ss
    → 0 < num
    → carve num ss ≡ some (off, ts)
    → (m' : Manager) × (alloc_raw num m
        ≡ (block (m.raw_cache + off * m.block_size) (m.track_id + 1), m'))
      × Renders m' ts
      × (m'.raw_cache ≡ m.raw_cache)
      × (m'.block_size ≡ m.block_size)
unfolding alloc_raw allocate
alloc_raw-carve m ss num off ts h pos e =
    let sizes = carve-sizes num ss off ts (carve-Cut num ss off ts e) in
    let claimed : claim_all num num 0 m.handles
        ≡ (m.raw_cache + off * m.block_size, render m.block_size m.raw_cache ts) =
      ap (claim_all num num 0) h.handles_of
      ∙ claim_all-carve m.block_size num 0 m.raw_cache ss off ts pos e in
    (
      record m {
        total = (m.total + num) % u32_mod;
        track_id = m.track_id + 1;
        handles = render m.block_size m.raw_cache ts;
      },
      ground (arith, claimed, h.built, h.cached),
      record {
        built = h.built;
        sized = h.sized;
        cached = h.cached;
        handles_of = refl;
        covers = sizes.0 ∙ h.covers;
        last_block = h.last_block;
        small = h.small;
        counted =
            omega (arith, h.counted, sizes.0, sizes.1, in_use_of-le-size ts, h.covers, h.small);
      },
      refl,
      refl,
    )

-- It throws `cache_drain`, and changes no handle, where there is no such segment.
pub alloc_raw-drained :
    (m : Manager) (ss : List Segment) (num : ℕ)
    → Renders m ss
    → 0 < num
    → carve num ss ≡ none
    → alloc_raw num m ≡ (cache_drain, record m { track_id = m.track_id + 1 })
unfolding alloc_raw allocate
alloc_raw-drained m ss num h pos e =
    let claimed : claim_all num num 0 m.handles ≡ (0, m.handles) =
      ap (claim_all num num 0) h.handles_of
      ∙ claim_all-drained m.block_size num 0 m.raw_cache ss pos e
      ∙ ap (λ hs. (0, hs)) (sym h.handles_of) in
    ground (arith, claimed, h.cached)

followed : (r : ℕ) (post : List Segment) → 0 < r + size post → Followed r post
followed zero [] h = elim h [ ]
followed zero (s ∷ post) h = tt
followed (suc r) post h = tt

-- Blocks that are given out and taken back leave the cache as it was, unless they reach its end.
pub free_raw-alloc_raw :
    (m : Manager) (ss : List Segment) (num off : ℕ) (ts : List Segment)
    → Renders m ss
    → IsTidy ss
    → 0 < num
    → carve num ss ≡ some (off, ts)
    → off + num < m.num_blocks
    → (m' : Manager) × (alloc_raw num m
        ≡ (block (m.raw_cache + off * m.block_size) (m.track_id + 1), m'))
      × (m'' : Manager) × (free_raw (m.raw_cache + off * m.block_size) m' ≡ some m'')
      × Renders m'' ss
free_raw-alloc_raw m ss num off ts h t pos e inside =
    let c = carve-Cut num ss off ts e in
    let given = alloc_raw-carve m ss num off ts h pos e in
    let next = IsTidy-neighbours c.pre c.found c.post (subst IsTidy c.whole t) in
    let back =
      free_raw-Renders given.0 c.pre 0 num (c.found - num) c.post
        (subst (Renders given.0) c.cut given.2) pos next.0 next.1 (room c) in
    let place : off ≡ size c.pre + 0 = omega (arith, c.offset) in
    let address : m.raw_cache + off * m.block_size
        ≡ given.0.raw_cache + (size c.pre + 0) * given.0.block_size =
      λ i. sym given.3 i + place i * sym given.4 i in
    let rejoined : c.pre ++ free (0 + (num + (c.found - num))) ∷ c.post ≡ ss =
      ap (λ k. c.pre ++ free k ∷ c.post) (omega (arith, c.fits)) ∙ sym c.whole in
    (
      given.0,
      given.1,
      back.0,
      ap (λ p. free_raw p given.0) address ∙ back.1,
      subst (Renders back.0) rejoined back.2,
    )
  where
    room : (c : Cut num ss off ts) → Followed (c.found - num) c.post
    room c = followed (c.found - num) c.post (
        omega (
          arith,
          c.offset,
          c.fits,
          ap size c.whole,
          h.covers,
          size-append c.pre (free c.found ∷ c.post),
        ))
