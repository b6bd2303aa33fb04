-- ===== src/Routine/Sound/Trip.antt =====
-- Frames through a block of the cache: framework/routine/sound.cpp over framework/memory.
use strange_io.Common.{
  ℕ, zero, suc, ◌+◌, ◌-◌, ◌*◌, ◌%◌, ◌<◌, ◌≤◌, ◌≡◌, refl, sym, ap, ◌∙◌, subst, true, Option, none,
  some, List, [], ◌∷◌, ◌++◌, ◌>>=◌, arith, length, get_elem?, take, drop, le→leb,
  get_elem?-append_left, take-append-drop, u32_mod,
}
use strange_io.Component.Registrable.{Rhandle}
use strange_io.Memory.Manager.{Manager, free_raw}
use strange_io.Memory.Manager.Segments.{Segment}
use strange_io.Memory.Manager.Alloc.{carve}
use strange_io.Memory.Manager.Carving.{IsTidy}
use strange_io.Memory.Manager.State.{Renders}
use strange_io.Memory.Manager.Cycle.{free_raw-alloc_raw}
use strange_io.Memory.CachePtr.{
  CachePtr, cache_manager, make_ptr, holds, destroy, set_owner, cache_alloc,
}
use strange_io.Memory.Samples.{Samples, offset, view, copy_from}
use strange_io.Memory.Samples.Copies.{Reaches, Written, copy_from-Written, Written-self, samples_at}
use strange_io.Routine.Sound.{write, deinterleave2, interleave2, interleave_loop}
use strange_io.Routine.Sound.Inverse.{deinterleave2-places, interleave2-deinterleave2}
use strange_io.Routine.Sound.Pointers.{
  written, interleave_owner, interleave_checked, interleave_ptr,
}

mul_mono : (a b c : ℕ) → a ≤ b → a * c ≤ b * c
mul_mono a b c h = grind arith

-- The end of the pointer gives its block back.
destroys :
    (blank : Rhandle) (m : Manager) (ss : List Segment) (num off id : ℕ) (m' m'' : Manager)
    → Renders m ss
    → free_raw (m.raw_cache + off * m.block_size) m' ≡ some m''
    → destroy cache_manager
        (set_owner interleave_owner (make_ptr blank (m.raw_cache + off * m.block_size) num true id))
        m'
      ≡ some m''
unfolding destroy set_owner make_ptr
destroys blank m ss num off id m' m'' h back = ground (arith, back, h.built)

module _ {A : Type 0} where
  bind_ext :
      {B : Type 0} (o : Option B) (f g : B → Option (List A))
      → ((x : B) → f x ≡ g x)
      → (o >>= f) ≡ (o >>= g)
  bind_ext none f g h = refl
  bind_ext (some x) f g h = h x

  -- What stands behind the frames is not read.
  interleave_loop-append :
      (xs ys : List A) (n left sample block_index : ℕ) (out : List A)
      → length xs ≡ 2 * n
      → sample + left ≤ n
      → interleave_loop (xs ++ ys) n left sample block_index out
        ≡ interleave_loop xs n left sample block_index out
  unfolding interleave_loop
  interleave_loop-append xs ys n zero sample block_index out long h = refl
  interleave_loop-append xs ys n (suc left) sample block_index out long h =
      rw
        (
          get_elem?-append_left xs ys sample (omega (arith, long, h)),
          get_elem?-append_left xs ys (n + sample) (omega (arith, long, h)),
        )
        (bind_ext (get_elem? xs sample) _ _ (λ x. bind_ext (write block_index x out) _ _ (λ out₁.
          bind_ext (get_elem? xs (n + sample)) _ _ (λ y.
            bind_ext (write ((block_index + 1) % u32_mod) y out₁) _ _ (λ out₂.
              interleave_loop-append xs ys n left (sample + 1)
                (((block_index + 1) % u32_mod + 1) % u32_mod) out₂ long (omega (arith, h)))))))

  interleave2-append :
      (xs ys out : List A) (n : ℕ)
      → length xs ≡ 2 * n
      → interleave2 (xs ++ ys) out n ≡ interleave2 xs out n
  unfolding interleave2
  interleave2-append xs ys out n long = interleave_loop-append xs ys n n 0 0 out long (omega arith)

  -- The block as the buffer that `interleave2` reads.
  view-Written :
      (p : CachePtr) (xs : List A) (mem mem' : Samples A)
      → Written p xs mem mem'
      → mem.base ≤ p.block
      → (rest : List A) × (view p mem' ≡ some (xs ++ rest))
  unfolding view offset samples_at
  view-Written p xs mem mem' w from =
      let cells : List A = drop (p.block - mem'.base) mem'.cells in
      (
        drop (length xs) cells,
        rw (le→leb mem'.base p.block (omega (arith, w.same_base, from))) (
            ap some (
              sym (take-append-drop (length xs) cells)
              ∙ ap (λ ys. ys ++ drop (length xs) cells) (Written-self p xs mem mem' w))),
      )

  take_all : (n : ℕ) (xs : List A) → length xs ≡ n → take n xs ≡ xs
  take_all zero [] h = refl
  take_all zero (x ∷ xs) h = absurd (omega (arith, h))
  take_all (suc n) [] h = absurd (omega (arith, h))
  take_all (suc n) (x ∷ xs) h = ap (◌∷◌ x) (take_all n xs (omega (arith, h)))

  -- A pointer to a block that the cache has given out reaches as many samples as its blocks hold.
  Reaches-block :
      (blank : Rhandle) (m : Manager) (ss : List Segment) (num off k id : ℕ) (mem : Samples A)
      → Renders m ss
      → mem.base ≡ m.raw_cache
      → length mem.cells ≡ m.num_blocks * m.block_size
      → off + num < m.num_blocks
      → k ≤ num * m.block_size
      → Reaches (make_ptr blank (m.raw_cache + off * m.block_size) num true id) k mem
  unfolding make_ptr holds
  Reaches-block blank m ss num off k id mem h based full inside small =
      let product : (off + num) * m.block_size ≤ m.num_blocks * m.block_size =
        mul_mono (off + num) m.num_blocks m.block_size (omega (arith, inside)) in
      let split : (off + num) * m.block_size ≡ off * m.block_size + num * m.block_size =
        grind arith in
      record {
        there = ground (arith, h.built);
        from = omega (arith, based);
        to = omega (arith, based, full, product, split, small);
      }

  -- Writing to a block and reading it by `interleave2`, which ends the pointer.
  interleave_ptr-copy_from :
      (p : CachePtr) (mid out frames : List A) (n : ℕ) (mem : Samples A) (m m' : Manager)
      → Reaches p (2 * n) mem
      → length mid ≡ 2 * n
      → interleave2 mid out n ≡ some frames
      → destroy cache_manager (set_owner interleave_owner p) m ≡ some m'
      → (mem' : Samples A) × (copy_from p mid (2 * n) mem ≡ some mem')
        × (interleave_ptr cache_manager p (some out) n mem' m ≡ some (written frames, m'))
  unfolding interleave_ptr interleave_checked
  interleave_ptr-copy_from p mid out frames n mem m m' r long reads ends =
      let (mem', copies, w) = copy_from-Written p (2 * n) mid mem r (omega (arith, long)) in
      let w' : Written p mid mem mem' =
        subst (λ xs. Written p xs mem mem') (take_all (2 * n) mid long) w in
      let (rest, sees) = view-Written p mid mem mem' w' r.from in
      (mem', copies, rw (r.there, sees, interleave2-append mid rest out n long, reads, ends))

  -- Frames that are deinterleaved, copied to a block from the cache and interleaved from its pointer
  -- come out as they were, and the cache is then as it was before the block was given out.
  pub interleave_ptr-deinterleave2 :
      (d : A) (blank : Rhandle) (m : Manager) (ss : List Segment) (num off : ℕ) (ts : List Segment)
      (frames scratch out : List A) (n : ℕ) (mem : Samples A)
      → Renders m ss
      → IsTidy ss
      → 0 < num
      → carve num ss ≡ some (off, ts)
      → off + num < m.num_blocks
      → mem.base ≡ m.raw_cache
      → length mem.cells ≡ m.num_blocks * m.block_size
      → length frames ≡ 2 * n
      → length scratch ≡ 2 * n
      → length out ≡ 2 * n
      → 2 * n ≤ num * m.block_size
      → 2 * n < u32_mod
      → (p : CachePtr) × (m' : Manager) × (cache_alloc cache_manager blank true num m
          ≡ (some p, m'))
        × (mem' : Samples A) × ((deinterleave2 frames scratch n >>= λ mid.
              copy_from p mid (2 * n) mem)
            ≡ some mem')
        × (m'' : Manager) × (interleave_ptr cache_manager p (some out) n mem' m'
            ≡ some (written frames, m''))
        × Renders m'' ss
  unfolding cache_alloc
  interleave_ptr-deinterleave2 d blank m ss num off ts frames scratch out n mem h t pos e inside
        based full lf ls lo room small =
      let (m', gives, m'', back, again) = free_raw-alloc_raw m ss num off ts h t pos e inside in
      let p : CachePtr =
        make_ptr blank (m.raw_cache + off * m.block_size) num true (m.track_id + 1) in
      let (mid, runs, size, at) = deinterleave2-places d frames scratch n lf ls small in
      let whole = interleave2-deinterleave2 d frames scratch out n lf ls lo small in
      let reads : interleave2 mid out n ≡ some frames =
        ap (λ o. o >>= λ x. interleave2 x out n) (sym runs) ∙ whole in
      let r =
        Reaches-block blank m ss num off (2 * n) (m.track_id + 1) mem h based full inside room in
      let (mem', copies, ends) =
        interleave_ptr-copy_from p mid out frames n mem m' m'' r size reads
          (destroys blank m ss num off (m.track_id + 1) m' m'' h back) in
      (
        p,
        m',
        ground (arith, gives),
        mem',
        ap (λ o. o >>= λ x. copy_from p x (2 * n) mem) runs ∙ copies,
        m'',
        ends,
        again,
      )
