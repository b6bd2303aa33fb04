-- ===== src/Buffer/Delay/Capacity.antt =====
-- `delay` (framework/buffer/delay.cpp) after any calls on a new one.
use strange_io.Common.{
  ℕ, ◌+◌, ◌%◌, ◌<◌, ◌≡◌, refl, ap, subst, Option, none, some, List, [], ◌∷◌, lt→ltb, arith, ◌>>=◌,
  some_inj, >>=-eq-some, u32_mod,
}
use strange_io.Buffer.Delay.{
  Delay, DelayState, wait, new_delay, copy_to, supply, flush_raw, has_capacity,
}

-- A call on a delay buffer.
pub data Call (A : Type 0) : Type 0 where
  supplies : List A → Call A
  flushes : Call A

module _ {A : Type 0} where
  -- A run of calls, `none` where one is undefined.
  unfoldable pub run : List (Call A) → Delay A → Option (Delay A)
  run [] d = some d
  run (supplies samples ∷ calls) d = do (state, d') ← supply samples d; run calls d'
  run (flushes ∷ calls) d = run calls (flush_raw d).1

  -- A buffer that was never allocated.
  abbrev pub Unallocated : Delay A → Type 0
  Unallocated d = (d.buffer ≡ none) × (d.load ≡ 0) × (d.size ≡ 0)

  supply-Unallocated :
      (samples : List A) (d : Delay A) (d' : Delay A) (s : DelayState)
      → Unallocated d
      → supply samples d ≡ some (s, d')
      → Unallocated d' × (samples ≡ [])
  unfolding supply copy_to
  supply-Unallocated [] d d' s (b, l, z) e =
      (subst Unallocated (ap (λ r. r.1) (some_inj e)) (b, rw l refl, z), refl)
  supply-Unallocated (x ∷ xs) d d' s (b, l, z) e = absurd (undefined (rw b at e))
    where
      undefined : {B : Type 0} {r : B} → none ≡ some r → ⊥
      undefined h = cc

  -- No samples are supplied.
  abbrev pub NoSamples : List (Call A) → Type 0
  NoSamples [] = Unit {0}
  NoSamples (supplies samples ∷ calls) = (samples ≡ []) × NoSamples calls
  NoSamples (flushes ∷ calls) = NoSamples calls

  run-Unallocated :
      (calls : List (Call A)) (d d' : Delay A)
      → Unallocated d
      → run calls d ≡ some d'
      → NoSamples calls × Unallocated d'
  unfolding run flush_raw
  run-Unallocated [] d d' u e = (tt, subst Unallocated (some_inj e) u)
  run-Unallocated (supplies samples ∷ calls) d d' u e =
      let ((state, d₁), supplied, rest) = >>=-eq-some (supply samples d) _ e in
      let (u₁, none_there) = supply-Unallocated samples d d₁ state u supplied in
      let (empty, u') = run-Unallocated calls d₁ d' u₁ rest in ((none_there, empty), u')
  run-Unallocated (flushes ∷ calls) d d' (b, l, z) e =
      run-Unallocated calls (record d { load = 0 }) d' (b, refl, z) e

  -- A new delay buffer takes no samples, whatever number of blocks it is made for: in every run of
  -- calls on it that is defined nothing is supplied, and after it the buffer says that it has no
  -- capacity for any number of samples from 1 to below 2^32.
  pub run-new_delay :
      (num_blocks : ℕ) (calls : List (Call A)) (d : Delay A)
      → run calls (new_delay num_blocks) ≡ some d
      → NoSamples calls × ((n : ℕ) → 0 < n → n < u32_mod → has_capacity n d ≡ wait)
  unfolding new_delay has_capacity
  run-new_delay num_blocks calls d e =
      let (empty, (b, l, z)) =
        run-Unallocated calls (new_delay num_blocks) d (refl, refl, refl) e in
      (
        empty,
        λ n h small.
            let fits : 0 < (0 + n) % u32_mod = omega (arith, h, small) in
            rw (l, z, lt→ltb 0 ((0 + n) % u32_mod) fits),
      )
