-- ===== src/Routine/Sound/Inverse.antt =====
-- Where the routines of framework/routine/sound.cpp put samples, and one after the other.
use strange_io.Common.{
  ℕ, suc, ◌+◌, ◌-◌, ◌*◌, ◌/◌, ◌≤◌, ◌<◌, ◌≡◌, ◌⊎◌, inl, inr, refl, ap, ap₂, sym, ◌∙◌, some, List, [],
  ◌∷◌, arith, get_or, length, ◌>>=◌, u32_mod,
}
use strange_io.Routine.Sound.{deinterleave2, interleave2}
use strange_io.Routine.Sound.Round.{deinterleave_loop-Copied, interleave_loop-Copied}

module _ {A : Type 0} (d : A) where
  eq_of_get_or :
      (xs ys : List A)
      → length xs ≡ length ys
      → ((i : ℕ) → i < length xs → get_or xs i d ≡ get_or ys i d)
      → xs ≡ ys
  eq_of_get_or [] [] e h = refl
  eq_of_get_or [] (y ∷ ys) e h = absurd (omega (arith, e))
  eq_of_get_or (x ∷ xs) [] e h = absurd (omega (arith, e))
  eq_of_get_or (x ∷ xs) (y ∷ ys) e h =
      ap₂ ◌∷◌ (h 0 (omega arith))
        (eq_of_get_or xs ys (omega (arith, e)) (λ i lt. h (suc i) (omega arith)))

  -- Position `i` of `num_frames` interleaved frames.
  even_odd : (i n : ℕ) → i < 2 * n → (k : ℕ) × (k < n) × ((i ≡ 2 * k) ⊎ (i ≡ 2 * k + 1))
  even_odd i n h = (i / 2, omega arith, omega arith)

  low_high : (i n : ℕ) → i < 2 * n → (k : ℕ) × (k < n) × ((i ≡ k) ⊎ (i ≡ n + k))
  low_high i n h = elim (below i n) [
    | inl lt ↦ (i, lt, inl refl)
    | inr ge ↦ (i - n, omega arith, inr (omega arith))
  ]
    where
      below : (i n : ℕ) → (i < n) ⊎ (n ≤ i)
      below i n = omega arith

  -- `deinterleave2` puts the even samples of its input in the first half of its output, and the odd
  -- ones in the second half, where both buffers hold as many samples as the frames have, and that
  -- is a number below 2^32.
  pub deinterleave2-places :
      (inp out : List A) (num_frames : ℕ)
      → length inp ≡ 2 * num_frames
      → length out ≡ 2 * num_frames
      → 2 * num_frames < u32_mod
      → (res : List A) × (deinterleave2 inp out num_frames ≡ some res)
        × (length res ≡ 2 * num_frames)
        × ((i : ℕ)
            → i < num_frames
            → (get_or res i d ≡ get_or inp (2 * i) d)
              × (get_or res (num_frames + i) d ≡ get_or inp (2 * i + 1) d))
  unfolding deinterleave2
  deinterleave2-places inp out n li lo small =
      let (res, run, (size, at)) =
        deinterleave_loop-Copied d n inp n 0 0 out refl (omega arith) li lo small in
      (res, run, size, λ i h. (at i h).1 (omega arith))

  pub interleave2-places :
      (inp out : List A) (num_frames : ℕ)
      → length inp ≡ 2 * num_frames
      → length out ≡ 2 * num_frames
      → 2 * num_frames < u32_mod
      → (res : List A) × (interleave2 inp out num_frames ≡ some res)
        × (length res ≡ 2 * num_frames)
        × ((i : ℕ)
            → i < num_frames
            → (get_or res (2 * i) d ≡ get_or inp i d)
              × (get_or res (2 * i + 1) d ≡ get_or inp (num_frames + i) d))
  unfolding interleave2
  interleave2-places inp out n li lo small =
      let (res, run, (size, at)) =
        interleave_loop-Copied d n inp n 0 0 out refl (omega arith) li lo small in
      (res, run, size, λ i h. (at i h).1 (omega arith))

  -- Deinterleaving two channels and interleaving them again gives the samples back, whatever the
  -- two output buffers held, where all buffers hold as many samples as the frames have, and that is
  -- a number below 2^32.
  pub interleave2-deinterleave2 :
      (inp out out' : List A) (num_frames : ℕ)
      → length inp ≡ 2 * num_frames
      → length out ≡ 2 * num_frames
      → length out' ≡ 2 * num_frames
      → 2 * num_frames < u32_mod
      → (deinterleave2 inp out num_frames >>= λ mid. interleave2 mid out' num_frames) ≡ some inp
  interleave2-deinterleave2 inp out out' n li lo lo' small =
      let (mid, run, size, at) = deinterleave2-places inp out n li lo small in
      let (res, run', size', at') = interleave2-places mid out' n size lo' small in
      rw (run, run')
        (ap some (
          eq_of_get_or res inp (size' ∙ sym li) (λ i h.
            let (k, lt, place) = even_odd i n (omega arith) in
            elim place [
              | inl e ↦ rw e ((at' k lt).0 ∙ (at k lt).0)
              | inr e ↦ rw e ((at' k lt).1 ∙ (at k lt).1)
            ])))

  -- Interleaving two channels and deinterleaving them again gives the samples back, under the same
  -- conditions: all buffers hold as many samples as the frames have, a number below 2^32.
  pub deinterleave2-interleave2 :
      (inp out out' : List A) (num_frames : ℕ)
      → length inp ≡ 2 * num_frames
      → length out ≡ 2 * num_frames
      → length out' ≡ 2 * num_frames
      → 2 * num_frames < u32_mod
      → (interleave2 inp out num_frames >>= λ mid. deinterleave2 mid out' num_frames) ≡ some inp
  deinterleave2-interleave2 inp out out' n li lo lo' small =
      let (mid, run, size, at) = interleave2-places inp out n li lo small in
      let (res, run', size', at') = deinterleave2-places mid out' n size lo' small in
      rw (run, run')
        (ap some (
          eq_of_get_or res inp (size' ∙ sym li) (λ i h.
            let (k, lt, place) = low_high i n (omega arith) in
            elim place [
              | inl e ↦ rw e ((at' k lt).0 ∙ (at k lt).0)
              | inr e ↦ rw e ((at' k lt).1 ∙ (at k lt).1)
            ])))
