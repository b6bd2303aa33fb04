-- ===== src/Buffer/Normalised/Flush.antt =====
-- `flush` of `NormalisedSizeBuffer` (framework/staging/buffer/NormalisedSizeBuffer.cpp).
use strange_io.Common.{
  copy_out-at, copy_out, ℕ, ◌+◌, ◌-◌, ◌<◌, ◌≤◌, ◌≡◌, refl, ap, ◌∙◌, inl, inr, ◌||◌, not, some, List,
  [], ◌++◌, arith, length, take, drop, if◌then◌else◌, ltb, leb, leb→le, Bool-cases, length-drop,
  get_elem?-append, get_elem?-take, get_elem?-drop, list_ext,
}
use strange_io.Buffer.Normalised.{Normalised, state_of, flushed, flush, is_partial}
use strange_io.Buffer.Normalised.Holds.{wrap, Holds}

is_partial-state_of : (n k : ℕ) → (is_partial (state_of n k) || ltb k n) ≡ not (leb n k)
unfolding state_of
is_partial-state_of n k = ground arith

module _ {A : Type 0} where
  flushed-Holds :
      (b : Normalised A) (xs period : List A) (to : ℕ)
      → Holds b xs
      → b.n_size ≤ b.load
      → to ≡ wrap b.bound (b.r_read + b.n_size)
      → Holds (flushed period to b).1 (drop b.n_size xs)
  unfolding flushed
  flushed-Holds b xs period to h enough goes = record {
    sized = h.sized;
    normal = h.normal;
    asked = h.asked;
    inside = ground (arith, h.inside, h.normal, goes);
    ends = ground (arith, h.ends, h.inside, h.normal, h.fits, enough, goes);
    counted = omega (arith, h.counted, length-drop b.n_size xs);
    fits = omega (arith, h.fits);
    told = refl;
    at = λ i lt. ground (
      arith,
      lt,
      goes,
      enough,
      h.inside,
      h.normal,
      h.fits,
      h.at (b.n_size + i),
      get_elem?-drop b.n_size xs i,
    );
  }

  -- What `flush` reads without going round.
  flush-straight :
      (b : Normalised A) (xs : List A)
      → Holds b xs
      → b.n_size ≤ b.load
      → b.r_read + b.n_size < b.bound
      → copy_out b.r_read b.n_size b.remainder ≡ some (take b.n_size xs)
  flush-straight b xs h enough lt =
      let (out, copies, long, at) =
        copy_out-at b.r_read b.n_size b.remainder (omega (arith, h.sized, lt)) in
      let same : out ≡ take b.n_size xs =
        list_ext out (take b.n_size xs)
          (λ j. ground (arith, lt, enough, h.inside, h.at j, at j, get_elem?-take b.n_size xs j)) in
      copies ∙ ap some same

  -- And in two parts.
  flush_round :
      (b : Normalised A) (xs : List A)
      → Holds b xs
      → b.n_size ≤ b.load
      → b.bound ≤ b.r_read + b.n_size
      → (first : List A) × (second : List A) × (copy_out b.r_read (b.bound - b.r_read) b.remainder
          ≡ some first)
        × (copy_out 0 (b.n_size - (b.bound - b.r_read)) b.remainder ≡ some second)
        × (first ++ second ≡ take b.n_size xs)
  flush_round b xs h enough past =
      let delta : ℕ = b.bound - b.r_read in
      let (first, copies, long, at) =
        copy_out-at b.r_read delta b.remainder (omega (arith, h.sized, h.inside)) in
      let (second, copies', long', at') =
        copy_out-at 0 (b.n_size - delta) b.remainder (omega (arith, h.sized, h.normal)) in
      (
        first,
        second,
        copies,
        copies',
        list_ext (first ++ second) (take b.n_size xs) (λ j. ground (
          arith,
          past,
          enough,
          h.inside,
          h.normal,
          long,
          long',
          h.at j,
          at j,
          at' (j - delta),
          get_elem?-append first second j,
          get_elem?-take b.n_size xs j,
        )),
      )

  closed :
      (b : Normalised A) (xs : List A)
      → Holds b xs
      → (is_partial b.state || ltb b.load b.n_size) ≡ not (leb b.n_size (length xs))
  closed b xs h =
      ap (λ s. is_partial s || ltb b.load b.n_size) h.told
      ∙ (is_partial-state_of b.n_size b.load ∙ ap (λ k. not (leb b.n_size k)) h.counted)

  -- Where a period of the normal size is held, `flush` takes out the oldest samples, in order, and
  -- reads no sample outside the buffer; where it is not, nothing is taken.
  pub flush-Holds :
      (b : Normalised A) (xs : List A)
      → Holds b xs
      → (b' : Normalised A) × (flush b
          ≡ some (if leb b.n_size (length xs) then take b.n_size xs else [], b'))
        × Holds b' (if leb b.n_size (length xs) then drop b.n_size xs else xs)
        × (b'.n_size ≡ b.n_size)
        × (b'.bound ≡ b.bound)
  unfolding flush flushed
  flush-Holds b xs h = elim (Bool-cases (leb b.n_size (length xs))) [
    | inr short ↦ (b, rw (closed b xs h, short), rw short h, refl, refl)
    | inl long ↦
        let enough : b.n_size ≤ b.load = omega (arith, h.counted, leb→le _ _ long) in
        elim (Bool-cases (leb b.bound (b.r_read + b.n_size))) [
          | inl round ↦
              let past : b.bound ≤ b.r_read + b.n_size = leb→le _ _ round in
              let (first, second, copies, copies', same) = flush_round b xs h enough past in
              let to : ℕ = b.n_size - (b.bound - b.r_read) in
              (
                (flushed (first ++ second) to b).1,
                rw (closed b xs h, long, round, copies, copies')
                    (ap (λ ys. some (ys, (flushed (first ++ second) to b).1)) same),
                rw long (
                    flushed-Holds b xs (first ++ second) to h enough
                      (ground (arith, h.inside, past))),
                refl,
                refl,
              )
          | inr straight ↦
              let lt : b.r_read + b.n_size < b.bound = ground (arith, straight) in
              let to : ℕ = b.r_read + b.n_size in
              (
                (flushed (take b.n_size xs) to b).1,
                rw (closed b xs h, long, straight, flush-straight b xs h enough lt),
                rw long (flushed-Holds b xs (take b.n_size xs) to h enough (ground (arith, lt))),
                refl,
                refl,
              )
        ]
  ]
