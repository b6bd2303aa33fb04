-- ===== src/Buffer/Normalised/Holds.antt =====
-- The samples that a `NormalisedSizeBuffer` (framework/staging/buffer/NormalisedSizeBuffer.cpp) holds,
-- as a list.
use strange_io.Common.{
  ℕ, ◌+◌, ◌-◌, ◌<◌, ◌≤◌, ◌≡◌, refl, List, [], arith, length, get_elem?, if◌then◌else◌, ltb,
}
use strange_io.Buffer.Normalised.{Normalised, new_normalised, state_of}

-- Place `k` of a ring of `bound` places, where `k` goes round at most once.
abbrev pub wrap : ℕ → ℕ → ℕ
wrap bound k = if ltb k bound then k else k - bound

module _ {A : Type 0} where
  pub record Holds (b : Normalised A) (xs : List A) : Type 0 where
    pub sized : length b.remainder ≡ b.bound
    pub normal : b.n_size ≤ b.bound
    pub asked : 0 < b.n_size
    pub inside : b.r_read < b.bound
    pub ends : b.r_write ≡ wrap b.bound (b.r_read + b.load)
    pub counted : b.load ≡ length xs
    pub fits : b.load ≤ b.bound
    pub told : b.state ≡ state_of b.n_size b.load
    pub at :
        (i : ℕ) → i < b.load → get_elem? b.remainder (wrap b.bound (b.r_read + i)) ≡ get_elem? xs i

  pub new_normalised-Holds :
      (normal overflow : ℕ) (fresh : List A)
      → 0 < normal
      → length fresh ≡ normal + overflow
      → Holds (new_normalised normal overflow fresh) []
  unfolding new_normalised state_of
  new_normalised-Holds normal overflow fresh pos h = record {
    sized = h;
    normal = omega arith;
    asked = pos;
    inside = omega (arith, pos);
    ends = ground (arith, pos);
    counted = refl;
    fits = omega arith;
    told = ground (arith, pos);
    at = λ i lt. absurd (omega (arith, lt));
  }
