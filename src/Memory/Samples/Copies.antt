-- ===== src/Memory/Samples/Copies.antt =====
-- Copies of samples through cache pointers (framework/memory/cache_ptr.cpp).
use strange_io.Common.{
  ℕ, ◌+◌, ◌-◌, ◌≤◌, ◌≡◌, ◌⊎◌, refl, ap, ◌∙◌, true, none, some, List, ◌++◌, if◌then◌else◌, ltb,
  le→leb, length, get_elem?, take, drop, arith, copy_in, copy_out, CopiedIn, copy_in-CopiedIn,
  list_ext, subst, get_elem?-of_le, length-take, length-drop, get_elem?-take, get_elem?-drop,
}
use strange_io.Memory.CachePtr.{CachePtr, holds}
use strange_io.Memory.Samples.{Samples, offset, copy_from, copy_to_num}

-- What two pointers reach does not overlap.
abbrev pub Apart : CachePtr → ℕ → CachePtr → ℕ → Type 0
Apart p num q k = (p.block + num ≤ q.block) ⊎ (q.block + k ≤ p.block)

module _ {A : Type 0} where
  -- `num` samples at a pointer are in memory.
  pub record Reaches (p : CachePtr) (num : ℕ) (mem : Samples A) : Type 0 where
    pub there : holds p ≡ true
    pub from : mem.base ≤ p.block
    pub to : p.block + num ≤ mem.base + length mem.cells

  -- The samples at a pointer.
  unfoldable pub samples_at : CachePtr → ℕ → Samples A → List A
  samples_at p num mem = take num (drop (p.block - mem.base) mem.cells)

  copy_out-eq :
      (i n : ℕ) (region : List A)
      → i + n ≤ length region
      → copy_out i n region ≡ some (take n (drop i region))
  unfolding copy_out
  copy_out-eq i n region h = rw (le→leb (i + n) (length region) h)

  -- Writing at the beginning of an array.
  copy_in-front :
      (xs dest : List A)
      → length xs ≤ length dest
      → copy_in 0 xs dest ≡ some (xs ++ drop (length xs) dest)
  unfolding copy_in
  copy_in-front xs dest h =
      rw (le→leb (0 + length xs) (length dest) (omega (arith, h)))
        (let e : 0 + length xs ≡ length xs = omega arith in ap (λ k. some (xs ++ drop k dest)) e)

  pub copy_to_num-Reaches :
      (p : CachePtr) (num : ℕ) (dest : List A) (mem : Samples A)
      → Reaches p num mem
      → num ≤ length dest
      → copy_to_num p dest num mem ≡ some (samples_at p num mem ++ drop num dest)
  unfolding copy_to_num offset samples_at
  copy_to_num-Reaches p num dest mem r fits =
      let i : ℕ = p.block - mem.base in
      let long : length (take num (drop i mem.cells)) ≡ num =
        omega (arith, length-take num (drop i mem.cells), length-drop i mem.cells, r.from, r.to) in
      rw
        (
          r.there,
          le→leb mem.base p.block r.from,
          copy_out-eq i num mem.cells (omega (arith, r.from, r.to)),
          copy_in-front (take num (drop i mem.cells)) dest (omega (arith, long, fits)),
        )
        (ap (λ k. some (take num (drop i mem.cells) ++ drop k dest)) long)

  -- The samples that a copy writes through `p`, and those that it leaves.
  pub record Written (p : CachePtr) (xs : List A) (mem mem' : Samples A) : Type 0 where
    pub same_base : mem'.base ≡ mem.base
    pub copied : CopiedIn (p.block - mem.base) xs mem.cells mem'.cells

  pub copy_from-Written :
      (p : CachePtr) (num : ℕ) (samples : List A) (mem : Samples A)
      → Reaches p num mem
      → num ≤ length samples
      → (mem' : Samples A) × (copy_from p samples num mem ≡ some mem')
        × Written p (take num samples) mem mem'
  unfolding copy_from offset
  copy_from-Written p num samples mem r fits =
      let i : ℕ = p.block - mem.base in
      let long : length (take num samples) ≡ num = omega (arith, length-take num samples, fits) in
      let (cells, copies, c) =
        copy_in-CopiedIn i (take num samples) mem.cells (omega (arith, r.from, r.to, long)) in
      (
        record mem { cells = cells },
        rw (
          r.there,
          le→leb mem.base p.block r.from,
          copy_out-eq 0 num samples (omega (arith, fits)),
          copies,
        ),
        record { same_base = refl; copied = c },
      )

  samples_at-get :
      (p : CachePtr) (num : ℕ) (mem : Samples A) (j : ℕ)
      → get_elem? (samples_at p num mem) j
        ≡ (if ltb j num then get_elem? mem.cells (p.block - mem.base + j) else none)
  unfolding samples_at
  samples_at-get p num mem j =
      get_elem?-take num (drop (p.block - mem.base) mem.cells) j
      ∙ ap (λ o. if ltb j num then o else none) (get_elem?-drop (p.block - mem.base) mem.cells j)

  pub Written-self :
      (p : CachePtr) (xs : List A) (mem mem' : Samples A)
      → Written p xs mem mem'
      → samples_at p (length xs) mem' ≡ xs
  Written-self p xs mem mem' w = list_ext (samples_at p (length xs) mem') xs (λ j. ground (
    arith,
    w.same_base,
    samples_at-get p (length xs) mem' j,
    w.copied.at (p.block - mem.base + j),
    get_elem?-of_le xs j,
  ))

  Written-other :
      (p q : CachePtr) (xs : List A) (k : ℕ) (mem mem' : Samples A)
      → Written p xs mem mem'
      → mem.base ≤ p.block
      → mem.base ≤ q.block
      → Apart p (length xs) q k
      → samples_at q k mem' ≡ samples_at q k mem
  Written-other p q xs k mem mem' w p_from q_from apart =
      list_ext (samples_at q k mem') (samples_at q k mem) (λ j. ground (
        arith,
        w.same_base,
        p_from,
        q_from,
        apart,
        samples_at-get q k mem' j,
        samples_at-get q k mem j,
        w.copied.at (q.block - mem.base + j),
      ))

  Reaches-Written :
      (q p : CachePtr) (k : ℕ) (xs : List A) (mem mem' : Samples A)
      → Written p xs mem mem'
      → Reaches q k mem
      → Reaches q k mem'
  Reaches-Written q p k xs mem mem' w r = record {
    there = r.there;
    from = omega (arith, w.same_base, r.from);
    to = omega (arith, w.same_base, w.copied.same_length, r.to);
  }

  -- Samples copied to a block are what is copied from it afterwards, and a copy from a block that
  -- does not overlap with it gives what it gave before; both leave the rest of the array that they
  -- copy to.
  pub copy_to_num-copy_from :
      (p q : CachePtr) (num k : ℕ) (samples dest dest' : List A) (mem : Samples A)
      → Reaches p num mem
      → Reaches q k mem
      → Apart p num q k
      → num ≤ length samples
      → num ≤ length dest
      → k ≤ length dest'
      → (mem' : Samples A) × (copy_from p samples num mem ≡ some mem')
        × (copy_to_num p dest num mem' ≡ some (take num samples ++ drop num dest))
        × (copy_to_num q dest' k mem' ≡ some (samples_at q k mem ++ drop k dest'))
        × (copy_to_num q dest' k mem ≡ some (samples_at q k mem ++ drop k dest'))
  copy_to_num-copy_from p q num k samples dest dest' mem r s apart enough fits fits' =
      let (mem', copies, w) = copy_from-Written p num samples mem r enough in
      let xs : List A = take num samples in
      let long : num ≡ length xs = omega (arith, length-take num samples, enough) in
      let same : samples_at p num mem' ≡ xs =
        ap (λ n. samples_at p n mem') long ∙ Written-self p xs mem mem' w in
      let kept : samples_at q k mem' ≡ samples_at q k mem =
        Written-other p q xs k mem mem' w r.from s.from (subst (λ n. Apart p n q k) long apart) in
      (
        mem',
        copies,
        copy_to_num-Reaches p num dest mem' (Reaches-Written p p num xs mem mem' w r) fits
            ∙ ap (λ ys. some (ys ++ drop num dest)) same,
        copy_to_num-Reaches q k dest' mem' (Reaches-Written q p k xs mem mem' w s) fits'
            ∙ ap (λ ys. some (ys ++ drop k dest')) kept,
        copy_to_num-Reaches q k dest' mem s fits',
      )
