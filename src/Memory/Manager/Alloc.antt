-- ===== src/Memory/Manager/Alloc.antt =====
-- `allocate` against its specification on segments.
use strange_io.Common.{
  ℕ, zero, suc, ◌+◌, ◌-◌, ◌*◌, ◌≤◌, ◌<◌, ◌≡◌, refl, ap, sym, ◌∙◌, Bool, true, false, not, ◌&&◌,
  Option, none, some, List, [], ◌∷◌, ◌++◌, arith, leb, if◌then◌else◌, Bool-cases, Option-cases, inl,
  inr,
}
use strange_io.Memory.Manager.{Handle, claim_all}
use strange_io.Memory.Manager.Segments.{
  Segment, free, taken, stretch, run, render, stretch_eq, mul-split, mul_of_add,
}

-- Nothing of a free segment is left, or a smaller free segment.
abbrev pub rest_free : ℕ → List Segment → List Segment
rest_free zero ss = ss
rest_free (suc n) ss = free (suc n) ∷ ss

-- The offset of the blocks given out, and the segments after.
unfoldable pub carve : ℕ → List Segment → Option (ℕ × List Segment)
carve num [] = none
carve num (s ∷ ss) =
    if not s.used && leb num s.blocks
    then some (0, taken num ∷ rest_free (s.blocks - num) ss)
    else elim (carve num ss) [ none ↦ none | some found ↦ some (s.blocks + found.0, s ∷ found.1) ]

module _ (block_size : ℕ) where
  -- A stretch that is in use or too short is passed over.
  skip-stretch :
      (num ptr a : ℕ) (u : Bool) (n : ℕ) (hs : List Handle)
      → 0 < num
      → (u ≡ false → n < num)
      → let rest = claim_all num num ptr hs in
        claim_all num num ptr (run block_size a u n ++ hs)
        ≡ (rest.0, run block_size a u n ++ rest.1)
  unfolding claim_all
  skip-stretch num ptr a u zero hs h short = refl
  skip-stretch num ptr a u (suc n) hs h short =
      ground (arith, skip-stretch num ptr (a + block_size) u n hs h, short)

  claim_all-done : (num ptr : ℕ) (hs : List Handle) → claim_all num 0 ptr hs ≡ (ptr, hs)
  unfolding claim_all
  claim_all-done num ptr [] = refl
  claim_all-done num ptr (h ∷ hs) = refl

  -- Once a block is found the next handles are taken, as many as `toggle` says.
  take-stretch :
      (num t ptr a b : ℕ) (u : Bool) (top tp n r : ℕ) (hs : List Handle)
      → t < num
      → n ≡ t + r
      → b ≡ a + t * block_size
      → tp ≡ top - t
      → claim_all num t ptr (stretch block_size a u top n ++ hs)
        ≡ (ptr, run block_size a true t ++ (stretch block_size b u tp r ++ hs))
  unfolding claim_all
  take-stretch num zero ptr a b u top tp n r hs h en eb et =
      claim_all-done num ptr _
      ∙ ap (λ k. (ptr, k ++ hs)) (stretch_eq block_size u (omega arith) (omega arith) (omega arith))
  take-stretch num (suc t) ptr a b u top tp zero r hs h en eb et = absurd (omega arith)
  take-stretch num (suc t) ptr a b u top tp (suc n) r hs h en eb et = ground (
    arith,
    take-stretch num t ptr (a + block_size) b u (top - 1) tp n r hs (omega arith) (omega arith)
        (omega arith) (omega arith),
    stretch_eq block_size true {a = a + block_size} {b = a + block_size} {top = suc t - 1} {t = t}
        {m = t} {n = t} refl (omega arith) refl,
  )

  pub render-rest_free :
      (a b r : ℕ) (ss : List Segment)
      → b ≡ a + r * block_size
      → render block_size a (rest_free r ss) ≡ run block_size a false r ++ render block_size b ss
  render-rest_free a b zero ss e = ap (λ k. render block_size k ss) (omega arith)
  render-rest_free a b (suc r) ss e =
      ap (λ k. run block_size a false (suc r) ++ render block_size k ss) (sym e)

  -- The free segment that is found: its first `num` handles are taken.
  claim-run :
      (num ptr a n b : ℕ) (ss : List Segment)
      → 0 < num
      → num ≤ n
      → b ≡ a + n * block_size
      → claim_all num num ptr (run block_size a false n ++ render block_size b ss) ≡ (
        a,
        run block_size a true num
            ++ render block_size (a + num * block_size) (rest_free (n - num) ss),
      )
  unfolding claim_all
  claim-run zero ptr a n b ss h le e = elim h [ ]
  claim-run (suc num) ptr a zero b ss h le e = elim le [ ]
  claim-run (suc num) ptr a (suc n) b ss h le e = ground (
    arith,
    take-stretch (suc num) num a (a + block_size) (a + suc num * block_size) false (suc n - 1)
        (suc n - suc num) n (suc n - suc num) (render block_size b ss) (omega arith) (omega arith)
        (omega arith) (omega arith),
    stretch_eq block_size true {a = a + block_size} {b = a + block_size} {top = suc num - 1}
        {t = num} {m = num} {n = num} refl (omega arith) refl,
    render-rest_free (a + suc num * block_size) b (suc n - suc num) ss
        (omega (arith, mul-split (suc num) (suc n) block_size le)),
  )

  skip-segment :
      (num ptr a : ℕ) (s : Segment) (hs : List Handle)
      → 0 < num
      → (not s.used && leb num s.blocks) ≡ false
      → let rest = claim_all num num ptr hs in
        claim_all num num ptr (run block_size a s.used s.blocks ++ hs)
        ≡ (rest.0, run block_size a s.used s.blocks ++ rest.1)
  skip-segment num ptr a s hs h no_fit =
      skip-stretch num ptr a s.used s.blocks hs h (λ e. ground arith)

  -- The loop carves the blocks out of the first free segment that is large enough.
  pub claim_all-carve :
      (num ptr a : ℕ) (ss : List Segment) (off : ℕ) (ts : List Segment)
      → 0 < num
      → carve num ss ≡ some (off, ts)
      → claim_all num num ptr (render block_size a ss)
        ≡ (a + off * block_size, render block_size a ts)
  unfolding carve
  claim_all-carve num ptr a [] off ts h e = cc
  claim_all-carve num ptr a (s ∷ ss) off ts h e =
      elim (Bool-cases (not s.used && leb num s.blocks)) [
        | inl fits ↦ ground (
          arith,
          claim-run num ptr a s.blocks (a + s.blocks * block_size) ss h (ground arith) refl,
        )
        | inr no_fit ↦ elim (Option-cases (carve num ss)) [
          | inl missing ↦ absurd (ground arith)
          | inr (found, here) ↦ ground (
            arith,
            skip-segment num ptr a s (render block_size (a + s.blocks * block_size) ss) h no_fit,
            claim_all-carve num ptr (a + s.blocks * block_size) ss found.0 found.1 h here,
            mul_of_add off s.blocks found.0 block_size,
          )
        ]
      ]

  -- Without such a segment the handles stay as they are, and the pointer too.
  pub claim_all-drained :
      (num ptr a : ℕ) (ss : List Segment)
      → 0 < num
      → carve num ss ≡ none
      → claim_all num num ptr (render block_size a ss) ≡ (ptr, render block_size a ss)
  unfolding carve claim_all
  claim_all-drained num ptr a [] h e = refl
  claim_all-drained num ptr a (s ∷ ss) h e = elim (Bool-cases (not s.used && leb num s.blocks)) [
    | inl fits ↦ absurd (ground arith)
    | inr no_fit ↦ ground (
      arith,
      skip-segment num ptr a s (render block_size (a + s.blocks * block_size) ss) h no_fit,
      claim_all-drained num ptr (a + s.blocks * block_size) ss h (ground arith),
    )
  ]
