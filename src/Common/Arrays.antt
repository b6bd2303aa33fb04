-- ===== src/Common/Arrays.antt =====
-- `std::copy` into and out of arrays, read item by item.
use Prim.Native.Nat.{ℕ, ◌+◌, ◌-◌, ◌≤◌}
use mathlib.Core.Path.{◌≡◌, ap, ◌∙◌}
use mathlib.Core.Bool.{◌&&◌}
use mathlib.Core.Option.{Option, none, some}
use mathlib.Core.List.{List, ◌++◌}
use native.Mathlib.Omega.{arith}
use strange_io.Common.Tests.{ltb, leb, le→leb, if◌then◌else◌}
use strange_io.Common.Lists.{length, get_elem?, take, drop, length-append, length-take}
use strange_io.Common.Slices.{get_elem?-append, get_elem?-take, get_elem?-drop, length-drop}

module _ {A : Type 0} where
  -- `std::copy` into and out of an array. `none` is an item outside it.
  unfoldable pub copy_in : ℕ → List A → List A → Option (List A)
  copy_in i samples region =
      if leb (i + length samples) (length region)
      then some (take i region ++ (samples ++ drop (i + length samples) region))
      else none

  unfoldable pub copy_out : ℕ → ℕ → List A → Option (List A)
  copy_out i n region = if leb (i + n) (length region) then some (take n (drop i region)) else none

  -- `region'` is `region` with the samples from `i` on.
  pub record CopiedIn (i : ℕ) (samples region region' : List A) : Type 0 where
    pub same_length : length region' ≡ length region
    pub at :
        (j : ℕ)
        → get_elem? region' j ≡ (
            if leb i j && ltb j (i + length samples)
            then get_elem? samples (j - i)
            else get_elem? region j)

  spliced : ℕ → List A → List A → List A
  spliced i samples region = take i region ++ (samples ++ drop (i + length samples) region)

  spliced_at :
      (i : ℕ) (samples region : List A) (j : ℕ)
      → i + length samples ≤ length region
      → get_elem? (spliced i samples region) j ≡ (
          if leb i j && ltb j (i + length samples)
          then get_elem? samples (j - i)
          else get_elem? region j)
  unfolding spliced
  spliced_at i samples region j h =
      let rest : List A = drop (i + length samples) region in
      let taken : length (take i region) ≡ i = omega (arith, h, length-take i region) in
      ground (
        arith,
        taken,
        get_elem?-append (take i region) (samples ++ rest) j,
        get_elem?-take i region j,
        get_elem?-append samples rest (j - length (take i region)),
        get_elem?-drop (i + length samples) region (j - length (take i region) - length samples),
      )

  pub copy_in-CopiedIn :
      (i : ℕ) (samples region : List A)
      → i + length samples ≤ length region
      → (region' : List A) × (copy_in i samples region ≡ some region')
        × CopiedIn i samples region region'
  unfolding copy_in spliced
  copy_in-CopiedIn i samples region h = (
    spliced i samples region,
    rw (le→leb (i + length samples) (length region) h),
    record {
      same_length = omega (
        arith,
        h,
        length-append (take i region) (samples ++ drop (i + length samples) region),
        length-append samples (drop (i + length samples) region),
        length-take i region,
        length-drop (i + length samples) region,
      );
      at = λ j. spliced_at i samples region j h;
    },
  )

  pub copy_out-at :
      (i n : ℕ) (region : List A)
      → i + n ≤ length region
      → (out : List A) × (copy_out i n region ≡ some out)
        × (length out ≡ n)
        × ((j : ℕ) → get_elem? out j ≡ (if ltb j n then get_elem? region (i + j) else none))
  unfolding copy_out
  copy_out-at i n region h = (
    take n (drop i region),
    rw (le→leb (i + n) (length region) h),
    omega (arith, h, length-take n (drop i region), length-drop i region),
    λ j.
        get_elem?-take n (drop i region) j
        ∙ ap (λ o. if ltb j n then o else none) (get_elem?-drop i region j),
  )
