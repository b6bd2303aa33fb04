-- ===== src/Memory/Manager/Free/Segment.antt =====
-- Freeing a segment in a row of segments.
use mathlib.Core.List.{append_assoc, append-nil}
use strange_io.Common.{
  ℕ, zero, suc, ◌+◌, ◌-◌, ◌*◌, ◌<◌, ◌≡◌, refl, ap, sym, ◌∙◌, ◌⊎◌, Bool, true, false, none, some,
  List, [], ◌∷◌, ◌++◌, arith, length-append, get_elem?, inl, inr, get_elem?-of_le,
}
use strange_io.Memory.Manager.{Handle, free_at}
use strange_io.Memory.Manager.Segments.{
  Segment, free, taken, stretch, run, render, size, size-append, stretch_eq, stretch-add,
  length-stretch, render-append, length-render,
}
use strange_io.Memory.Manager.Alloc.{rest_free, render-rest_free}
use strange_io.Memory.Manager.Free.{get_elem?-at}
use strange_io.Memory.Manager.Free.Merge.{Stops, Follows, free_at-merge}

-- Nothing stands above, or a segment in use does.
abbrev pub EndsUsed : List Segment → Type 0
EndsUsed pre = (pre ≡ []) ⊎ ((ps : List Segment) × (m : ℕ) × (pre ≡ ps ++ taken (suc m) ∷ []))

abbrev pub StartsUsed : List Segment → Type 0
StartsUsed [] = Unit {0}
StartsUsed (s ∷ ss) = (s.used ≡ true) × (0 < s.blocks)

-- Some segment follows, free or in use.
abbrev pub Followed : ℕ → List Segment → Type 0
Followed zero [] = ⊥
Followed zero (s ∷ ss) = Unit {0}
Followed (suc r) post = Unit {0}

-- A segment in use between what is free on its two sides.
abbrev pub around : List Segment → ℕ → ℕ → ℕ → List Segment → List Segment
around pre l n r post = pre ++ rest_free l (taken n ∷ rest_free r post)

size-rest_free : (r : ℕ) (ss : List Segment) → size (rest_free r ss) ≡ r + size ss
size-rest_free zero ss = omega arith
size-rest_free (suc r) ss = refl

pub size-around :
    (pre : List Segment) (l n r : ℕ) (post : List Segment)
    → size (around pre l n r post) ≡ size pre + l + n + r + size post
size-around pre l n r post = omega (
  arith,
  size-append pre (rest_free l (taken n ∷ rest_free r post)),
  size-rest_free l (taken n ∷ rest_free r post),
  size-rest_free r post,
)

free_at-none :
    (index : ℕ) (hs : List Handle) (h : Handle)
    → get_elem? hs index ≡ some h
    → get_elem? hs (index + h.num_blocks) ≡ none
    → free_at index hs ≡ none
unfolding free_at
free_at-none index hs h here beyond = rw here (rw beyond)

module _ (block_size : ℕ) where
  render-around :
      (a b c d : ℕ) (pre : List Segment) (l n r : ℕ) (post : List Segment)
      → b ≡ a + size pre * block_size
      → c ≡ b + l * block_size
      → d ≡ c + n * block_size
      → render block_size a (around pre l n r post)
        ≡ render block_size a pre
          ++ (run block_size b false l
              ++ (run block_size c true n
                  ++ (run block_size d false r ++ render block_size (d + r * block_size) post)))
  render-around a b c d pre l n r post eb ec ed =
      render-append block_size a b pre _ eb
      ∙ ap (◌++◌ (render block_size a pre)) (
          render-rest_free block_size b c l _ ec
          ∙ ap (◌++◌ (run block_size b false l)) (
              ap (λ k. run block_size c true n ++ render block_size k (rest_free r post)) (sym ed)
              ∙ ap (◌++◌ (run block_size c true n))
                  (render-rest_free block_size d (d + r * block_size) r post refl)))

  render-Stops : (a : ℕ) (pre : List Segment) → EndsUsed pre → Stops (render block_size a pre)
  render-Stops a pre (inl none_above) = inl (ap (render block_size a) none_above)
  render-Stops a pre (inr (ps, m, e)) = inr (
    render block_size a ps ++ run_part,
    record { ptr = b + m * block_size; in_use = true; num_blocks = suc m - m },
    ap (render block_size a) e
        ∙ render-append block_size a b ps (taken (suc m) ∷ []) refl
        ∙ ap (◌++◌ (render block_size a ps)) (append-nil _ ∙ cut)
        ∙ sym (append_assoc (render block_size a ps) run_part _),
    refl,
  )
    where
      b : ℕ
      b = a + size ps * block_size

      run_part : List Handle
      run_part = stretch block_size b true (suc m) m

      cut :
          run block_size b true (suc m)
          ≡ run_part
            ++ record { ptr = b + m * block_size; in_use = true; num_blocks = suc m - m } ∷ []
      cut =
          stretch_eq block_size true {m = suc m} {n = m + 1} refl refl (omega arith)
          ∙ stretch-add block_size b true (suc m) m 1 (b + m * block_size) refl

  render-Follows :
      (a r : ℕ) (post : List Segment)
      → StartsUsed post
      → Followed r post
      → Follows r (render block_size a post)
  render-Follows a zero [] st fo = absurd fo
  render-Follows a zero (s ∷ ss) st fo = starts s.used s.blocks st.0 st.1
    where
      starts :
          (u : Bool) (n : ℕ)
          → u ≡ true
          → 0 < n
          → Follows 0 (run block_size a u n ++ render block_size (a + n * block_size) ss)
      starts u zero busy pos = elim pos [ ]
      starts u (suc n) busy pos = inr (_, _, refl, busy)
  render-Follows a (suc r) post st fo = inl (omega arith)

  -- The segment joins the free blocks on its two sides.
  pub free_at-around :
      (a : ℕ) (pre : List Segment) (l n r : ℕ) (post : List Segment)
      → 0 < n
      → EndsUsed pre
      → StartsUsed post
      → Followed r post
      → free_at (size pre + l) (render block_size a (around pre l n r post))
        ≡ some (n, render block_size a (pre ++ free (l + (n + r)) ∷ post))
  free_at-around a pre l n r post pos ends starts fo =
      ap (free_at (size pre + l)) (render-around a b c d pre l n r post refl refl refl)
      ∙ free_at-merge block_size l n r b c d (size pre) (render block_size a pre) _
          (sym (length-render block_size a pre)) pos (render-Stops a pre ends)
          (render-Follows (d + r * block_size) r post starts fo) refl refl
      ∙ ap (λ hs. some (n, render block_size a pre ++ (run block_size b false (l + (n + r)) ++ hs)))
          (ap (λ k. render block_size k post) (omega arith))
      ∙ ap (λ hs. some (n, hs)) (sym (render-append block_size a b pre _ refl))
    where
      b : ℕ
      b = a + size pre * block_size

      c : ℕ
      c = b + l * block_size

      d : ℕ
      d = c + n * block_size

  -- A segment in use at the very end of the cache: the handle behind it is read, and is none.
  pub free_at-last :
      (a : ℕ) (pre : List Segment) (l n : ℕ)
      → 0 < n
      → free_at (size pre + l) (render block_size a (around pre l n 0 [])) ≡ none
  free_at-last a pre l zero pos = elim pos [ ]
  free_at-last a pre l (suc n) pos =
      free_at-none (size pre + l) all _
        (ap (λ hs. get_elem? hs (size pre + l))
            (render-around a b c d pre l (suc n) 0 [] refl refl refl
              ∙ sym (append_assoc above upper _))
          ∙ get_elem?-at (above ++ upper) _ _ (size pre + l) (
              omega (
                arith,
                length-append above upper,
                length-render block_size a pre,
                length-stretch block_size b false l l,
              )))
        (get_elem?-of_le all (size pre + l + suc n) (
          omega (
            arith,
            length-render block_size a (around pre l (suc n) 0 []),
            size-around pre l (suc n) 0 [],
          )))
    where
      b : ℕ
      b = a + size pre * block_size

      c : ℕ
      c = b + l * block_size

      d : ℕ
      d = c + suc n * block_size

      all : List Handle
      all = render block_size a (around pre l (suc n) 0 [])

      above : List Handle
      above = render block_size a pre

      upper : List Handle
      upper = run block_size b false l
