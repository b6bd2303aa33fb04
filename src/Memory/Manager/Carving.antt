-- ===== src/Memory/Manager/Carving.antt =====
-- The specification `carve` of an allocation: where it cuts, and the rows of segments that arise.
use strange_io.Common.{
  ℕ, zero, suc, ◌+◌, ◌-◌, ◌≤◌, ◌<◌, ◌≡◌, refl, ap, sym, subst, ◌⊎◌, true, false, not, ◌&&◌, none,
  some, List, [], ◌∷◌, ◌++◌, arith, leb, inl, inr, Bool-cases, Option-cases,
}
use strange_io.Memory.Manager.Segments.{Segment, free, taken, size}
use strange_io.Memory.Manager.Alloc.{carve, rest_free}
use strange_io.Memory.Manager.Free.Segment.{EndsUsed, StartsUsed, around}

-- No segment is empty, and no two free ones are neighbours.
abbrev pub IsTidy : List Segment → Type 0
IsTidy [] = Unit {0}
IsTidy (s ∷ ss) = (0 < s.blocks) × (s.used ≡ false → StartsUsed ss) × IsTidy ss

-- No free segment has `num` blocks.
abbrev pub AllShort : ℕ → List Segment → Type 0
AllShort num [] = Unit {0}
AllShort num (s ∷ ss) = (s.used ≡ false → s.blocks < num) × AllShort num ss

-- The segment that is cut: the first free one of at least `num` blocks.
pub record Cut (num : ℕ) (ss : List Segment) (off : ℕ) (ts : List Segment) : Type 0 where
  pub pre : List Segment
  pub found : ℕ
  pub post : List Segment
  pub whole : ss ≡ pre ++ free found ∷ post
  pub fits : num ≤ found
  pub offset : off ≡ size pre
  pub cut : ts ≡ pre ++ taken num ∷ rest_free (found - num) post
  pub first : AllShort num pre

pub carve-Cut :
    (num : ℕ) (ss : List Segment) (off : ℕ) (ts : List Segment)
    → carve num ss ≡ some (off, ts)
    → Cut num ss off ts
unfolding carve
carve-Cut num [] off ts e = cc
carve-Cut num (s ∷ ss) off ts e = elim (Bool-cases (not s.used && leb num s.blocks)) [
  | inl fits ↦ record {
    pre = [];
    found = s.blocks;
    post = ss;
    whole = ground arith;
    fits = ground arith;
    offset = ground arith;
    cut = ground arith;
    first = tt;
  }
  | inr no_fit ↦ elim (Option-cases (carve num ss)) [
    | inl missing ↦ absurd (ground arith)
    | inr (found, here) ↦
        let later = carve-Cut num ss found.0 found.1 here in
        record {
          pre = s ∷ later.pre;
          found = later.found;
          post = later.post;
          whole = ap (◌∷◌ s) later.whole;
          fits = later.fits;
          offset = ground (arith, later.offset);
          cut = ground (arith, later.cut);
          first = (λ e. ground arith, later.first);
        }
  ]
]

-- It fails only if every free segment is too short.
pub carve-none : (num : ℕ) (ss : List Segment) → carve num ss ≡ none → AllShort num ss
unfolding carve
carve-none num [] e = tt
carve-none num (s ∷ ss) e = (λ h. ground arith, carve-none num ss (ground arith))

-- In a tidy row a free segment has only segments in use next to it.
pub IsTidy-neighbours :
    (pre : List Segment) (f : ℕ) (post : List Segment)
    → IsTidy (pre ++ free f ∷ post)
    → EndsUsed pre × StartsUsed post
IsTidy-neighbours [] f post t = (inl refl, t.1 refl)
IsTidy-neighbours (s ∷ []) f post t = (inr ([], s.blocks - 1, ground arith), t.2.1 refl)
IsTidy-neighbours (s ∷ u ∷ pre) f post t =
    let below = IsTidy-neighbours (u ∷ pre) f post t.2 in (extend below.0, below.1)
  where
    extend : EndsUsed (u ∷ pre) → EndsUsed (s ∷ u ∷ pre)
    extend (inl e) = cc
    extend (inr (ps, m, e)) = inr (s ∷ ps, m, ap (◌∷◌ s) e)

IsTidy-tail : (pre post : List Segment) → IsTidy (pre ++ post) → IsTidy post
IsTidy-tail [] post t = t
IsTidy-tail (s ∷ pre) post t = IsTidy-tail pre post t.2

abbrev LastUsed : List Segment → Type 0
LastUsed [] = Unit {0}
LastUsed (s ∷ []) = s.used ≡ true
LastUsed (s ∷ u ∷ ss) = LastUsed (u ∷ ss)

LastUsed-snoc : (ps : List Segment) (m : ℕ) → LastUsed (ps ++ taken m ∷ [])
LastUsed-snoc [] m = refl
LastUsed-snoc (s ∷ []) m = refl
LastUsed-snoc (s ∷ u ∷ ps) m = LastUsed-snoc (u ∷ ps) m

LastUsed-of_EndsUsed : (pre : List Segment) → EndsUsed pre → LastUsed pre
LastUsed-of_EndsUsed pre (inl e) = subst LastUsed (sym e) tt
LastUsed-of_EndsUsed pre (inr (ps, m, e)) = subst LastUsed (sym e) (LastUsed-snoc ps (suc m))

-- Behind a tidy beginning, what may follow depends only on how it starts.
IsTidy-swap :
    (pre : List Segment) (s : Segment) (post post' : List Segment)
    → IsTidy (pre ++ s ∷ post)
    → LastUsed pre ⊎ StartsUsed post'
    → IsTidy post'
    → IsTidy (pre ++ post')
IsTidy-swap [] s post post' t h t' = t'
IsTidy-swap (u ∷ []) s post post' t (inl e) t' = (t.0, λ f. cc, t')
IsTidy-swap (u ∷ []) s post post' t (inr e) t' = (t.0, λ _. e, t')
IsTidy-swap (u ∷ v ∷ pre) s post post' t h t' =
    (t.0, t.1, IsTidy-swap (v ∷ pre) s post post' t.2 h t')

rest_free-IsTidy :
    (r : ℕ) (post : List Segment) → StartsUsed post → IsTidy post → IsTidy (rest_free r post)
rest_free-IsTidy zero post st t = t
rest_free-IsTidy (suc r) post st t = (omega arith, λ _. st, t)

-- An allocation keeps the row tidy.
pub carve-IsTidy :
    (num : ℕ) (ss : List Segment) (off : ℕ) (ts : List Segment)
    → 0 < num
    → IsTidy ss
    → Cut num ss off ts
    → IsTidy ts
carve-IsTidy num ss off ts pos t c = subst IsTidy (sym c.cut) (
    IsTidy-swap c.pre (free c.found) c.post _ tidy (inr (refl, pos)) (
      pos,
      λ e. cc,
      rest_free-IsTidy (c.found - num) c.post (IsTidy-neighbours c.pre c.found c.post tidy).1
          (IsTidy-tail c.pre (free c.found ∷ c.post) tidy).2,
    ))
  where
    tidy : IsTidy (c.pre ++ free c.found ∷ c.post)
    tidy = subst IsTidy c.whole t

IsTidy-of_rest_free : (r : ℕ) (post : List Segment) → IsTidy (rest_free r post) → IsTidy post
IsTidy-of_rest_free zero post t = t
IsTidy-of_rest_free (suc r) post t = t.2

-- Freeing a segment with all that is free around it keeps the row tidy.
pub around-IsTidy :
    (pre : List Segment) (l n r : ℕ) (post : List Segment)
    → 0 < n
    → EndsUsed pre
    → StartsUsed post
    → IsTidy (around pre l n r post)
    → IsTidy (pre ++ free (l + (n + r)) ∷ post)
around-IsTidy pre zero n r post pos ends starts t =
    IsTidy-swap pre (taken n) (rest_free r post) _ t (inl (LastUsed-of_EndsUsed pre ends)) (
      omega arith,
      λ _. starts,
      IsTidy-of_rest_free r post (IsTidy-tail pre (taken n ∷ rest_free r post) t).2,
    )
around-IsTidy pre (suc l) n r post pos ends starts t =
    IsTidy-swap pre (free (suc l)) (taken n ∷ rest_free r post) _ t
      (inl (LastUsed-of_EndsUsed pre ends))
      (
        omega arith,
        λ _. starts,
        IsTidy-of_rest_free r post
            (IsTidy-tail pre (free (suc l) ∷ taken n ∷ rest_free r post) t).2.2,
      )
