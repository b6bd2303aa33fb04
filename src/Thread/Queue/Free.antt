-- ===== src/Thread/Queue/Free.antt =====
-- The worker that `queue::assign` (framework/threads/queue.cpp) looks for, by a search of the list.
use strange_io.Common.{
  ℕ, suc, zero, ◌<◌, ◌≡◌, refl, sym, ap, ◌∙◌, Bool, true, false, Option, none, some, List, [], ◌∷◌,
  if◌then◌else◌, arith, get_elem?, some_inj,
}
use strange_io.Thread.Worker.{WorkerState, can_take}

module _ {P : Type 0} where
  -- The first of `n` workers that is free, with its number.
  unfoldable pub first_free : ℕ → List (WorkerState P) → Option (ℕ × WorkerState P)
  first_free zero ws = none
  first_free (suc n) [] = none
  first_free (suc n) (w ∷ ws) =
      if can_take w
      then some (0, w)
      else elim (first_free n ws) [ none ↦ none | some (j, v) ↦ some (suc j, v) ]

  abbrev pub BusyBelow : List (WorkerState P) → ℕ → Type 0
  BusyBelow ws j =
      (m : ℕ) (w : WorkerState P) → m < j → get_elem? ws m ≡ some w → can_take w ≡ false

  abbrev pub IsFirst : ℕ → List (WorkerState P) → Option (ℕ × WorkerState P) → Type 0
  IsFirst n ws none = BusyBelow ws n
  IsFirst n ws (some (j, w)) =
      (j < n) × (get_elem? ws j ≡ some w) × (can_take w ≡ true) × BusyBelow ws j

  BusyBelow-cons :
      (w : WorkerState P) (ws : List (WorkerState P)) (j : ℕ)
      → can_take w ≡ false
      → BusyBelow ws j
      → BusyBelow (w ∷ ws) (suc j)
  BusyBelow-cons w ws j busy rest zero v lt e = ap can_take (sym (some_inj e)) ∙ busy
  BusyBelow-cons w ws j busy rest (suc m) v lt e = rest m v (omega (arith, lt)) e

  IsFirst-cons :
      (n : ℕ) (w : WorkerState P) (ws : List (WorkerState P)) (o : Option (ℕ × WorkerState P))
      → can_take w ≡ false
      → IsFirst n ws o
      → IsFirst (suc n) (w ∷ ws) (elim o [ none ↦ none | some (j, v) ↦ some (suc j, v) ])
  IsFirst-cons n w ws none busy first = BusyBelow-cons w ws n busy first
  IsFirst-cons n w ws (some (j, v)) busy (lt, has, free, below) =
      (omega (arith, lt), has, free, BusyBelow-cons w ws j busy below)

  IsFirst-if :
      (n : ℕ) (b : Bool) (ws : List (WorkerState P)) (x y : Option (ℕ × WorkerState P))
      → (b ≡ true → IsFirst n ws x)
      → (b ≡ false → IsFirst n ws y)
      → IsFirst n ws (if b then x else y)
  IsFirst-if n true ws x y f g = f refl
  IsFirst-if n false ws x y f g = g refl

  pub first_free-IsFirst : (n : ℕ) (ws : List (WorkerState P)) → IsFirst n ws (first_free n ws)
  unfolding first_free
  first_free-IsFirst zero ws = λ m w lt e. absurd (omega (arith, lt))
  first_free-IsFirst (suc n) [] = λ m w lt e. cc
  first_free-IsFirst (suc n) (w ∷ ws) =
      IsFirst-if (suc n) (can_take w) (w ∷ ws) _ _
        (λ free. (omega arith, refl, free, λ m v lt e. absurd (omega (arith, lt))))
        (λ busy. IsFirst-cons n w ws (first_free n ws) busy (first_free-IsFirst n ws))
