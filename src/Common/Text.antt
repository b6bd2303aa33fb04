-- ===== src/Common/Text.antt =====
-- Equality tests on texts.
use Prim.Native.Nat.{Ordering}
use Prim.Native.String.{String, compare}
use mathlib.Core.Path.{◌≡◌, refl, sym, subst, ap}
use mathlib.Core.Bool.{Bool, true, false}
use mathlib.Core.Logic.{◌⊎◌, inl, inr}
use text.Mathlib.Text.{◌==◌, is_eq}
use text.Mathlib.TextEquality.{path_by_compare}
use text.Mathlib.TextPositions.{compare_refl}

pub of_str_eq : (s t : String) → (s == t) ≡ true → s ≡ t
of_str_eq s t e = path_by_compare s t (is_eq-true (compare s t) e)
  where
    is_eq-true : (o : Ordering) → is_eq o ≡ true → o ≡ Ordering.eq
    is_eq-true Ordering.lt e = cc
    is_eq-true Ordering.eq e = refl
    is_eq-true Ordering.gt e = cc

pub str_eq_refl : (s : String) → (s == s) ≡ true
str_eq_refl s = ap is_eq (compare_refl s)

pub str_eq_comm : (s t : String) → (s == t) ≡ false → (t == s) ≡ false
str_eq_comm s t e = elim (cases (t == s)) [
  | inl h ↦ absurd (differ (subst (λ u. (s == u) ≡ true) (sym (of_str_eq t s h)) (str_eq_refl s)))
  | inr h ↦ h
]
  where
    cases : (b : Bool) → (b ≡ true) ⊎ (b ≡ false)
    cases true = inl refl
    cases false = inr refl

    differ : (s == t) ≡ true → ⊥
    differ h = cc
