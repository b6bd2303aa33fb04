-- ===== src/Component/Mount/Sockets.antt =====
-- `connect_mainline` (framework/component/mount.cpp) on a socket that is connected again.
use Prim.Native.String.{String}
use text.Mathlib.Text.{◌==◌ as str_eq}
use strange_io.Common.{
  ℕ, ◌≡◌, refl, ap, true, Option, some, List, [], ◌∷◌, ◌++◌, Bool-cases, inl, inr,
}
use strange_io.Component.Mount.{Mount, lookup, get_unit, set_mainline, connect_mainline}

lookup-set_mainline :
    (name : String) (u : ℕ) (ls : List (String × Option ℕ)) (line : Option ℕ)
    → lookup name ls ≡ some line
    → lookup name (set_mainline name u ls) ≡ some (some u)
unfolding lookup set_mainline
lookup-set_mainline name u [] line e = cc
lookup-set_mainline name u ((k, l) ∷ ls) line e = elim (Bool-cases (str_eq k name)) [
  | inl same ↦ rw same (rw same)
  | inr other ↦ rw other (rw other (lookup-set_mainline name u ls line (rw other at e)))
]

append_two : {A : Type 0} (xs : List A) (a b : A) → (xs ++ a ∷ []) ++ b ∷ [] ≡ xs ++ a ∷ b ∷ []
append_two [] a b = refl
append_two (x ∷ xs) a b = ap (◌∷◌ x) (append_two xs a b)

-- A connection of a socket to a mounted unit.
connect_mainline-found :
    (name unit : String) (m : Mount) (line : Option ℕ) (u : ℕ)
    → lookup name m.mainlines ≡ some line
    → get_unit unit m ≡ some u
    → connect_mainline name unit m ≡ (
      true,
      record m {
        mainlines = set_mainline name u m.mainlines;
        raw_mainlines = m.raw_mainlines ++ u ∷ [];
      },
    )
unfolding connect_mainline get_unit
connect_mainline-found name unit m line u socket found = cc

-- After a socket has been connected to one mounted unit and then to another, it holds the second
-- one only, and the rack cycles both: the first one stays among the mainlines that are cycled.
pub connect_mainline-again :
    (name a b : String) (m : Mount) (line : Option ℕ) (u v : ℕ)
    → lookup name m.mainlines ≡ some line
    → get_unit a m ≡ some u
    → get_unit b m ≡ some v
    → let after = (connect_mainline name b (connect_mainline name a m).1).1 in
      (lookup name after.mainlines ≡ some (some v))
      × (after.raw_mainlines ≡ m.raw_mainlines ++ u ∷ v ∷ [])
unfolding get_unit
connect_mainline-again name a b m line u v socket found_a found_b =
    let first : Mount = record m {
      mainlines = set_mainline name u m.mainlines;
      raw_mainlines = m.raw_mainlines ++ u ∷ [];
    } in
    let set_once = lookup-set_mainline name u m.mainlines line socket in
    rw
      (
        connect_mainline-found name a m line u socket found_a,
        connect_mainline-found name b first (some u) v set_once found_b,
      )
      (lookup-set_mainline name v first.mainlines (some u) set_once, append_two m.raw_mainlines u v)
