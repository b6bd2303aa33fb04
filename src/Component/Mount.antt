-- ===== src/Component/Mount.antt =====
-- `mount` of framework/component/mount.cpp: the units of a rack by label, and its mainline sockets.
-- A pointer to a unit is its position among all units. Ids of ports stay below 2^31, where an
-- `int` holds them.
pub mod Sockets
pub mod Valid
mod Tests
use Prim.Native.String.{String}
use text.Mathlib.Text.{◌==◌ as str_eq}
use strange_io.Common.{
  ℕ, Bool, true, false, Option, none, some, List, [], ◌∷◌, ◌++◌, map, if◌then◌else◌, length, ◌>>=◌,
}
use strange_io.Component.Linkable.{Ports, has_input, has_output, connect}
use strange_io.Component.Unit.{Node, World, node_at}

pub record Mount : Type 0 where
  pub mainlines : List (String × Option ℕ)
  pub mounted : List (String × ℕ)
  pub raw_mainlines : List ℕ

abbrev pub new_mount : Mount
new_mount = record { mainlines = []; mounted = []; raw_mainlines = [] }

-- `find` of a map.
unfoldable pub lookup {ℓ} : {A : Type ℓ} → String → List (String × A) → Option A
lookup key [] = none
lookup key ((k, a) ∷ rest) = let found = lookup key rest in if str_eq k key then some a else found

unfoldable pub get_unit : String → Mount → Option ℕ
unfolding lookup
get_unit label m = lookup label m.mounted

unfoldable pub has_unit : String → Mount → Bool
unfolding lookup
has_unit label m = elim (lookup label m.mounted) [ none ↦ false | some u ↦ true ]

unfoldable pub add_mainline : String → Mount → Mount
unfolding lookup
add_mainline name m = elim (lookup name m.mainlines) [
  | some line ↦ m
  | none ↦ record m { mainlines = (name, none) ∷ m.mainlines }
]

-- `line->second = unit`
unfoldable pub set_mainline : String → ℕ → List (String × Option ℕ) → List (String × Option ℕ)
set_mainline name u [] = []
set_mainline name u ((k, line) ∷ rest) =
    let rest' = set_mainline name u rest in
    if str_eq k name then (k, some u) ∷ rest else (k, line) ∷ rest'

unfoldable pub connect_mainline : String → String → Mount → Bool × Mount
unfolding set_mainline get_unit lookup
connect_mainline mainline unit m = elim (lookup mainline m.mainlines) [
  | none ↦ (false, m)
  | some line ↦ elim (get_unit unit m) [
    | none ↦ (false, m)
    | some u ↦ (
      true,
      record m {
        mainlines = set_mainline mainline u m.mainlines;
        raw_mainlines = m.raw_mainlines ++ u ∷ [];
      },
    )
  ]
]

module _ {F : Type 0} where
  -- `add_unit`, with `mount_dependencies` of the rack: where the label is taken, `insert` changes
  -- nothing and the unit ends.
  unfoldable pub add_unit : String → Node F → Mount → World F → Mount × World F
  unfolding lookup
  add_unit label n m w = elim (lookup label m.mounted) [
    | some u ↦ (m, w)
    | none ↦ (
      record m { mounted = (label, length w.nodes) ∷ m.mounted },
      record w { nodes = w.nodes ++ record n { has_rack = true } ∷ [] },
    )
  ]

  abbrev pub links_of : World F → List Ports
  links_of w = map (λ n. n.ports) w.nodes

  unfoldable pub with_ports : List (Node F) → List Ports → List (Node F)
  with_ports [] ps = []
  with_ports (n ∷ ns) [] = n ∷ ns
  with_ports (n ∷ ns) (p ∷ ps) = record n { ports = p } ∷ with_ports ns ps

  unfoldable pub connect_units :
      String → String → String → String → Mount → World F → Option (Bool × World F)
  unfolding get_unit has_output has_input with_ports
  connect_units from output to input m w = elim (get_unit from m) [
    | none ↦ some (false, w)
    | some source ↦ elim (get_unit to m) [
      | none ↦ some (false, w)
      | some target ↦ do
        s ← node_at source w
        t ← node_at target w
        elim (has_output output s.ports) [
          | none ↦ some (false, w)
          | some output_id ↦ elim (has_input input t.ports) [
            | none ↦ some (false, w)
            | some input_id ↦ do
              (linked, links) ← connect source output_id (some (target, input_id)) (links_of w)
              some (linked, record w { nodes = with_ports w.nodes links })
          ]
        ]
    ]
  ]

  -- `clear_units`: all units end, since the map has the only pointers that own them.
  unfoldable pub clear_units : Mount → World F → Mount × World F
  clear_units m w = (record m { mounted = [] }, record w { nodes = [] })
