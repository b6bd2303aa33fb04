-- ===== src/Component/Mount/Tests.antt =====
-- A mount with one socket and two units.
use strange_io.Common.{◌≡◌, refl, none, some, [], ◌∷◌}
use strange_io.Component.Mount.{Mount, lookup, get_unit, connect_mainline}
use strange_io.Component.Mount.Sockets.{connect_mainline-again}

abbrev two_units : Mount
two_units = record {
  mainlines = ("one", none) ∷ [];
  mounted = ("deck", 0) ∷ ("tape", 1) ∷ [];
  raw_mainlines = [];
}

connect_mainline-again_example :
    let after = (connect_mainline "one" "tape" (connect_mainline "one" "deck" two_units).1).1 in
    (lookup "one" after.mainlines ≡ some (some 1)) × (after.raw_mainlines ≡ 0 ∷ 1 ∷ [])
unfolding lookup get_unit
connect_mainline-again_example =
    connect_mainline-again "one" "deck" "tape" two_units none 0 1 refl refl refl
