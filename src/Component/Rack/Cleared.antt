-- ===== src/Component/Rack/Cleared.antt =====
-- A rack after `clear_units` (framework/component/mount.cpp).
use strange_io.Common.{ℕ, zero, suc, ◌≡◌, refl, none, List, [], ◌∷◌}
use strange_io.Component.Profile.{FloatOps, CycleType, warmup, sync, ac}
use strange_io.Component.Unit.{World, Hooks}
use strange_io.Component.Cycle.{cycle_line, cycle_unit, sync_source, warmup_unit}
use strange_io.Component.Mount.{clear_units}
use strange_io.Component.Rack.{Rack, cycle, cycle_mainlines}

module _ {F : Type 0} (ops : FloatOps F) (hooks : Hooks F) where
  -- Any call on a unit that has ended.
  cycle_line-ended :
      (fuel : ℕ) (type : CycleType) (u : ℕ) (w : World F)
      → cycle_line ops hooks fuel type u (record w { nodes = [] }) ≡ none
  unfolding cycle_line cycle_unit sync_source warmup_unit
  cycle_line-ended zero type u w = refl
  cycle_line-ended (suc fuel) warmup u w = refl
  cycle_line-ended (suc fuel) sync u w = refl
  cycle_line-ended (suc fuel) ac u w = refl

  abbrev pub cleared : Rack F → Rack F
  cleared r = let (m, w) = clear_units r.mount r.world in record r { mount = m; world = w }

  -- After clear_units every cycle of a rack of which a socket was connected follows a pointer to a
  -- unit that has ended, whatever its type and the fuel, and no label is mounted.
  pub cycle-clear_units :
      (fuel base : ℕ) (times : ℕ × ℕ) (type : CycleType) (r : Rack F) (u : ℕ) (us : List ℕ)
      → r.mount.raw_mainlines ≡ u ∷ us
      → (cycle ops hooks fuel base times type (cleared r) ≡ none) × ((cleared r).mount.mounted ≡ [])
  unfolding cycle cycle_mainlines clear_units
  cycle-clear_units fuel base times type r u us e =
      (rw e (rw (cycle_line-ended fuel type u r.world)), refl)
