-- ===== src/Component/Sync.antt =====
-- `sync_line` of unit.cpp and of the classes in framework/spec (mainline.cpp, combine.cpp,
-- dispatch.cpp). The profile is passed by reference down the whole line, so each call gives back
-- what it made of it. Units call one another along their links: `fuel` bounds the depth.
-- `none` is undefined behaviour or no fuel left.
pub mod Line
pub mod Reach
pub mod Peaks
pub mod Combine
pub mod Shape
pub mod Total
pub mod Acyclic
pub mod FourUnits
pub mod Chain
pub mod Global
mod Tests
use strange_io.Common.{
  ℕ, zero, suc, Bool, true, false, not, ◌&&◌, ◌||◌, Option, none, some, List, [], ◌∷◌, ltb,
  if◌then◌else◌, get_elem?, set, length, ◌>>=◌, ◌>>◌, require,
}
use strange_io.Common.Int.{ℤ, ◌==ℤ◌}
use strange_io.Component.LineState
use strange_io.Component.Linkable.{LinkOut}
use strange_io.Component.Profile.{
  FloatOps, UnitType, mainline, combine, dispatch, step, split, Metric, Flags, no_flags,
  SyncProfile, register_metric, apply_unit_profile,
}
use strange_io.Component.Unit.{Node, World, Hooks, node_at, put_node, trigger_sync, trigger_cycle}

-- A call of the virtual `sync_line`: unit, flags, line, profile.
abbrev pub SyncCall : Type 0 → Type 0
SyncCall F = ℕ → Flags → ℕ → SyncProfile F → World F → Option (SyncProfile F × World F)

unfoldable pub all_inactive : List Bool → Bool
all_inactive [] = true
all_inactive (a ∷ rest) = if a then false else all_inactive rest

module _ {F : Type 0} where
  -- The loop of `continue_sync`. A connected output without a target is undefined.
  unfoldable pub continue_sync :
      SyncCall F → Flags → List LinkOut → SyncProfile F → World F → Option (SyncProfile F × World F)
  continue_sync call flags [] profile w = some (profile, w)
  continue_sync call flags (o ∷ os) profile w = do
    (profile', w') ←
        if not o.connected
        then some (profile, w)
        else do (unit, input) ← o.to; call unit flags input profile w
    continue_sync call flags os profile' w'

  -- What a global sync keeps of the profile.
  unfoldable pub keep_global : SyncProfile F → SyncProfile F → SyncProfile F
  keep_global profile global = record global {
    fs = profile.fs;
    channels = profile.channels;
    period = profile.period;
    state = profile.state;
    bpm = profile.bpm;
    fill = profile.fill;
  }

  unfoldable pub revive : SyncProfile F → SyncProfile F
  revive p = if p.state ==ℤ LineState.flushing then record p { state = LineState.active } else p

  module _ (ops : FloatOps F) (hooks : Hooks F) (call : SyncCall F) where
    -- `unit::sync_line`, its branch for a global sync.
    unfoldable pub unit_glob_sync :
        ℕ → Flags → SyncProfile F → World F → Option (SyncProfile F × World F)
    unfolding keep_global revive
    unit_glob_sync u flags profile w = do
      n ← node_at u w
      let applied = revive (apply_unit_profile ops n.unit_profile profile)
      (profile', w') ← continue_sync call flags n.ports.outputs applied w
      n' ← node_at u w'
      let kept = record n' { global_profile = keep_global profile' n'.global_profile }
      some (profile', hooks.resync u flags profile' (put_node u kept w'))

    -- An upstream sync that the unit asked for: it sends its own profile down, by reference.
    unfoldable pub own_upstream_sync :
        ℕ → Flags → SyncProfile F → Node F → World F → Option (SyncProfile F × World F)
    own_upstream_sync u flags profile n w = do
      let w' = hooks.resync u flags profile (put_node u (record n { upstream = false }) w)
      n' ← node_at u w'
      (own, w'') ← continue_sync call flags n'.ports.outputs n'.unit_profile w'
      n'' ← node_at u w''
      some (profile, put_node u (record n'' { unit_profile = own }) w'')

    -- Its branch for an upstream sync.
    unfoldable pub unit_upstream_sync :
        ℕ → Flags → SyncProfile F → World F → Option (SyncProfile F × World F)
    unfolding own_upstream_sync
    unit_upstream_sync u flags profile w = do
      n ← node_at u w
      let marked = register_metric ops Metric.state profile.state n.unit_profile
      if n.upstream
          then own_upstream_sync u flags profile n w
          else continue_sync call flags n.ports.outputs profile
              (put_node u (record n { unit_profile = marked }) w)

    -- Its last branch: a line sync, which the source of the sync only passes on.
    unfoldable pub unit_line_sync :
        ℕ → Flags → SyncProfile F → World F → Option (SyncProfile F × World F)
    unit_line_sync u flags profile w = do
      n ← node_at u w
      let passed = if flags.source then profile else apply_unit_profile ops n.unit_profile profile
      let flags' = record flags { source = false }
      (profile', w') ← continue_sync call flags' n.ports.outputs passed w
      some (profile', hooks.resync u flags' profile' w')

    unfoldable pub unit_sync :
        ℕ → Flags → SyncProfile F → World F → Option (SyncProfile F × World F)
    unit_sync u flags profile w =
        if flags.glob_sync
        then unit_glob_sync u flags profile w
        else if flags.upstream
        then unit_upstream_sync u flags profile w
        else unit_line_sync u flags profile w

    -- `mainline::sync_line`
    unfoldable pub mainline_sync :
        ℕ → Flags → SyncProfile F → World F → Option (SyncProfile F × World F)
    mainline_sync u flags profile w = if not flags.upstream then unit_sync u flags profile w else do
      n ← node_at u w
      let w' =
          if n.upstream
          then hooks.resync u flags profile (put_node u (record n { upstream = false }) w)
          else w
      n' ← node_at u w'
      continue_sync call flags n'.ports.outputs (record profile { state = n'.unit_profile.state })
          w'

    -- `combine::sync_line`, its branches for an upstream sync.
    unfoldable pub combine_upstream :
        ℕ → Flags → ℕ → SyncProfile F → World F → Option (SyncProfile F × World F)
    unfolding all_inactive
    combine_upstream u flags line profile w = do
      n ← node_at u w
      require (ltb line (length n.input_state))
      let turned_on = profile.state ==ℤ LineState.active
      let inputs = set n.input_state line turned_on
      let n' = record n { input_state = inputs }
      let flips =
          if turned_on
          then n.global_profile.state ==ℤ LineState.inactive
          else (n.global_profile.state ==ℤ LineState.active) && all_inactive inputs
      let state = if turned_on then LineState.active else LineState.inactive
      let marked = record n' {
        unit_profile = register_metric ops Metric.state state n.unit_profile;
      }
      if flips
          then continue_sync call flags n.ports.outputs profile (put_node u marked w)
          else some (profile, put_node u n' w)

    unfoldable pub combine_sync :
        ℕ → Flags → ℕ → SyncProfile F → World F → Option (SyncProfile F × World F)
    combine_sync u flags line profile w =
        if flags.upstream
        then combine_upstream u flags line profile w
        else unit_sync u flags profile w

    -- `dispatch::sync_line`, its branch for an upstream sync: `trigger_sync` needs no rack, and
    -- `trigger_cycle` does.
    unfoldable pub dispatch_upstream :
        ℕ → SyncProfile F → World F → Option (SyncProfile F × World F)
    dispatch_upstream u profile w = do
      n ← node_at u w
      if profile.state ==ℤ n.global_profile.state then some (profile, w) else do
        let marked = register_metric ops Metric.state profile.state n.unit_profile
        let w' = put_node u (record n { unit_profile = marked }) w
        let w'' = if n.has_rack then trigger_sync (record no_flags { glob_sync = true }) w' else w'
        if not (profile.state ==ℤ LineState.active)
            then some (profile, w'')
            else do require n.has_rack; some (profile, trigger_cycle w'')

    unfoldable pub dispatch_sync :
        ℕ → Flags → SyncProfile F → World F → Option (SyncProfile F × World F)
    dispatch_sync u flags profile w = if flags.upstream then dispatch_upstream u profile w else do
      n ← node_at u w
      let stated =
          if profile.state ==ℤ LineState.flushing
          then profile
          else record profile { state = n.unit_profile.state }
      let timed =
          if flags.glob_sync then record stated { period = n.unit_profile.period } else stated
      unit_sync u flags timed w

  -- The virtual call.
  unfoldable pub sync_line : FloatOps F → Hooks F → ℕ → SyncCall F
  sync_line ops hooks zero u flags line profile w = none
  sync_line ops hooks (suc fuel) u flags line profile w = do
    n ← node_at u w
    elim n.utype [
      | mainline ↦ mainline_sync ops hooks (sync_line ops hooks fuel) u flags profile w
      | combine ↦ combine_sync ops hooks (sync_line ops hooks fuel) u flags line profile w
      | dispatch ↦ dispatch_sync ops hooks (sync_line ops hooks fuel) u flags profile w
      | step ↦ unit_sync ops hooks (sync_line ops hooks fuel) u flags profile w
      | split ↦ unit_sync ops hooks (sync_line ops hooks fuel) u flags profile w
    ]
