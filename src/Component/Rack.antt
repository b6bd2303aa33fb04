-- ===== src/Component/Rack.antt =====
-- `backend` of framework/component/backend.cpp and `rack` of rack.cpp: what drives the units.
-- `fuel` bounds the depth of the lines. `none` is undefined behaviour or no fuel left.
pub mod Cache
pub mod Cleared
mod Tests
use Prim.Native.String.{String}
use strange_io.Common.{
  ℕ, zero, suc, ◌-◌, ◌%◌, Bool, true, false, not, Option, none, some, List, [], ◌∷◌, ltb,
  if◌then◌else◌, ◌>>=◌, u32_mod,
}
use strange_io.Common.Int.{ℤ, pos, negsuc, ◌*ℤ◌}
use strange_io.Memory.Manager.{Manager}
use strange_io.Memory.Manager
use strange_io.Component.Profile.{
  FloatOps, CycleType, CycleState, Flags, no_flags, any_flag, SyncProfile, zero_profile,
}
use strange_io.Component.Unit.{World, Hooks, Exception, Cycled, returned, thrown}
use strange_io.Component.Sync.{sync_line}
use strange_io.Component.Cycle.{cycle_line}
use strange_io.Component.Mount.{Mount, new_mount, lookup}

-- The units' side of a rack is `world`, with the requests that units make.
pub record Rack (F : Type 0) : Type 0 where
  pub mount : Mount
  pub world : World F
  pub global_profile : SyncProfile F
  pub sync_duration : ℕ
  pub cache : Option Manager

abbrev pub upstream_flag : Flags
upstream_flag = record no_flags { upstream = true }

abbrev pub global_flag : Flags
global_flag = record no_flags { glob_sync = true }

-- `(unsigned int) n`
abbrev pub to_u32 : ℤ → ℕ
to_u32 (pos n) = n % u32_mod
to_u32 (negsuc n) = u32_mod - 1 - n % u32_mod

module _ {F : Type 0} (ops : FloatOps F) where
  -- The constructors of `backend` and `rack`.
  unfoldable pub new_rack : Rack F
  new_rack = record {
    mount = new_mount;
    world = record { nodes = []; resync = false; resync_flags = no_flags; cycle_queue = 0 };
    global_profile = zero_profile ops;
    sync_duration = 0;
    cache = none;
  }

  -- `base` is where a cache that gets built finds its memory; `times` are the two readings of the
  -- clock in `profile_sync`.
  module _ (hooks : Hooks F) (fuel base : ℕ) (times : ℕ × ℕ) where
    unfoldable pub cycle_mainlines :
        CycleType → List ℕ → CycleState → World F → Option (Cycled × World F)
    cycle_mainlines type [] state w = some (returned state, w)
    cycle_mainlines type (u ∷ us) state w = do
      (result, w') ← cycle_line ops hooks fuel type u w
      elim result [
        | thrown e ↦ some (thrown e, w')
        | returned state' ↦ cycle_mainlines type us state' w'
      ]

    -- `backend::cycle`
    unfoldable pub cycle : CycleType → Rack F → Option (Cycled × Rack F)
    cycle type r = do
      (result, w) ← cycle_mainlines type r.mount.raw_mainlines CycleState.empty r.world
      some (result, record r { world = w })

    -- A cycle of syncs, in which nothing throws.
    unfoldable pub sync_cycle : Rack F → Option (Rack F)
    unfolding cycle
    sync_cycle r = do (result, r') ← cycle CycleType.sync r; some r'

    -- `backend::sync(sync_profile&, sync_flag)`: one profile for all mainlines.
    unfoldable pub sync_mainlines :
        Flags → List ℕ → SyncProfile F → World F → Option (SyncProfile F × World F)
    sync_mainlines flags [] p w = some (p, w)
    sync_mainlines flags (u ∷ us) p w = do
      (p', w') ← sync_line ops hooks fuel u flags 0 p w
      sync_mainlines flags us p' w'

    -- The loop of an upstream sync: a copy of the global profile for each mainline.
    unfoldable pub upstream_mainlines : Flags → List ℕ → SyncProfile F → World F → Option (World F)
    upstream_mainlines flags [] global w = some w
    upstream_mainlines flags (u ∷ us) global w = do
      (bogus, w') ← sync_line ops hooks fuel u flags 0 global w
      upstream_mainlines flags us global w'

    -- `rack::resync`, with the sizes as `int`s turned into an `unsigned int`.
    unfoldable pub resync : Rack F → Option (Rack F)
    resync r = elim r.cache [
      | none ↦ some r
      | some m ↦ if ltb 0 m.block_size then some r else do
        let size = to_u32 (r.global_profile.period *ℤ pos 2 *ℤ r.global_profile.channels)
        m' ← Manager.build_cache base size m
        some (record r { cache = some m' })
    ]

    -- `backend::profile_sync`
    unfoldable pub profile_sync : Rack F → Option (Rack F)
    unfolding sync_cycle
    profile_sync r = do r' ← sync_cycle r; some (record r' { sync_duration = times.1 - times.0 })

    unfoldable pub global_sync : Flags → Rack F → Option (Rack F)
    unfolding resync
    global_sync flags r = do
      (p, w) ← sync_mainlines flags r.mount.raw_mainlines r.global_profile r.world
      resync (record r { global_profile = p; world = w })

    unfoldable pub upstream_sync : Flags → Rack F → Option (Rack F)
    upstream_sync flags r = do
      w ← upstream_mainlines flags r.mount.raw_mainlines r.global_profile r.world
      some (record r { world = w })

    -- `backend::sync(sync_flag)`
    unfoldable pub sync_rack : Flags → Rack F → Option (Rack F)
    unfolding sync_cycle profile_sync global_sync upstream_sync
    sync_rack flags r = do
      r₁ ← if flags.downstream then sync_cycle r else some r
      if flags.sync_duration then profile_sync r₁ else do
        r₂ ←
            if flags.glob_sync
            then global_sync flags r₁
            else if flags.upstream
            then upstream_sync flags r₁
            else some r₁
        sync_cycle r₂

    -- `backend::profile_line`; a socket without a unit is a null pointer.
    unfoldable pub profile_line :
        SyncProfile F → String → Rack F → Option (Bool × SyncProfile F × Rack F)
    unfolding lookup
    profile_line p name r = elim (lookup name r.mount.mainlines) [
      | none ↦ some (false, p, r)
      | some line ↦ do
        u ← line
        (p', w) ← sync_line ops hooks fuel u no_flags 0 p r.world
        some (true, p', record r { world = w })
    ]

    -- `rack::warmup`
    unfoldable pub warmup_rack : Rack F → Option (Rack F)
    unfolding cycle sync_cycle sync_rack
    warmup_rack r = do
      (result, r₁) ← cycle CycleType.warmup r
      r₂ ← sync_cycle r₁
      sync_rack global_flag r₂

    -- The upstream part of the requested syncs, which goes first.
    unfoldable pub service_upstream : Rack F → Option (Rack F)
    unfolding sync_rack
    service_upstream r = if not r.world.resync_flags.upstream then some r else do
      r' ← sync_rack upstream_flag r
      let flags = r'.world.resync_flags
      let flags' = record flags { upstream = not flags.upstream }
      some (record r' { world = record r'.world { resync_flags = flags' } })

    -- The branch for flagged syncs.
    unfoldable pub service_flags : Rack F → Option (Rack F)
    unfolding service_upstream sync_rack
    service_flags r = do
      r₁ ← service_upstream r
      r' ← sync_rack r₁.world.resync_flags r₁
      some (record r' { world = record r'.world { resync_flags = no_flags } })

    -- The syncs that units requested, after an ac cycle.
    unfoldable pub service_sync : Rack F → Option (Rack F)
    unfolding service_flags sync_cycle
    service_sync r = if not r.world.resync then some r else do
      r₂ ← if any_flag r.world.resync_flags then service_flags r else sync_cycle r
      some (record r₂ { world = record r₂.world { resync = false } })

    -- One round of the inner loop of the rack's thread.
    unfoldable pub run_cycle : Rack F → Option (Option Exception × Rack F)
    unfolding cycle service_sync
    run_cycle r = do
      (result, r₁) ← cycle CycleType.ac r
      elim result [
        | thrown e ↦ some (some e, r₁)
        | returned state ↦ do
          r₂ ← service_sync r₁
          some (
            none,
            record r₂ { world = record r₂.world { cycle_queue = r₂.world.cycle_queue - 1 } },
          )
      ]

    -- The inner loop after a wake, for at most `rounds` rounds: `some (some e)` where an exception
    -- has ended it.
    unfoldable pub run_queue : ℕ → Rack F → Option (Option Exception × Rack F)
    run_queue zero r = none
    run_queue (suc rounds) r = if not (ltb 0 r.world.cycle_queue) then some (none, r) else do
      (bail, r') ← run_cycle r
      let rest = run_queue rounds r'
      elim bail [ some e ↦ some (some e, r') | none ↦ rest ]
