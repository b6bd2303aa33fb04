-- ===== src/Component/Unit.antt =====
-- The members of `unit` (framework/include/framework/component/unit.hpp) and of `combine`, all units
-- of a rack, and what the rack keeps of the calls that units make on it.
use strange_io.Common.{
  not, ◌||◌, require, some, ◌>>=◌, ◌>>◌, ℕ, ◌+◌, Bool, true, Option, List, if◌then◌else◌, get_elem?,
  set,
}
use strange_io.Component.Linkable.{Ports}
use strange_io.Component.Profile.{
  UnitType, ComponentState, CycleState, Flags, SyncProfile, any_flag, union_flags,
}

-- The class of a unit decides which `sync_line` it has, and goes with its type.
pub record Node (F : Type 0) : Type 0 where
  pub utype : UnitType
  pub ports : Ports
  pub unit_profile : SyncProfile F
  pub upstream : Bool
  pub cstate : ComponentState
  pub has_rack : Bool
  pub line_profile : SyncProfile F
  pub global_profile : SyncProfile F
  pub input_state : List Bool

-- All units, and `m_resync`, `m_resync_flags` and `m_cycle_queue` of the rack.
pub record World (F : Type 0) : Type 0 where
  pub nodes : List (Node F)
  pub resync : Bool
  pub resync_flags : Flags
  pub cycle_queue : ℕ

-- `cache_drain` and `cache_nullptr` of exceptions.hpp.
pub data Exception : Type 0 where
  cache_drain cache_nullptr : Exception

-- How a cycle ends.
pub data Cycled : Type 0 where
  returned : CycleState → Cycled
  thrown : Exception → Cycled

-- What a client's unit class implements; each hook is given its unit and may change anything.
-- `resync` is also given what the profile is that the sync passes on by reference, since it may read
-- it: in a sync that `cycle_line` starts it is the line profile of the first unit. Exceptions are modelled where samples flow, in `cycle`.
pub record Hooks (F : Type 0) : Type 0 where
  pub cycle : ℕ → World F → Cycled × World F
  pub init : ℕ → World F → CycleState × World F
  pub resync : ℕ → Flags → SyncProfile F → World F → World F

module _ {F : Type 0} where
  abbrev pub node_at : ℕ → World F → Option (Node F)
  node_at i w = get_elem? w.nodes i

  abbrev pub put_node : ℕ → Node F → World F → World F
  put_node i n w = record w { nodes = set w.nodes i n }

  -- `rack::trigger_sync`
  unfoldable pub trigger_sync : Flags → World F → World F
  trigger_sync flags w = record w {
    resync_flags = if any_flag flags then union_flags w.resync_flags flags else w.resync_flags;
    resync = true;
  }

  -- `rack::trigger_cycle`
  unfoldable pub trigger_cycle : World F → World F
  trigger_cycle w = record w { cycle_queue = w.cycle_queue + 1 }

  -- `unit::trigger_sync` of the unit at `i`.
  unfoldable pub request_sync : ℕ → Flags → World F → Option (World F)
  unfolding trigger_sync
  request_sync i flags w = do
    n ← node_at i w
    let toggled = put_node i (record n { upstream = flags.upstream || n.upstream }) w
    some (if not n.has_rack then toggled else trigger_sync flags toggled)

  -- `unit::trigger_cycle`, which uses the pointer to the rack as it is.
  unfoldable pub request_cycle : ℕ → World F → Option (World F)
  unfolding trigger_cycle
  request_cycle i w = do n ← node_at i w; require n.has_rack; some (trigger_cycle w)
