-- ===== src/Component/Cycle.antt =====
-- `unit::cycle_line` of unit.cpp, and the rest of `combine` and `unit` that the lines use.
-- Units call one another along their links: `fuel` bounds the depth.
pub mod Initial
pub mod Warmup
pub mod Total
mod Tests
use strange_io.Common.{
  ℕ, zero, suc, Bool, true, false, not, Option, none, some, List, [], ◌∷◌, leb, if◌then◌else◌,
  get_elem?, length, ◌>>=◌, replicate,
}
use strange_io.Common.Int.{pos, ◌==ℤ◌}
use strange_io.Component.LineState
use strange_io.Component.Linkable.{LinkOut, get_input}
use strange_io.Component.Profile.{
  FloatOps, ComponentState, CycleType, warmup, sync, ac, CycleState, Flags, no_flags,
}
use strange_io.Component.Unit.{Cycled, returned, thrown, Node, World, Hooks, node_at, put_node}
use strange_io.Component.Sync.{sync_line}

-- `state > cycle_state::complete`
abbrev pub failed : CycleState → Bool
failed CycleState.complete = false
failed CycleState.partial = true
failed CycleState.error = true
failed CycleState.empty = true

abbrev pub from_source : Flags
from_source = record no_flags { source = true }

module _ {F : Type 0} where
  -- The loop over the outputs: what the units behind them return is dropped, what they throw goes on.
  unfoldable pub cycle_outputs :
      (ℕ → World F → Option (Cycled × World F))
      → CycleState
      → List LinkOut
      → World F
      → Option (Cycled × World F)
  cycle_outputs call state [] w = some (returned state, w)
  cycle_outputs call state (o ∷ os) w = do
    (result, w') ←
        if not o.connected then some (returned state, w) else do (unit, input) ← o.to; call unit w
    let rest = cycle_outputs call state os w'
    elim result [ thrown e ↦ some (thrown e, w') | returned dropped ↦ rest ]

  module _ (ops : FloatOps F) (hooks : Hooks F) where
    unfoldable pub sync_source : ℕ → ℕ → World F → Option (Cycled × World F)
    sync_source fuel u w = do
      n ← node_at u w
      let start = record n.line_profile {
        state = LineState.active;
        period = pos 0;
        drift = ops.zero;
      }
      let w₁ = put_node u (record n { line_profile = start }) w
      (line, w') ← sync_line ops hooks fuel u from_source 0 start w₁
      n' ← node_at u w'
      some (returned CycleState.complete, put_node u (record n' { line_profile = line }) w')

    unfoldable pub warmup_unit : ℕ → World F → Option (Cycled × World F)
    warmup_unit u w = do
      n ← node_at u w
      elim n.cstate [
        | ComponentState.active ↦ some (returned CycleState.complete, w)
        | ComponentState.inactive ↦ do
          let (state, w') = hooks.init u w
          n' ← node_at u w'
          if failed state
              then some (returned state, w')
              else some
                  (returned state, put_node u (record n' { cstate = ComponentState.active }) w')
      ]

    -- The `switch`.
    unfoldable pub cycle_unit : CycleType → ℕ → ℕ → World F → Option (Cycled × World F)
    unfolding sync_source warmup_unit
    cycle_unit ac fuel u w = do
      n ← node_at u w
      if n.line_profile.state ==ℤ LineState.flushing
          then some (returned CycleState.complete, w)
          else some (hooks.cycle u w)
    cycle_unit sync fuel u w = sync_source fuel u w
    cycle_unit warmup fuel u w = warmup_unit u w

    unfoldable pub cycle_line : ℕ → CycleType → ℕ → World F → Option (Cycled × World F)
    cycle_line zero type u w = none
    cycle_line (suc fuel) type u w = do
      (result, w') ← cycle_unit type (suc fuel) u w
      elim result [
        | thrown e ↦ some (thrown e, w')
        | returned state ↦
            if failed state
            then some (returned state, w')
            else do n ← node_at u w'; cycle_outputs (cycle_line fuel type) state n.ports.outputs w'
      ]

module _ {F : Type 0} where
  -- `combine::init_input_states`
  unfoldable pub init_input_states : Node F → Node F
  init_input_states n = record n { input_state = replicate (length n.ports.inputs) false }

  -- `combine::input_active`: `get_input` gives a null pointer out of range.
  unfoldable pub input_active : ℕ → Node F → Option Bool
  unfolding get_input
  input_active id n = if leb (length n.input_state) id then some false else do
    i ← get_input id n.ports
    if not i.connected then some false else get_elem? n.input_state id

-- `combine::all_active`
unfoldable pub all_active : List Bool → Bool
all_active [] = true
all_active (a ∷ rest) = if not a then false else all_active rest
