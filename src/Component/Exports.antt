-- ===== src/Component/Exports.antt =====
-- What a unit offers for MIDI (framework/component/unit.cpp): methods that messages can be bound to,
-- and states that LEDs can show. `C` is the type of callbacks.
use Prim.Native.String.{String}
use strange_io.Common.{Bool, true, false, none, some, List, [], ◌∷◌}
use strange_io.Common.Int.{ℤ}
use strange_io.Component.Mount.{lookup}

pub record Exports (C : Type 0) : Type 0 where
  pub handlers : List (String × C)
  pub leds : List (String × ℤ)

module _ {C : Type 0} where
  -- `insert` of a map: a name that is there keeps what it has.
  unfoldable pub register_midi_handler : String → C → Exports C → Exports C
  unfolding lookup
  register_midi_handler binding_name method e = elim (lookup binding_name e.handlers) [
    | some bound ↦ e
    | none ↦ record e { handlers = (binding_name, method) ∷ e.handlers }
  ]

  unfoldable pub register_midi_led : String → ℤ → Exports C → Exports C
  unfolding lookup
  register_midi_led state_name state e = elim (lookup state_name e.leds) [
    | some known ↦ e
    | none ↦ record e { leds = (state_name, state) ∷ e.leds }
  ]

  unfoldable pub controllable : Exports C → Bool
  controllable e = elim e.handlers [ [] ↦ false | h ∷ hs ↦ true ]
