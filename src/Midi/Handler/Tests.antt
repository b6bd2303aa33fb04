-- ===== src/Midi/Handler/Tests.antt =====
-- A handler with two devices, of which one opens.
use strange_io.Common.{ℕ, ◌≡◌, refl, arith, true, Option, some, List, [], ◌∷◌, get_elem?}
use text.Mathlib.Text.{◌==◌ as str_eq}
use strange_io.Common.Int.{pos}
use strange_io.Midi.Device.{
  Driver, Device, Round, init_device, add_binding, find_code, cycle_device,
}
use strange_io.Midi.Device.Rounds.{cycle_device-heard}
use strange_io.Midi.Handler.{
  Handler, Led, steady, new_handler, add_device, init_handler, init_devices, add_led, find_led,
  active_device, trigger_led, insert_state, find_unit, put_states,
}
use strange_io.Midi.Handler.Leds.{find_led-add_led}
use strange_io.Midi.Handler.Active.{active_device-init}
use strange_io.Midi.Handler.Trigger.{lit, trigger_led-lit}

abbrev wheel_only : Driver
wheel_only = record {
  opens_input = λ alias port. str_eq alias "wheel";
  opens_output = λ alias port. true;
}

abbrev two_devices : Handler ℕ
unfolding add_device
two_devices = add_device "hw:1" "wheel" (add_device "hw:0" "pads" new_handler)

abbrev ready : Handler ℕ
unfolding add_device init_handler init_devices init_device add_led insert_state find_unit put_states
ready = add_led "deck" (pos 1) "wheel" (pos 60) 127 steady (init_handler wheel_only two_devices)

abbrev wheel : Device ℕ
wheel = record {
  port_name = "hw:1";
  alias = "wheel";
  has_input = true;
  has_output = true;
  led_on = 0;
  led_off = 0;
  bindings = [];
  written = [];
}

abbrev play : Led
play = record { device = "wheel"; mode = steady; code = pos 60; value = 127 }

find_led-add_led_example : find_led "deck" 1 ready ≡ some play
unfolding find_led find_unit find_code ready add_led init_handler
find_led-add_led_example =
    find_led-add_led "deck" 1 "wheel" (pos 60) 127 steady (init_handler wheel_only two_devices)
      "deck" 1

trigger_led-lit_example :
    (h' : Handler ℕ) × (trigger_led "deck" 1 ready ≡ some h')
    × (get_elem? h'.devices 1 ≡ some (lit play 1 wheel))
unfolding add_device init_handler init_devices init_device add_led insert_state find_unit put_states
    find_led find_code
trigger_led-lit_example =
    trigger_led-lit "deck" 1 ready play 1 wheel refl (omega arith, tt) refl refl

active_device-init_example :
    (found : Option ℕ) × (active_device "wheel" (init_handler wheel_only two_devices) ≡ some found)
    × ((j : ℕ)
        → found ≡ some j
        → (d : Device ℕ) × (get_elem? (init_handler wheel_only two_devices).devices j ≡ some d)
          × (d.alias ≡ "wheel")
          × (d.has_input ≡ true))
unfolding two_devices
active_device-init_example = active_device-init wheel_only two_devices "wheel" refl

-- A bound message, one that is not bound, and a read error.
abbrev three_rounds : List Round
three_rounds =
    record { running = true; code = record { f = 144; n = 60; v = 1 }; running_after = true }
    ∷ record { running = true; code = record { f = 144; n = 61; v = 1 }; running_after = true }
    ∷ record { running = true; code = record { f = 0; n = 60; v = 1 }; running_after = true }
    ∷ []

three_rounds_calls :
    cycle_device (add_binding (pos 60) 7 wheel) three_rounds
    ≡ (7, record { f = 144; n = 60; v = 1 }) ∷ []
unfolding cycle_device add_binding find_code
three_rounds_calls = cycle_device-heard (add_binding (pos 60) 7 wheel) three_rounds
