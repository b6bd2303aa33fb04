-- ===== src/Midi/Handler.antt =====
-- `midi_handler` of framework/midi/midi_handler.cpp. `m_active_dev` points into the vector of
-- devices: positions stand for the pointers, and `moved` for a `push_back` that may have moved the
-- devices since. A use of the pointers after that is undefined (`none`).
pub mod Active
pub mod Leds
pub mod Trigger
mod Tests
use Prim.Native.String.{String}
use text.Mathlib.Text.{◌==◌ as str_eq}
use strange_io.Common.{
  ℕ, zero, suc, ◌+◌, ◌%◌, ◌-◌, Bool, true, false, not, ◌||◌, ◌&&◌, Option, none, some, List, [],
  ◌∷◌, ◌++◌, if◌then◌else◌, get_elem?, set, length, ◌>>=◌, ◌>>◌, require,
}
use strange_io.Common.Int.{ℤ, pos, negsuc, ◌==ℤ◌}
use strange_io.Midi.Device.{
  Msg, Driver, Device, new_device, init_device, add_binding, write_msg, find_code,
}

pub data LedMode : Type 0 where
  steady blink off : LedMode

-- `led_state`
pub record Led : Type 0 where
  pub device : String
  pub mode : LedMode
  pub code : ℤ
  pub value : ℕ

abbrev pub LedStates : Type 0
LedStates = List (ℤ × Led)

pub record Handler (C : Type 0) : Type 0 where
  pub devices : List (Device C)
  pub active : List ℕ
  pub moved : Bool
  pub leds : List (String × LedStates)

-- An `int` assigned to a `uint8_t`.
abbrev pub to_u8 : ℤ → ℕ
to_u8 (pos n) = n % 256
to_u8 (negsuc n) = 255 - n % 256

unfoldable pub find_unit : String → List (String × LedStates) → Option LedStates
find_unit unit [] = none
find_unit unit ((k, states) ∷ rest) =
    let found = find_unit unit rest in if str_eq k unit then some states else found

-- `insert` of a map of states: a state that is there stays as it is.
unfoldable pub insert_state : ℤ → Led → LedStates → LedStates
unfolding find_code
insert_state state led states = elim (find_code state states) [
  | some there ↦ states
  | none ↦ (state, led) ∷ states
]

unfoldable pub put_states :
    String → LedStates → List (String × LedStates) → List (String × LedStates)
put_states unit states [] = []
put_states unit states ((k, old) ∷ rest) =
    let rest' = put_states unit states rest in
    if str_eq k unit then (k, states) ∷ rest else (k, old) ∷ rest'

-- What `trigger_led` sends to a device.
unfoldable pub led_msg : {C : Type 0} → Device C → Led → Msg
led_msg d st = record { f = d.led_on; n = to_u8 st.code; v = st.value }

module _ {C : Type 0} where
  abbrev pub new_handler : Handler C
  new_handler = record { devices = []; active = []; moved = false; leds = [] }

  unfoldable pub add_device : String → String → Handler C → Handler C
  unfolding new_device
  add_device port name h = record h {
    devices = h.devices ++ new_device port name ∷ [];
    moved = elim h.active [ [] ↦ false | i ∷ is ↦ true ];
  }

  -- The loop of `init` from position `i` on: the positions of the devices that open, and all
  -- devices.
  unfoldable pub init_devices : Driver → ℕ → List (Device C) → List ℕ × List (Device C)
  unfolding init_device
  init_devices driver i [] = ([], [])
  init_devices driver i (d ∷ ds) =
      let (opened, d') = init_device driver d in
      let (rest, ds') = init_devices driver (i + 1) ds in
      (if not opened then rest else i ∷ rest, d' ∷ ds')

  -- `init` adds to the pointers that are there.
  unfoldable pub init_handler : Driver → Handler C → Handler C
  unfolding init_devices
  init_handler driver h =
      let (opened, ds) = init_devices driver 0 h.devices in
      record h {
        devices = ds;
        active = h.active ++ opened;
        moved = elim h.active [ [] ↦ false | i ∷ is ↦ h.moved ];
      }

  unfoldable pub find_active : String → List ℕ → List (Device C) → Option (Option ℕ)
  find_active name [] ds = some none
  find_active name (i ∷ is) ds = do
    d ← get_elem? ds i
    if str_eq d.alias name then some (some i) else find_active name is ds

  -- `operator[]`: the position of the device, if any.
  unfoldable pub active_device : String → Handler C → Option (Option ℕ)
  unfolding find_active
  active_device name h = do require (not h.moved); find_active name h.active h.devices

  unfoldable pub bind_all : String → ℤ → C → List (Device C) → List (Device C)
  unfolding add_binding
  bind_all name code func [] = []
  bind_all name code func (d ∷ ds) =
      (if str_eq d.alias name then add_binding code func d else d) ∷ bind_all name code func ds

  unfoldable pub add_handler_binding : String → ℤ → C → Handler C → Handler C
  unfolding bind_all
  add_handler_binding name code func h = record h { devices = bind_all name code func h.devices }

  unfoldable pub find_device : String → ℕ → List (Device C) → Option ℕ
  find_device label i [] = none
  find_device label i (d ∷ ds) =
      let rest = find_device label (i + 1) ds in if str_eq d.alias label then some i else rest

  unfoldable pub get_device : String → Handler C → Option ℕ
  unfolding find_device
  get_device label h = find_device label 0 h.devices

  unfoldable pub add_led : String → ℤ → String → ℤ → ℕ → LedMode → Handler C → Handler C
  unfolding find_unit insert_state put_states
  add_led unit state device code value mode h =
      let led : Led = record { device = device; mode = mode; code = code; value = value } in
      elim (find_unit unit h.leds) [
        | none ↦ record h { leds = (unit, (state, led) ∷ []) ∷ h.leds }
        | some states ↦ record h { leds = put_states unit (insert_state state led states) h.leds }
      ]

  -- The loop of `trigger_led` over the active devices.
  unfoldable pub send_led : Led → List ℕ → List (Device C) → Option (List (Device C))
  unfolding write_msg led_msg
  send_led st [] ds = some ds
  send_led st (i ∷ is) ds = do
    d ← get_elem? ds i
    let written = set ds i (write_msg (led_msg d st) d)
    send_led st is (if str_eq d.alias st.device then written else ds)

  -- The state is an `unsigned int` below 2^31, and a key of the map an `int`.
  unfoldable pub find_led : String → ℕ → Handler C → Option Led
  unfolding find_unit find_code
  find_led unit state h = do states ← find_unit unit h.leds; find_code (pos state) states

  unfoldable pub trigger_led : String → ℕ → Handler C → Option (Handler C)
  unfolding find_led send_led
  trigger_led unit state h = elim (find_led unit state h) [
    | none ↦ some h
    | some st ↦ do
      require (not h.moved)
      ds ← send_led st h.active h.devices
      some (record h { devices = ds })
  ]
