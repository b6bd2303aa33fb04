-- ===== src/Config/Document.antt =====
-- `document` of framework/config/document.cpp. JSON values are picojson's, behind the interface
-- `Json`; `none` is an exception of picojson's, which ends the reading.
pub mod Units
mod Labels
pub mod Midi
mod Tests
use Prim.Native.String.{String}
use text.Mathlib.Text.{◌==◌ as str_eq}
use strange_io.Common.{
  ℕ, Bool, true, false, not, ◌||◌, Option, none, some, List, [], ◌∷◌, ◌++◌, if◌then◌else◌, ◌>>=◌,
}
use strange_io.Common.Int.{ℤ, pos, negsuc}
use strange_io.Config.Description.{
  Threading, LinuxSys, System, Controller, ChainLink, UnitConfig, Binding, Led, UnitDesc, Setup,
  Description,
}

-- `picojson::value`: `get` gives a null value for a missing key and throws for what is no object,
-- the others throw for a value of another type. Objects list their members in the order of keys;
-- numbers are as `static_cast` gives them, to an `int` and to a `uint8_t`.
pub record Json (V : Type 0) : Type 0 where
  pub is_null : V → Bool
  pub is_object : V → Bool
  pub get : String → V → Option V
  pub members : V → Option (List (String × V))
  pub elements : V → Option (List V)
  pub text : V → Option String
  pub int : V → Option ℤ
  pub byte : V → Option ℕ

-- `new description`, with the fields that `load` sets; `stray` is what the memory held.
unfoldable pub new_description : ℤ → Description
new_description stray = record {
  system = record {
    threads = record { num_workers = stray };
    linux_sys = record { policy = "SCHED_OTHER"; priority = pos 0; affinity = stray };
  };
  controllers = [];
  setup = record { mainlines = []; daisychains = []; units = [] };
}

-- How the loop over the members of an object goes on: `ended` is a `return`.
pub data Flow (A : Type 0) : Type 0 where
  goes_on : A → Flow A
  ended : A → Flow A

unfoldable pub knows_unit : String → List UnitDesc → Bool
knows_unit label [] = false
knows_unit label (u ∷ us) =
    let rest = knows_unit label us in if str_eq u.label label then true else rest

module _ {V : Type 0} (json : Json V) where
  -- A value that may be left out: what is read from it, or `default`.
  unfoldable pub optional : {A : Type 0} → (V → Option A) → A → V → Option A
  optional read default v = if json.is_null v then some default else read v

  abbrev pub text_at : String → V → Option String
  text_at key v = do cv ← json.get key v; json.text cv

  abbrev pub null_at : String → V → Option Bool
  null_at key v = do cv ← json.get key v; some (json.is_null cv)

  unfoldable pub parse_bindings : List (String × V) → UnitDesc → Option UnitDesc
  parse_bindings [] unit = some unit
  parse_bindings ((method, v) ∷ rest) unit = do
    no_module ← null_at "module" v
    cv ← json.get "code" v
    unit' ← if no_module || json.is_null cv then some unit else do
      midi_module ← text_at "module" v
      code ← json.int cv
      some (record unit {
        bindings =
            unit.bindings ++ record { name = method; midi_module = midi_module; code = code } ∷ [];
      })
    parse_bindings rest unit'

  unfoldable pub parse_led : String → V → UnitDesc → Option UnitDesc
  parse_led state v unit = do
    device ← text_at "module" v
    cv ← json.get "code" v
    code ← json.int cv
    vv ← json.get "value" v
    value ← json.byte vv
    mode ← text_at "mode" v
    some (record unit {
      leds =
          unit.leds
          ++ record { state = state; device = device; mode = mode; code = code; value = value }
            ∷ [];
    })

  unfoldable pub parse_leds : List (String × V) → UnitDesc → Option UnitDesc
  unfolding parse_led
  parse_leds [] unit = some unit
  parse_leds ((state, v) ∷ rest) unit = do
    no_module ← null_at "module" v
    no_code ← null_at "code" v
    no_mode ← null_at "mode" v
    unit' ← if no_module || no_code || no_mode then some unit else parse_led state v unit
    parse_leds rest unit'

  unfoldable pub parse_configs : List (String × V) → UnitDesc → Option UnitDesc
  parse_configs [] unit = some unit
  parse_configs ((key, v) ∷ rest) unit = do
    value ← json.text v
    parse_configs rest
        (record unit { configs = unit.configs ++ record { type = key; value = value } ∷ [] })

  -- A section of a unit that may be left out.
  unfoldable pub parse_section :
      (List (String × V) → UnitDesc → Option UnitDesc) → String → V → UnitDesc → Option UnitDesc
  parse_section parse key v unit = do
    cv ← json.get key v
    if json.is_null cv then some unit else do members ← json.members cv; parse members unit

  -- What `parse_unit` makes of a unit that is new.
  unfoldable pub read_unit : String → V → Option UnitDesc
  unfolding optional parse_section parse_bindings parse_leds parse_configs
  read_unit label v = do
    cv ← json.get "library" v
    library ← optional json.text "" cv
    uv ← json.get "unit" v
    model ← optional json.text "" uv
    bound ← parse_section parse_bindings "bindings" v (record {
      label = label;
      unit = model;
      library = library;
      configs = [];
      bindings = [];
      leds = [];
    })
    lit ← parse_section parse_leds "leds" v bound
    parse_section parse_configs "config" v lit

  unfoldable pub parse_unit : String → V → Setup → Option Setup
  unfolding knows_unit
  parse_unit label v setup =
      if knows_unit label setup.units
      then some setup
      else do unit ← read_unit label v; some (record setup { units = setup.units ++ unit ∷ [] })

  unfoldable pub parse_mainlines : List V → Setup → Option Setup
  parse_mainlines [] setup = some setup
  parse_mainlines (v ∷ vs) setup = do
    plug ← text_at "plug" v
    parse_mainlines vs (record setup { mainlines = setup.mainlines ++ plug ∷ [] })

  -- One round of the loop over the daisychains; `rack` is the whole section, which holds the units.
  unfoldable pub parse_link : V → V → Setup → Option Setup
  parse_link rack v setup = do
    from ← text_at "from" v
    plug ← text_at "plug" v
    to ← text_at "to" v
    jack ← text_at "jack" v
    let linked = record setup {
      daisychains =
          setup.daisychains ++ record { from = from; plug = plug; to = to; jack = jack } ∷ [];
    }
    uv ← json.get to rack
    if json.is_null uv then some linked else parse_unit to uv linked

  unfoldable pub parse_daisychains : V → List V → Setup → Option Setup
  parse_daisychains rack [] setup = some setup
  parse_daisychains rack (v ∷ vs) setup = do
    setup' ← parse_link rack v setup
    parse_daisychains rack vs setup'

  unfoldable pub parse_rack : V → Setup → Option Setup
  unfolding parse_mainlines parse_daisychains
  parse_rack v setup = do
    mv ← json.get "mainlines" v
    mainlines ← json.elements mv
    plugged ← parse_mainlines mainlines setup
    dv ← json.get "daisychains" v
    links ← json.elements dv
    parse_daisychains v links plugged

  unfoldable pub parse_syslinux : V → LinuxSys → Option LinuxSys
  unfolding optional
  parse_syslinux v sys = do
    pv ← json.get "sched_policy" v
    policy ← optional json.text sys.policy pv
    rv ← json.get "sched_priority" v
    priority ← optional json.int sys.priority rv
    av ← json.get "cpu_affinity" v
    affinity ← optional json.int (negsuc 0) av
    some (record { policy = policy; priority = priority; affinity = affinity })

  -- The loop over the controllers of the "midi" section: a controller without a port ends the
  -- whole of `parse_document`.
  unfoldable pub parse_controllers : List (String × V) → Description → Option (Flow Description)
  unfolding optional
  parse_controllers [] d = some (goes_on d)
  parse_controllers ((label, v) ∷ rest) d = do
    pv ← json.get "port" v
    if json.is_null pv then some (ended d) else do
      port ← json.text pv
      nv ← json.get "led_on" v
      led_on ← optional json.byte 0 nv
      fv ← json.get "led_off" v
      led_off ← optional json.byte 0 fv
      parse_controllers rest (record d {
        controllers =
            d.controllers
            ++ record { label = label; port = port; led_on = led_on; led_off = led_off } ∷ [];
      })

  -- "threads" ends the loop.
  unfoldable pub parse_threads : V → System → Option (Flow System)
  unfolding optional
  parse_threads v s = do
    cv ← json.get "workers" v
    workers ← optional json.int s.threads.num_workers cv
    some (ended (record s { threads = record { num_workers = workers } }))

  unfoldable pub parse_linux : V → System → Option (Flow System)
  unfolding parse_syslinux
  parse_linux v s = do
    linux ← parse_syslinux v s.linux_sys
    some (goes_on (record s { linux_sys = linux }))

  -- One member of a "system" section.
  unfoldable pub system_member : String → V → System → Option (Flow System)
  unfolding parse_threads parse_linux
  system_member key v s =
      if str_eq key "threads"
      then parse_threads v s
      else if str_eq key "linux"
      then parse_linux v s
      else some (goes_on s)

  unfoldable pub parse_system : List (String × V) → System → Option System
  unfolding system_member
  parse_system [] s = some s
  parse_system ((key, v) ∷ rest) s = do
    flow ← system_member key v s
    elim flow [ ended s' ↦ some s' | goes_on s' ↦ parse_system rest s' ]

  -- The members of the document.
  unfoldable pub read_system : V → Description → Option (Flow Description)
  unfolding parse_system
  read_system v d = if not (json.is_object v) then some (goes_on d) else do
    members ← json.members v
    system ← parse_system members d.system
    some (goes_on (record d { system = system }))

  unfoldable pub read_rack : V → Description → Option (Flow Description)
  unfolding parse_rack
  read_rack v d = do setup ← parse_rack v d.setup; some (goes_on (record d { setup = setup }))

  unfoldable pub read_midi : V → Description → Option (Flow Description)
  unfolding parse_controllers
  read_midi v d = do members ← json.members v; parse_controllers members d

  unfoldable pub parse_member : String → V → Description → Option (Flow Description)
  unfolding read_system read_rack read_midi
  parse_member key v d =
      if str_eq key "system"
      then read_system v d
      else if str_eq key "rack"
      then read_rack v d
      else if str_eq key "midi"
      then read_midi v d
      else some (goes_on d)

  unfoldable pub parse_root : List (String × V) → Description → Option Description
  parse_root [] d = some d
  parse_root ((key, v) ∷ rest) d = do
    flow ← parse_member key v d
    elim flow [ ended d' ↦ some d' | goes_on d' ↦ parse_root rest d' ]

  -- `load`, from the value that the text of the file is parsed to.
  unfoldable pub load : ℤ → V → Option Description
  unfolding new_description parse_root
  load stray v =
      if not (json.is_object v)
      then some (new_description stray)
      else do members ← json.members v; parse_root members (new_description stray)
