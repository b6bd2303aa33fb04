-- ===== src/Config/Assembler.antt =====
-- framework/config/assembler.cpp: a rack set up from a description. `none` ends the program or is
-- undefined.
pub mod Devices
pub mod Loading
pub mod Ready
pub mod Mounted
mod Tests
use Prim.Native.String.{String}
use text.Mathlib.Text.{◌==◌ as str_eq}
use strange_io.Common.{
  ℕ, Bool, true, false, not, Option, none, some, List, [], ◌∷◌, if◌then◌else◌, get_elem?, set,
  ◌>>=◌,
}
use strange_io.Common.Int.{ℤ}
use strange_io.Component.Registrable.{Registrable, Registry, register_component}
use strange_io.Component.Unit.{World}
use strange_io.Component.Exports.{Exports, controllable}
use strange_io.Component.Loader.{Loaded, ulabel, Dynlib, UnitLoader, load_unit}
use strange_io.Component.Mount.{
  Mount, lookup, has_unit, add_mainline, add_unit, connect_mainline, connect_units,
}
use strange_io.Midi.Device.{Device, set_led_on, set_led_off}
use strange_io.Midi.Handler.{
  Handler, LedMode, steady, blink, off, add_device, get_device, add_handler_binding, add_led,
}
use strange_io.Config.Description.{
  Description, Controller, ChainLink, UnitConfig, Binding, Led, UnitDesc,
}

-- The policies; the last two are there with the GNU library only, as assumed here.
pub data Policy : Type 0 where
  sched_other sched_fifo sched_rr sched_batch sched_idle : Policy

-- `sched_desc`
pub record SchedDesc : Type 0 where
  pub policy : Policy
  pub priority : ℤ
  pub cpu_affinity : ℤ

-- The rack and what it is set up with, and `m_factory` of the assembler. A rack without a queue has
-- no `queue_size`. The pointers that a unit is given to the rack's parts are not kept.
pub record Assembly (L F C : Type 0) : Type 0 where
  pub mount : Mount
  pub world : World F
  pub midi : Handler C
  pub registry : Registry
  pub queue_size : Option ℤ
  pub schpolicy : SchedDesc
  pub factory : Option (UnitLoader L)

-- `unit_description`, which has a `throw` without an exception at its end.
unfoldable pub unit_description : String → List UnitDesc → Option UnitDesc
unit_description label [] = none
unit_description label (u ∷ us) =
    let rest = unit_description label us in if str_eq u.label label then some u else rest

unfoldable pub led_mode : String → LedMode
led_mode mode = if str_eq mode "blink" then blink else if str_eq mode "off" then off else steady

unfoldable pub sched_policy : String → Policy
sched_policy p =
    if str_eq p "SCHED_FIFO"
    then sched_fifo
    else if str_eq p "SCHED_RR"
    then sched_rr
    else if str_eq p "SCHED_OTHER"
    then sched_other
    else if str_eq p "SCHED_BATCH"
    then sched_batch
    else if str_eq p "SCHED_IDLE"
    then sched_idle
    else sched_other

module _ {C : Type 0} where
  unfoldable pub assemble_bindings : Exports C → List Binding → Handler C → Handler C
  unfolding lookup add_handler_binding
  assemble_bindings exports [] h = h
  assemble_bindings exports (b ∷ bs) h =
      assemble_bindings exports bs (elim (lookup b.name exports.handlers) [
        | some func ↦ add_handler_binding b.midi_module b.code func h
        | none ↦ h
      ])

  unfoldable pub assemble_leds : String → Exports C → List Led → Handler C → Handler C
  unfolding lookup add_led led_mode
  assemble_leds label exports [] h = h
  assemble_leds label exports (l ∷ ls) h =
      assemble_leds label exports ls (elim (lookup l.state exports.leds) [
        | some state ↦ add_led label state l.device l.code l.value (led_mode l.mode) h
        | none ↦ h
      ])

  -- One controller: the LED functions go to the device that `get` finds.
  unfoldable pub assemble_device : Controller → Handler C → Option (Handler C)
  unfolding add_device get_device set_led_on set_led_off
  assemble_device c h =
      let h' = add_device c.port c.label h in
      do
        i ← get_device c.label h'
        dev ← get_elem? h'.devices i
        some (record h' {
          devices = set h'.devices i (set_led_off c.led_off (set_led_on c.led_on dev));
        })

  unfoldable pub assemble_devices : List Controller → Handler C → Option (Handler C)
  unfolding assemble_device
  assemble_devices [] h = some h
  assemble_devices (c ∷ cs) h = do h' ← assemble_device c h; assemble_devices cs h'

module _ {L F C : Type 0} where
  unfoldable pub assemble_mainlines : List String → Assembly L F C → Assembly L F C
  unfolding add_mainline
  assemble_mainlines [] sys = sys
  assemble_mainlines (name ∷ names) sys =
      assemble_mainlines names (record sys { mount = add_mainline name sys.mount })

  unfoldable pub size_queue : ℤ → Assembly L F C → Assembly L F C
  size_queue num_workers sys = elim sys.queue_size [
    | none ↦ sys
    | some size ↦ record sys { queue_size = some num_workers }
  ]

  unfoldable pub assemble_schpolicy : Description → Assembly L F C → Assembly L F C
  unfolding sched_policy
  assemble_schpolicy desc sys = record sys {
    schpolicy = record {
      policy = sched_policy desc.system.linux_sys.policy;
      priority = desc.system.linux_sys.priority;
      cpu_affinity = desc.system.linux_sys.affinity;
    };
  }

-- `set_configuration` is what a client's unit class implements; `stray` is as in
-- `register_component`.
module _ {F C : Type 0} (set_configuration : String → String → Loaded F C → Loaded F C) where
  unfoldable pub configure : List UnitConfig → Loaded F C → Loaded F C
  configure [] u = u
  configure (c ∷ cs) u = configure cs (set_configuration c.type c.value u)

module _ {L F C : Type 0} (set_configuration : String → String → Loaded F C → Loaded F C)
    (stray : ℕ) where
  -- The branch of `check_unit` for a unit that has been loaded.
  unfoldable pub mount_unit :
      List UnitDesc → UnitDesc → Loaded F C → Assembly L F C → Option (Assembly L F C)
  unfolding register_component controllable unit_description assemble_bindings assemble_leds
      configure add_unit
  mount_unit units ud u sys =
      let (known, registry) = register_component stray u.registrable sys.registry in
      let u₁ : Loaded F C = record u { registrable = known } in
      do
        own ← unit_description (ulabel u₁) units
        let bound =
            if controllable u₁.exports
            then assemble_bindings u₁.exports own.bindings sys.midi
            else sys.midi
        let midi = assemble_leds (ulabel u₁) u₁.exports own.leds bound
        let u₂ = configure set_configuration ud.configs u₁
        let (mount, world) = add_unit (ulabel u₂) u₂.node sys.mount sys.world
        some (record sys { mount = mount; world = world; midi = midi; registry = registry })

module _ {L F C : Type 0} (os : Dynlib L F C)
    (set_configuration : String → String → Loaded F C → Loaded F C) (stray : ℕ) where
  unfoldable pub check_unit : List UnitDesc → String → Assembly L F C → Option (Assembly L F C)
  unfolding unit_description has_unit load_unit mount_unit
  check_unit units label sys = do
    ud ← unit_description label units
    if has_unit ud.label sys.mount then some sys else do
      factory ← sys.factory
      (loaded, libs) ← load_unit os ud.unit ud.label ud.library factory
      let sys' : Assembly L F C = record sys { factory = some libs }
      elim loaded [ none ↦ some sys' | some u ↦ mount_unit set_configuration stray units ud u sys' ]

  unfoldable pub assemble_link :
      List UnitDesc → ChainLink → Assembly L F C → Option (Assembly L F C)
  unfolding check_unit connect_mainline connect_units
  assemble_link units link sys = do
    sys₁ ← check_unit units link.to sys
    if str_eq link.from "rack"
        then some (record sys₁ { mount = (connect_mainline link.plug link.to sys₁.mount).1 })
        else do
          (linked, world) ←
              connect_units link.from link.plug link.to link.jack sys₁.mount sys₁.world
          some (record sys₁ { world = world })

  unfoldable pub assemble_daisychains :
      List UnitDesc → List ChainLink → Assembly L F C → Option (Assembly L F C)
  unfolding assemble_link
  assemble_daisychains units [] sys = some sys
  assemble_daisychains units (l ∷ ls) sys = do
    sys' ← assemble_link units l sys
    assemble_daisychains units ls sys'

  unfoldable pub assemble : Description → Assembly L F C → Option (Assembly L F C)
  unfolding size_queue assemble_mainlines assemble_devices assemble_daisychains assemble_schpolicy
  assemble desc sys =
      let sys₁ =
        assemble_mainlines desc.setup.mainlines (size_queue desc.system.threads.num_workers sys) in
      do
        midi ← assemble_devices desc.controllers sys₁.midi
        let sys₂ : Assembly L F C = record sys₁ { midi = midi }
        sys₃ ← assemble_daisychains desc.setup.units desc.setup.daisychains sys₂
        some (assemble_schpolicy desc sys₃)
