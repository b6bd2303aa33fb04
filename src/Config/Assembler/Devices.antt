-- ===== src/Config/Assembler/Devices.antt =====
-- `assemble_devices` (framework/config/assembler.cpp): the device that `get` finds for a controller.
use text.Mathlib.Text.{◌==◌ as str_eq}
use strange_io.Common.{
  ℕ, suc, ◌+◌, ◌<◌, ◌≡◌, refl, ap, inl, inr, some, List, [], ◌∷◌, ◌++◌, length, Bool-cases, arith,
  set,
}
use strange_io.Common.Text.{str_eq_refl}
use strange_io.Component.Linkable.Valid.{get_elem?-some}
use strange_io.Midi.Device.{Device, new_device, set_led_on, set_led_off}
use strange_io.Midi.Handler.{Handler, add_device, find_device, get_device}
use strange_io.Config.Description.{Controller}
use strange_io.Config.Assembler.{assemble_device, assemble_devices}

module _ {C : Type 0} where
  find_device-last :
      (i : ℕ) (ds : List (Device C)) (d : Device C)
      → (j : ℕ) × (find_device d.alias i (ds ++ d ∷ []) ≡ some (i + j))
        × (j < length (ds ++ d ∷ []))
  unfolding find_device
  find_device-last i [] d = (0, rw (str_eq_refl d.alias) (ap some (omega arith)), omega arith)
  find_device-last i (x ∷ ds) d = elim (Bool-cases (str_eq x.alias d.alias)) [
    | inl e ↦ (0, rw e (ap some (omega arith)), omega arith)
    | inr e ↦
        let (j, finds, h) = find_device-last (i + 1) ds d in
        (suc j, rw (e, finds) (ap some (omega arith)), omega (arith, h))
  ]

  assemble_device-total :
      (c : Controller) (h : Handler C) → (h' : Handler C) × (assemble_device c h ≡ some h')
  unfolding assemble_device add_device get_device new_device
  assemble_device-total c h =
      let (j, finds, below) = find_device-last 0 h.devices (new_device c.port c.label) in
      let (d, gets) =
        get_elem?-some (h.devices ++ new_device c.port c.label ∷ []) (0 + j)
          (omega (arith, below)) in
      let added = add_device c.port c.label h in
      (
        record added {
          devices = set added.devices (0 + j) (set_led_off c.led_off (set_led_on c.led_on d));
        },
        rw (finds, gets) refl,
      )

  -- Every list of controllers can be set up.
  pub assemble_devices-total :
      (cs : List Controller) (h : Handler C) → (h' : Handler C) × (assemble_devices cs h ≡ some h')
  unfolding assemble_devices
  assemble_devices-total [] h = (h, refl)
  assemble_devices-total (c ∷ cs) h =
      let (h₁, first) = assemble_device-total c h in
      let (h₂, rest) = assemble_devices-total cs h₁ in (h₂, rw (first, rest))
