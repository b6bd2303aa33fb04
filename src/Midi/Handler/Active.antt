-- ===== src/Midi/Handler/Active.antt =====
-- `init` and `operator[]` (framework/midi/midi_handler.cpp): the devices that are active.
use Prim.Native.String.{String}
use text.Mathlib.Text.{◌==◌ as str_eq}
use strange_io.Common.{
  ℕ, suc, ◌+◌, ◌≡◌, refl, sym, ap, ◌∙◌, inl, inr, true, Option, none, some, List, [], ◌∷◌, arith,
  Bool-cases, get_elem?, some_inj,
}
use strange_io.Common.Text.{of_str_eq}
use strange_io.Midi.Device.{Driver, Device, init_device}
use strange_io.Midi.Handler.{Handler, init_devices, init_handler, find_active, active_device}

module _ {C : Type 0} where
  -- Each position, counted from `i`, is one of a device whose input is open.
  abbrev pub AllOpen : ℕ → List ℕ → List (Device C) → Type 0
  AllOpen i [] ds = Unit {0}
  AllOpen i (j ∷ js) ds =
      ((k : ℕ) × (d : Device C) × (j ≡ i + k) × (get_elem? ds k ≡ some d) × (d.has_input ≡ true))
      × AllOpen i js ds

  AllOpen-later :
      (i : ℕ) (d : Device C) (js : List ℕ) (ds : List (Device C))
      → AllOpen (i + 1) js ds
      → AllOpen i js (d ∷ ds)
  AllOpen-later i d [] ds ok = tt
  AllOpen-later i d (j ∷ js) ds ((k, e, at, gets, input), ok) =
      ((suc k, e, omega arith, gets, input), AllOpen-later i d js ds ok)

  init_devices-AllOpen :
      (driver : Driver) (i : ℕ) (ds : List (Device C))
      → AllOpen i (init_devices driver i ds).0 (init_devices driver i ds).1
  unfolding init_devices init_device
  init_devices-AllOpen driver i [] = tt
  init_devices-AllOpen driver i (d ∷ ds) =
      let rest = init_devices-AllOpen driver (i + 1) ds in
      elim (Bool-cases (driver.opens_input d.alias d.port_name)) [
        | inr e ↦ rw e (AllOpen-later i d _ _ rest)
        | inl e ↦ elim (Bool-cases (driver.opens_output d.alias d.port_name)) [
          | inr f ↦ rw (e, f) ((0, _, omega arith, refl, refl), AllOpen-later i _ _ _ rest)
          | inl f ↦ rw (e, f) ((0, _, omega arith, refl, refl), AllOpen-later i _ _ _ rest)
        ]
      ]

  find_active-open :
      (name : String) (js : List ℕ) (ds : List (Device C))
      → AllOpen 0 js ds
      → (found : Option ℕ) × (find_active name js ds ≡ some found)
        × ((j : ℕ)
            → found ≡ some j
            → (d : Device C) × (get_elem? ds j ≡ some d) × (d.alias ≡ name) × (d.has_input ≡ true))
  unfolding find_active
  find_active-open name [] ds ok = (none, refl, λ j e. cc)
  find_active-open name (j ∷ js) ds ((k, d, at, gets, input), ok) =
      let at_k : j ≡ k = omega arith in
      let here : get_elem? ds j ≡ some d = ap (get_elem? ds) at_k ∙ gets in
      elim (Bool-cases (str_eq d.alias name)) [
        | inl e ↦ (
          some j,
          rw (here, e) refl,
          λ i q. (d, ap (get_elem? ds) (sym (some_inj q)) ∙ here, of_str_eq d.alias name e, input),
        )
        | inr e ↦
            let (found, finds, is) = find_active-open name js ds ok in
            (found, rw (here, e) finds, is)
      ]

  -- On a handler that is set up once, looking a device up by its name always gives an answer, and
  -- a device that is found has that name and an open input.
  pub active_device-init :
      (driver : Driver) (h : Handler C) (name : String)
      → h.active ≡ []
      → (found : Option ℕ) × (active_device name (init_handler driver h) ≡ some found)
        × ((j : ℕ)
            → found ≡ some j
            → (d : Device C) × (get_elem? (init_handler driver h).devices j ≡ some d)
              × (d.alias ≡ name)
              × (d.has_input ≡ true))
  unfolding active_device init_handler
  active_device-init driver h name e =
      let (found, finds, is) =
        find_active-open name (init_devices driver 0 h.devices).0
          (init_devices driver 0 h.devices).1 (init_devices-AllOpen driver 0 h.devices) in
      (found, rw e finds, is)
