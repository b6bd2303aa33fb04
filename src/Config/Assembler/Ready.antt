-- ===== src/Config/Assembler/Ready.antt =====
-- `check_unit` (framework/config/assembler.cpp) on a set-up whose units are as they should be.
use Prim.Native.String.{String}
use strange_io.Common.{
  ℕ, ◌≡◌, refl, sym, ap, subst, ◌∙◌, ◌⊎◌, inl, inr, true, false, Option, none, some, List, [], ◌∷◌,
  Bool-cases, Option-cases, if◌then◌else◌,
}
use strange_io.Component.Registrable.{register_component}
use strange_io.Component.Exports.{controllable}
use strange_io.Component.Loader.{Loaded, ulabel, Dynlib, UnitLoader, load_unit}
use strange_io.Component.Loader.Cached.{Opened, fresh_unit}
use strange_io.Component.Mount.{Mount, has_unit, add_unit, get_unit, lookup, connect_mainline}
use strange_io.Component.Mount.Valid.{has_unit-lookup, has_unit-found, Sound, add_unit-Added}
use strange_io.Config.Description.{ChainLink, UnitDesc}
use strange_io.Config.Document.{knows_unit}
use strange_io.Config.Assembler.{
  Assembly, unit_description, assemble_bindings, assemble_leds, configure, mount_unit, check_unit,
}
use strange_io.Config.Assembler.Loading.{
  Named, Configures, configure-Named, Loads, Builds, load_unit-Given, unit_description-known,
}

pub connect_mainline-mounted :
    (name label : String) (m : Mount) → (connect_mainline name label m).1.mounted ≡ m.mounted
unfolding connect_mainline get_unit
connect_mainline-mounted name label m = elim (Option-cases (lookup name m.mainlines)) [
  | inl e ↦ cc
  | inr (line, e) ↦ elim (Option-cases (lookup label m.mounted)) [ inl f ↦ cc | inr (u, f) ↦ cc ]
]

pub has_unit_by :
    (label : String) (m m' : Mount)
    → m'.mounted ≡ m.mounted
    → has_unit label m ≡ true
    → has_unit label m' ≡ true
has_unit_by label m m' e h =
    let (u, found) = has_unit-lookup label m h in
    has_unit-found label m' u (subst (λ ms. lookup label ms ≡ some u) (sym e) found)

-- A set-up whose units are as they should be; `libs` are the libraries that are open.
module _ {L F C : Type 0} (os : Dynlib L F C) where
  abbrev pub Ready : Assembly L F C → Type 0
  Ready sys =
      Sound sys.mount.mounted sys.world
      × (libs : UnitLoader L) × (sys.factory ≡ some libs)
      × Opened os libs

  -- What mounting for a label gives: it is mounted, or the system has no unit for it.
  abbrev pub Checked : List UnitDesc → String → Assembly L F C → Type 0
  Checked units label sys =
      (has_unit label sys.mount ≡ true)
      ⊎ ((ud : UnitDesc) × (unit_description label units ≡ some ud)
          × (fresh_unit os ud.unit ud.label ud.library ≡ some none))

  abbrev pub Keeps : Assembly L F C → Assembly L F C → Type 0
  Keeps sys sys' =
      (label : String) → has_unit label sys.mount ≡ true → has_unit label sys'.mount ≡ true

  abbrev pub AllChecked : List UnitDesc → List ChainLink → Assembly L F C → Type 0
  AllChecked units [] sys = Unit {0}
  AllChecked units (l ∷ ls) sys = Checked units l.to sys × AllChecked units ls sys

  pub Checked-same :
      (units : List UnitDesc) (label : String) (sys sys' : Assembly L F C)
      → sys'.mount.mounted ≡ sys.mount.mounted
      → Checked units label sys
      → Checked units label sys'
  Checked-same units label sys sys' same (inl there) =
      inl (has_unit_by label sys.mount sys'.mount same there)
  Checked-same units label sys sys' same (inr lost) = inr lost

  pub AllChecked-same :
      (units : List UnitDesc) (ls : List ChainLink) (sys sys' : Assembly L F C)
      → sys'.mount.mounted ≡ sys.mount.mounted
      → AllChecked units ls sys
      → AllChecked units ls sys'
  AllChecked-same units [] sys sys' same all = tt
  AllChecked-same units (l ∷ ls) sys sys' same (here, all) =
      (Checked-same units l.to sys sys' same here, AllChecked-same units ls sys sys' same all)

  pub Checked-Keeps :
      (units : List UnitDesc) (label : String) (sys sys' : Assembly L F C)
      → Keeps sys sys'
      → Checked units label sys
      → Checked units label sys'
  Checked-Keeps units label sys sys' keeps (inl there) = inl (keeps label there)
  Checked-Keeps units label sys sys' keeps (inr lost) = inr lost

abbrev pub AllKnown : List UnitDesc → List ChainLink → Type 0
AllKnown units [] = Unit {0}
AllKnown units (l ∷ ls) = (knows_unit l.to units ≡ true) × AllKnown units ls

module _ {L F C : Type 0} (os : Dynlib L F C)
    (set_configuration : String → String → Loaded F C → Loaded F C) (stray : ℕ) (loads : Loads os)
    (builds : Builds os) (configures : Configures set_configuration) where
  mount_unit-Ready :
      (units : List UnitDesc) (ud : UnitDesc) (u : Loaded F C) (sys : Assembly L F C)
      → unit_description ud.label units ≡ some ud
      → Named ud.label u
      → Ready os sys
      → (sys' : Assembly L F C) × (mount_unit set_configuration stray units ud u sys ≡ some sys')
        × Ready os sys'
        × Keeps os sys sys'
        × (has_unit ud.label sys'.mount ≡ true)
  unfolding mount_unit register_component
  mount_unit-Ready units ud u sys own (named, valid) (sound, libs, factory, ok) =
      let (known, registry) = register_component stray u.registrable sys.registry in
      let u₁ : Loaded F C = record u { registrable = known } in
      let u₂ = configure set_configuration ud.configs u₁ in
      let named₂ =
        configure-Named set_configuration ud.configs ud.label u₁ configures (named, valid) in
      let bound =
        if controllable u₁.exports
        then assemble_bindings u₁.exports ud.bindings sys.midi
        else sys.midi in
      let (mount, world) = add_unit (ulabel u₂) u₂.node sys.mount sys.world in
      let (sound', here, keeps) =
        add_unit-Added (ulabel u₂) u₂.node sys.mount sys.world sound named₂.1 in
      (
        record sys {
          mount = mount;
          world = world;
          midi = assemble_leds (ulabel u₁) u₁.exports ud.leds bound;
          registry = registry;
        },
        rw (ap (λ l. unit_description l units) named ∙ own) refl,
        (sound', libs, factory, ok),
        keeps,
        subst (λ l. has_unit l mount ≡ true) named₂.0 here,
      )

  -- What follows a step on the set-up.
  abbrev pub Steps : List UnitDesc → String → Assembly L F C → Option (Assembly L F C) → Type 0
  Steps units label sys result =
      (sys' : Assembly L F C) × (result ≡ some sys')
      × Ready os sys'
      × Keeps os sys sys'
      × Checked os units label sys'

  check_unit_there :
      (units : List UnitDesc) (label : String) (ud : UnitDesc) (sys : Assembly L F C)
      → unit_description label units ≡ some ud
      → has_unit ud.label sys.mount ≡ true
      → check_unit os set_configuration stray units label sys ≡ some sys
  unfolding check_unit
  check_unit_there units label ud sys own there = rw (own, there)

  check_unit_loads :
      (units : List UnitDesc) (label : String) (ud : UnitDesc) (sys : Assembly L F C)
      (libs libs' : UnitLoader L) (loaded : Option (Loaded F C))
      → unit_description label units ≡ some ud
      → has_unit ud.label sys.mount ≡ false
      → sys.factory ≡ some libs
      → load_unit os ud.unit ud.label ud.library libs ≡ some (loaded, libs')
      → check_unit os set_configuration stray units label sys ≡ (
          let sys₁ : Assembly L F C = record sys { factory = some libs' } in
          elim loaded [
            | none ↦ some sys₁
            | some u ↦ mount_unit set_configuration stray units ud u sys₁
          ])
  unfolding check_unit
  check_unit_loads units label ud sys libs libs' loaded own new factory loads =
      rw (own, new, factory, loads) refl

  loaded_Steps :
      (units : List UnitDesc) (label : String) (ud : UnitDesc) (sys : Assembly L F C)
      (libs : UnitLoader L) (loaded : Option (Loaded F C))
      → unit_description label units ≡ some ud
      → ud.label ≡ label
      → Sound sys.mount.mounted sys.world
      → Opened os libs
      → fresh_unit os ud.unit ud.label ud.library ≡ some loaded
      → ((u : Loaded F C) → loaded ≡ some u → Named ud.label u)
      → Steps units label sys (
          let sys₁ : Assembly L F C = record sys { factory = some libs } in
          elim loaded [
            | none ↦ some sys₁
            | some u ↦ mount_unit set_configuration stray units ud u sys₁
          ])
  loaded_Steps units label ud sys libs none own named sound ok fresh names =
      let sys₁ : Assembly L F C = record sys { factory = some libs } in
      (sys₁, refl, (sound, libs, refl, ok), λ l h. h, inr (ud, own, fresh))
  loaded_Steps units label ud sys libs (some u) own named sound ok fresh names =
      let sys₁ : Assembly L F C = record sys { factory = some libs } in
      let (sys', mounts, ready, keeps, here) =
        mount_unit-Ready units ud u sys₁ (ap (λ l. unit_description l units) named ∙ own)
          (names u refl) (sound, libs, refl, ok) in
      (sys', mounts, ready, keeps, inl (subst (λ l. has_unit l sys'.mount ≡ true) named here))

  pub check_unit-Steps :
      (units : List UnitDesc) (label : String) (sys : Assembly L F C)
      → knows_unit label units ≡ true
      → Ready os sys
      → Steps units label sys (check_unit os set_configuration stray units label sys)
  check_unit-Steps units label sys known (sound, libs, factory, ok) =
      let (ud, own, named) = unit_description-known label units known in
      elim (Bool-cases (has_unit ud.label sys.mount)) [
        | inl there ↦ (
          sys,
          check_unit_there units label ud sys own there,
          (sound, libs, factory, ok),
          λ l h. h,
          inl (subst (λ l. has_unit l sys.mount ≡ true) named there),
        )
        | inr new ↦
            let (loaded, libs', loading, ok', fresh, names) =
              load_unit-Given os ud libs loads builds ok in
            let steps =
              check_unit_loads units label ud sys libs libs' loaded own new factory loading in
            subst (Steps units label sys) (sym steps)
              (loaded_Steps units label ud sys libs' loaded own named sound ok' fresh names)
      ]
