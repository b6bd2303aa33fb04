-- ===== src/Config/Assembler/Loading.antt =====
-- The units that `check_unit` (framework/config/assembler.cpp) has loaded.
use Prim.Native.String.{String}
use text.Mathlib.Text.{◌==◌ as str_eq}
use strange_io.Common.{
  ◌≡◌, sym, ap, subst, ◌∙◌, inl, inr, true, Option, none, some, List, [], ◌∷◌, Bool-cases,
  Option-cases, ◌>>=◌, >>=-eq-some,
}
use strange_io.Common.Text.{of_str_eq}
use strange_io.Component.Linkable.Valid.{ValidPorts}
use strange_io.Component.Loader.{
  Loaded, ulabel, Dynlib, UnitLoader, load_library, build_unit, load_unit,
}
use strange_io.Component.Loader.Cached.{Opened, Faithful, fresh_unit, load_unit-Faithful}
use strange_io.Config.Description.{UnitConfig, UnitDesc}
use strange_io.Config.Document.{knows_unit}
use strange_io.Config.Assembler.{unit_description, configure}

pub unit_description-known :
    (label : String) (us : List UnitDesc)
    → knows_unit label us ≡ true
    → (u : UnitDesc) × (unit_description label us ≡ some u) × (u.label ≡ label)
unfolding unit_description knows_unit
unit_description-known label [] h = cc
unit_description-known label (u ∷ us) h = elim (Bool-cases (str_eq u.label label)) [
  | inl same ↦ (u, rw same, of_str_eq u.label label same)
  | inr other ↦
      let (v, finds, named) = unit_description-known label us (rw other at h) in
      (v, rw other finds, named)
]

-- The unit has the label it was asked for, and the ports that it added.
abbrev pub Named : {F C : Type 0} → String → Loaded F C → Type 0
Named label u = (ulabel u ≡ label) × ValidPorts u.node.ports

module _ {F C : Type 0} (set_configuration : String → String → Loaded F C → Loaded F C) where
  -- Configuration leaves a unit its label.
  abbrev pub Configures : Type 0
  Configures =
      (key value label : String) (u : Loaded F C)
      → Named label u
      → Named label (set_configuration key value u)

  pub configure-Named :
      (cs : List UnitConfig) (label : String) (u : Loaded F C)
      → Configures
      → Named label u
      → Named label (configure set_configuration cs u)
  unfolding configure
  configure-Named [] label u k ok = ok
  configure-Named (c ∷ cs) label u k ok = configure-Named cs label _ k (k c.type c.value label u ok)

module _ {L F C : Type 0} (os : Dynlib L F C) where
  -- Files that can be read are libraries.
  abbrev pub Loads : Type 0
  Loads = (path : String) → os.readable path ≡ true → (lib : L) × (os.dlopen path ≡ some lib)

  -- Builders give the units that they are asked for.
  abbrev pub Builds : Type 0
  Builds =
      (model label : String) (lib : L) (u : Loaded F C)
      → build_unit os model label lib ≡ some u
      → Named label u

  load_library-total : (path : String) → Loads → (r : Option L) × (load_library os path ≡ some r)
  unfolding load_library
  load_library-total path loads = elim (Bool-cases (os.readable path)) [
    | inr e ↦ (none, rw e)
    | inl e ↦ let (lib, opens) = loads path e in (some lib, rw (e, opens))
  ]

  -- A loader gives a unit of the label, or the system has none.
  abbrev pub Given : UnitDesc → UnitLoader L → Type 0
  Given ud libs =
      (loaded : Option (Loaded F C)) × (libs' : UnitLoader L) × (load_unit os ud.unit ud.label
          ud.library libs
        ≡ some (loaded, libs'))
      × Opened os libs'
      × (fresh_unit os ud.unit ud.label ud.library ≡ some loaded)
      × ((u : Loaded F C) → loaded ≡ some u → Named ud.label u)

  pub load_unit-Given :
      (ud : UnitDesc) (libs : UnitLoader L) → Loads → Builds → Opened os libs → Given ud libs
  load_unit-Given ud libs loads builds ok =
      let (r, opens) = load_library-total ud.library loads in
      let built = r >>= build_unit os ud.unit ud.label in
      let fresh : fresh_unit os ud.unit ud.label ud.library ≡ some built = rw opens in
      let loading = load_unit os ud.unit ud.label ud.library libs in
      let faithful : Faithful os (some built) loading =
        subst (λ f. Faithful os f loading) fresh
          (load_unit-Faithful os ud.unit ud.label ud.library libs ok) in
      let named : (u : Loaded F C) → built ≡ some u → Named ud.label u = λ u e.
        let (lib, is, builds_u) = >>=-eq-some r _ e in builds ud.unit ud.label lib u builds_u in
      elim (Option-cases loading) [
        | inl e ↦ absurd (subst (Faithful os (some built)) e faithful)
        | inr ((loaded, libs'), e) ↦
            let (same, ok') = subst (Faithful os (some built)) e faithful in
            (loaded, libs', e, ok', fresh ∙ ap some (sym same), λ u is. named u (sym same ∙ is))
      ]
