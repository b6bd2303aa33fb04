-- ===== src/Config/Assembler/Mounted.antt =====
-- `assemble` (framework/config/assembler.cpp): the units that are mounted for the links of a
-- description.
use Prim.Native.String.{String}
use text.Mathlib.Text.{◌==◌ as str_eq}
use strange_io.Common.{
  ℕ, ◌≡◌, refl, sym, subst, ◌∙◌, inl, inr, Bool, true, false, some, List, [], ◌∷◌, Bool-cases,
  Option-cases,
}
use strange_io.Component.Unit.{World}
use strange_io.Component.Loader.{Loaded, Dynlib}
use strange_io.Component.Mount.{Mount, add_mainline, lookup, connect_mainline, connect_units}
use strange_io.Component.Mount.Valid.{Sound, connect_units-Sound}
use strange_io.Config.Description.{ChainLink, UnitDesc, Description}
use strange_io.Config.Document.{knows_unit}
use strange_io.Config.Assembler.{
  Assembly, size_queue, assemble, assemble_mainlines, assemble_devices, assemble_schpolicy,
  check_unit, assemble_link, assemble_daisychains,
}
use strange_io.Config.Assembler.Devices.{assemble_devices-total}
use strange_io.Midi.Handler.{Handler}
use strange_io.Common.Int.{ℤ}
use strange_io.Config.Assembler.Loading.{Configures, Loads, Builds}
use strange_io.Config.Assembler.Ready.{
  Ready, Keeps, AllChecked, AllKnown, Checked-same, AllChecked-same, Checked-Keeps, has_unit_by,
  connect_mainline-mounted, Steps, check_unit-Steps,
}

module _ {L F C : Type 0} (os : Dynlib L F C)
    (set_configuration : String → String → Loaded F C → Loaded F C) (stray : ℕ) (loads : Loads os)
    (builds : Builds os) (configures : Configures set_configuration) where
  link_rack :
      (units : List UnitDesc) (link : ChainLink) (sys sys₁ : Assembly L F C)
      → check_unit os set_configuration stray units link.to sys ≡ some sys₁
      → str_eq link.from "rack" ≡ true
      → assemble_link os set_configuration stray units link sys
        ≡ some (record sys₁ { mount = (connect_mainline link.plug link.to sys₁.mount).1 })
  unfolding assemble_link
  link_rack units link sys sys₁ checks rack = rw (checks, rack) refl

  link_units :
      (units : List UnitDesc) (link : ChainLink) (sys sys₁ : Assembly L F C) (linked : Bool)
      (world : World F)
      → check_unit os set_configuration stray units link.to sys ≡ some sys₁
      → str_eq link.from "rack" ≡ false
      → connect_units link.from link.plug link.to link.jack sys₁.mount sys₁.world
        ≡ some (linked, world)
      → assemble_link os set_configuration stray units link sys
        ≡ some (record sys₁ { world = world })
  unfolding assemble_link
  link_units units link sys sys₁ linked world checks other connects =
      rw (checks, other, connects) refl

  assemble_link-Steps :
      (units : List UnitDesc) (link : ChainLink) (sys : Assembly L F C)
      → knows_unit link.to units ≡ true
      → Ready os sys
      → Steps os set_configuration stray loads builds configures units link.to sys
          (assemble_link os set_configuration stray units link sys)
  assemble_link-Steps units link sys known ready =
      let (sys₁, checks, (sound, libs, factory, ok), keeps, checked) =
        check_unit-Steps os set_configuration stray loads builds configures units link.to sys known
          ready in
      elim (Bool-cases (str_eq link.from "rack")) [
        | inl rack ↦
            let mount = (connect_mainline link.plug link.to sys₁.mount).1 in
            let same = connect_mainline-mounted link.plug link.to sys₁.mount in
            let after : Assembly L F C = record sys₁ { mount = mount } in
            (
              after,
              link_rack units link sys sys₁ checks rack,
              (subst (λ ms. Sound ms sys₁.world) (sym same) sound, libs, factory, ok),
              λ l h. has_unit_by l sys₁.mount mount same (keeps l h),
              Checked-same os units link.to sys₁ after same checked,
            )
        | inr other ↦
            let (linked, world, connects, sound') =
              connect_units-Sound link.from link.plug link.to link.jack sys₁.mount sys₁.world
                sound in
            (
              record sys₁ { world = world },
              link_units units link sys sys₁ linked world checks other connects,
              (sound', libs, factory, ok),
              keeps,
              checked,
            )
      ]

  daisychains_cons :
      (units : List UnitDesc) (l : ChainLink) (ls : List ChainLink) (sys sys₁ sys₂ : Assembly L F C)
      → assemble_link os set_configuration stray units l sys ≡ some sys₁
      → assemble_daisychains os set_configuration stray units ls sys₁ ≡ some sys₂
      → assemble_daisychains os set_configuration stray units (l ∷ ls) sys ≡ some sys₂
  unfolding assemble_daisychains
  daisychains_cons units l ls sys sys₁ sys₂ links rest = rw links rest

  assemble_daisychains-AllChecked :
      (units : List UnitDesc) (ls : List ChainLink) (sys : Assembly L F C)
      → AllKnown units ls
      → Ready os sys
      → (sys' : Assembly L F C) × (assemble_daisychains os set_configuration stray units ls sys
          ≡ some sys')
        × Keeps os sys sys'
        × AllChecked os units ls sys'
  unfolding assemble_daisychains
  assemble_daisychains-AllChecked units [] sys known ready = (sys, refl, λ l h. h, tt)
  assemble_daisychains-AllChecked units (l ∷ ls) sys (here, later) ready =
      let (sys₁, links, ready₁, keeps₁, checked) = assemble_link-Steps units l sys here ready in
      let (sys₂, rest, keeps₂, all) = assemble_daisychains-AllChecked units ls sys₁ later ready₁ in
      (
        sys₂,
        daisychains_cons units l ls sys sys₁ sys₂ links rest,
        λ label h. keeps₂ label (keeps₁ label h),
        (Checked-Keeps os units l.to sys₁ sys₂ keeps₂ checked, all),
      )

-- The part of a set-up that mounting looks at.
abbrev Alike : {L F C : Type 0} → Assembly L F C → Assembly L F C → Type 0
Alike sys sys' =
    (sys'.mount.mounted ≡ sys.mount.mounted)
    × (sys'.world ≡ sys.world)
    × (sys'.factory ≡ sys.factory)

add_mainline-mounted : (name : String) (m : Mount) → (add_mainline name m).mounted ≡ m.mounted
unfolding add_mainline
add_mainline-mounted name m = elim (Option-cases (lookup name m.mainlines)) [
  | inl e ↦ cc
  | inr (line, e) ↦ cc
]

module _ {L F C : Type 0} where
  assemble_mainlines-Alike :
      (names : List String) (sys : Assembly L F C) → Alike sys (assemble_mainlines names sys)
  unfolding assemble_mainlines
  assemble_mainlines-Alike [] sys = (refl, refl, refl)
  assemble_mainlines-Alike (name ∷ names) sys =
      let next : Assembly L F C = record sys { mount = add_mainline name sys.mount } in
      let (mounted, world, factory) = assemble_mainlines-Alike names next in
      (mounted ∙ add_mainline-mounted name sys.mount, world, factory)

  size_queue-Alike : (n : ℤ) (sys : Assembly L F C) → Alike sys (size_queue n sys)
  unfolding size_queue
  size_queue-Alike n sys = elim (Option-cases sys.queue_size) [
    | inl e ↦ ((cc), (cc), (cc))
    | inr (size, e) ↦ ((cc), (cc), (cc))
  ]

  Ready-Alike :
      (os : Dynlib L F C) (sys sys' : Assembly L F C)
      → Alike sys sys'
      → Ready os sys
      → Ready os sys'
  Ready-Alike os sys sys' (mounted, world, factory) (sound, libs, has, ok) = (
    subst (λ ms. Sound ms sys'.world) (sym mounted)
        (subst (Sound sys.mount.mounted) (sym world) sound),
    libs,
    factory ∙ has,
    ok,
  )

module _ {L F C : Type 0} (os : Dynlib L F C)
    (set_configuration : String → String → Loaded F C → Loaded F C) (stray : ℕ) (loads : Loads os)
    (builds : Builds os) (configures : Configures set_configuration) where
  assemble_found :
      (desc : Description) (sys sys₁ sys₃ : Assembly L F C) (midi : Handler C)
      → assemble_mainlines desc.setup.mainlines (size_queue desc.system.threads.num_workers sys)
        ≡ sys₁
      → assemble_devices desc.controllers sys₁.midi ≡ some midi
      → assemble_daisychains os set_configuration stray desc.setup.units desc.setup.daisychains
          (record sys₁ { midi = midi })
        ≡ some sys₃
      → assemble os set_configuration stray desc sys ≡ some (assemble_schpolicy desc sys₃)
  unfolding assemble
  assemble_found desc sys sys₁ sys₃ midi e f g = rw (e, f, g) refl

  -- A description whose links all lead to described units is assembled to the end, and every link's
  -- unit is mounted afterwards unless the system has no builder for it or no such library; where
  -- the set-up is sound, readable files are libraries, builders give units of the label that they
  -- are asked for with the ports that they added, and configuration leaves these.
  pub assemble-AllChecked :
      (desc : Description) (sys : Assembly L F C)
      → AllKnown desc.setup.units desc.setup.daisychains
      → Ready os sys
      → (sys' : Assembly L F C) × (assemble os set_configuration stray desc sys ≡ some sys')
        × AllChecked os desc.setup.units desc.setup.daisychains sys'
  unfolding assemble_schpolicy
  assemble-AllChecked desc sys known ready =
      let sized = size_queue desc.system.threads.num_workers sys in
      let sys₁ = assemble_mainlines desc.setup.mainlines sized in
      let ready₁ =
        Ready-Alike os sized sys₁ (assemble_mainlines-Alike desc.setup.mainlines sized)
          (Ready-Alike os sys sized (size_queue-Alike desc.system.threads.num_workers sys) ready) in
      let (midi, devices) = assemble_devices-total desc.controllers sys₁.midi in
      let sys₂ : Assembly L F C = record sys₁ { midi = midi } in
      let (sys₃, chains, keeps, all) =
        assemble_daisychains-AllChecked os set_configuration stray loads builds configures
          desc.setup.units desc.setup.daisychains sys₂ known ready₁ in
      (
        assemble_schpolicy desc sys₃,
        assemble_found desc sys sys₁ sys₃ midi refl devices chains,
        AllChecked-same os desc.setup.units desc.setup.daisychains sys₃
            (assemble_schpolicy desc sys₃) refl all,
      )
