-- ===== src/Component/Loader/Cached.antt =====
-- `unit_loader::load` (framework/component/unit_loader.cpp) against loading without open libraries.
use Prim.Native.String.{String}
use text.Mathlib.Text.{◌==◌ as str_eq}
use strange_io.Common.{
  ◌≡◌, refl, sym, ap, ◌∙◌, Bool-cases, Option-cases, inl, inr, Option, none, some, ◌∷◌, ◌>>=◌,
  some_inj,
}
use strange_io.Common.Text.{of_str_eq}
use strange_io.Component.Mount.{lookup}
use strange_io.Component.Loader.{Loaded, Dynlib, UnitLoader, load_library, build_unit, load_unit}

module _ {L F C : Type 0} (os : Dynlib L F C) where
  -- The libraries that are open are those that the system gives for their paths.
  abbrev pub Opened : UnitLoader L → Type 0
  Opened libs =
      (path : String) (lib : L)
      → lookup path libs ≡ some lib
      → load_library os path ≡ some (some lib)

  -- What the system gives for a unit, its library being opened for it.
  abbrev pub fresh_unit : String → String → String → Option (Option (Loaded F C))
  fresh_unit model label target = do
    opened ← load_library os target
    some (opened >>= build_unit os model label)

  Opened-cons :
      (path : String) (lib : L) (libs : UnitLoader L)
      → load_library os path ≡ some (some lib)
      → Opened libs
      → Opened ((path, lib) ∷ libs)
  unfolding lookup
  Opened-cons path lib libs e ok p l found = elim (Bool-cases (str_eq path p)) [
    | inl same ↦
        ap (load_library os) (sym (of_str_eq path p same))
        ∙ e
        ∙ ap (λ x. some (some x)) (some_inj (rw same at found))
    | inr other ↦ ok p l (rw other at found)
  ]

  -- What a loader gives where its open libraries are the system's.
  abbrev pub Faithful :
      Option (Option (Loaded F C)) → Option (Option (Loaded F C) × UnitLoader L) → Type 0
  Faithful none none = Unit {0}
  Faithful none (some r) = ⊥
  Faithful (some u) none = ⊥
  Faithful (some u) (some (v, libs)) = (v ≡ u) × Opened libs

  by_eq :
      (model label target : String) (libs : UnitLoader L) (u' : Option (Option (Loaded F C)))
      (r' : Option (Option (Loaded F C) × UnitLoader L))
      → fresh_unit model label target ≡ u'
      → load_unit os model label target libs ≡ r'
      → Faithful u' r'
      → Faithful (fresh_unit model label target) (load_unit os model label target libs)
  by_eq model label target libs u' r' p q ok = rw (p, q) ok

  -- A loader whose open libraries are the system's gives the unit that the system gives for a
  -- model, a label and a path, whether the library is open already or not, and ends the program in
  -- the same cases; its libraries stay the system's.
  pub load_unit-Faithful :
      (model label target : String) (libs : UnitLoader L)
      → Opened libs
      → Faithful (fresh_unit model label target) (load_unit os model label target libs)
  unfolding load_unit
  load_unit-Faithful model label target libs ok = elim (Option-cases (lookup target libs)) [
    | inr (lib, e) ↦
        let opened = ok target lib e in
        let u = build_unit os model label lib in
        by_eq model label target libs (some u) (some (u, libs)) (rw opened refl) (cc) (refl, ok)
    | inl e ↦ elim (Option-cases (load_library os target)) [
      | inl fails ↦ by_eq model label target libs none none (rw fails refl) (cc) tt
      | inr (opened, gives) ↦ elim (Option-cases opened) [
        | inl missing ↦
            by_eq model label target libs (some none) (some (none, libs)) (rw (gives, missing) refl)
              (cc) (refl, ok)
        | inr (lib, there) ↦
            let u = build_unit os model label lib in
            by_eq model label target libs (some u) (some (u, (target, lib) ∷ libs))
              (rw (gives, there) refl) (cc)
              (refl, Opened-cons target lib libs (rw there at gives) ok)
      ]
    ]
  ]
