-- ===== src/Component/Loader.antt =====
-- `unit_loader` (framework/component/unit_loader.cpp) and `library`
-- (framework/include/framework/dynlib/linux_library.hpp): units built by shared libraries, each of
-- which is opened once. `none` ends the program.
pub mod Cached
use Prim.Native.String.{String, ◌++◌ as append}
use strange_io.Common.{Bool, not, Option, none, some, List, [], ◌∷◌, if◌then◌else◌, ◌>>=◌}
use strange_io.Component.Registrable.{Registrable}
use strange_io.Component.Unit.{Node}
use strange_io.Component.Exports.{Exports}
use strange_io.Component.Mount.{lookup}

-- A unit before it is mounted.
pub record Loaded (F C : Type 0) : Type 0 where
  pub registrable : Registrable
  pub node : Node F
  pub exports : Exports C

abbrev pub ulabel : {F C : Type 0} → Loaded F C → String
ulabel u = u.registrable.label

-- The operating system: whether a file can be read, `dlopen`, and `dlsym` of a builder of units,
-- which may give a null pointer. `L` is the type of handles.
pub record Dynlib (L F C : Type 0) : Type 0 where
  pub readable : String → Bool
  pub dlopen : String → Option L
  pub dlsym : L → String → Option (String → Option (Loaded F C))

abbrev pub UnitLoader : Type 0 → Type 0
UnitLoader L = List (String × L)

module _ {L F C : Type 0} (os : Dynlib L F C) where
  -- `library::load`. Where `dlopen` fails the constructor has a `throw` without an exception.
  unfoldable pub load_library : String → Option (Option L)
  load_library path =
      if not (os.readable path) then some none else do lib ← os.dlopen path; some (some lib)

  -- `load_symbol` of "Build" and the model, and the call of it.
  unfoldable pub build_unit : String → String → L → Option (Loaded F C)
  build_unit model label lib = do loader ← os.dlsym lib (append "Build" model); loader label

  -- `unit_loader::load`: the unit, if any, and the libraries that are open.
  unfoldable pub load_unit :
      String → String → String → UnitLoader L → Option (Option (Loaded F C) × UnitLoader L)
  unfolding load_library lookup build_unit
  load_unit model label target libs = elim (lookup target libs) [
    | some lib ↦ some (build_unit model label lib, libs)
    | none ↦ do
      opened ← load_library target
      elim opened [
        | none ↦ some (none, libs)
        | some lib ↦ some (build_unit model label lib, (target, lib) ∷ libs)
      ]
  ]
