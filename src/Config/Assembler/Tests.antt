-- ===== src/Config/Assembler/Tests.antt =====
-- A description with one unit and one link from the rack, and a system with one library.
use Prim.Native.String.{String, ◌++◌ as append}
use text.Mathlib.Text.{◌==◌ as str_eq}
use strange_io.Common.{
  ℕ, ◌≡◌, refl, subst, false, Option, none, some, [], ◌∷◌, if◌then◌else◌, Bool-cases, inl, inr,
  some_inj,
}
use strange_io.Common.Int.{ℤ, pos}
use strange_io.Component.Registrable.{Ctype, new_registry}
use strange_io.Component.Fixtures.{unit_of}
use strange_io.Component.Profile.{no_flags, step}
use strange_io.Component.Mount.{new_mount, lookup}
use strange_io.Component.Loader.{Loaded, Dynlib, build_unit}
use strange_io.Midi.Handler.{new_handler}
use strange_io.Config.Description.{Description, UnitDesc}
use strange_io.Config.Document.{knows_unit}
use strange_io.Config.Assembler.{Assembly, sched_other, assemble}
use strange_io.Config.Assembler.Loading.{Named, Loads, Builds, Configures}
use strange_io.Config.Assembler.Ready.{AllChecked}
use strange_io.Config.Assembler.Mounted.{assemble-AllChecked}

abbrev deck : UnitDesc
deck = record {
  label = "deck";
  unit = "Deck";
  library = "deck.so";
  configs = [];
  bindings = [];
  leds = [];
}

abbrev one_unit : Description
one_unit = record {
  system = record {
    threads = record { num_workers = pos 2 };
    linux_sys = record { policy = ""; priority = pos 0; affinity = pos 0 };
  };
  controllers = record { label = "pads"; port = "hw:0"; led_on = 144; led_off = 128 } ∷ [];
  setup = record {
    mainlines = "one" ∷ [];
    daisychains = record { from = "rack"; plug = "one"; to = "deck"; jack = "power" } ∷ [];
    units = deck ∷ [];
  };
}

abbrev build_deck : String → Option (Loaded ℤ ℕ)
build_deck label = some (record {
  registrable = record {
    model = "Deck";
    label = label;
    type = Ctype.unit;
    component_id = 0;
    handle = record { id = 0; type = Ctype.unspec; model = ""; label = "" };
  };
  node = unit_of step [] 20;
  exports = record { handlers = []; leds = ("play", pos 1) ∷ [] };
})

abbrev one_library : Dynlib ℕ ℤ ℕ
one_library = record {
  readable = λ path. str_eq path "deck.so";
  dlopen = λ path. some 0;
  dlsym = λ lib symbol. if str_eq symbol "BuildDeck" then some build_deck else none;
}

one_library_loads : Loads one_library
one_library_loads path readable = (0, refl)

one_library_builds : Builds one_library
unfolding build_unit
one_library_builds model label lib u e =
    elim (Bool-cases (str_eq (append "Build" model) "BuildDeck")) [
      | inr other ↦ absurd (no_unit (rw other at e))
      | inl same ↦ subst (Named label) (some_inj (rw same at e)) (refl, (refl, tt, refl, tt))
    ]
  where
    no_unit : none ≡ some u → ⊥
    no_unit h = cc

abbrev set_nothing : String → String → Loaded ℤ ℕ → Loaded ℤ ℕ
set_nothing key value u = u

no_configuration : Configures set_nothing
no_configuration key value label u named = named

abbrev empty_rack : Assembly ℕ ℤ ℕ
empty_rack = record {
  mount = new_mount;
  world = record { nodes = []; resync = false; resync_flags = no_flags; cycle_queue = 0 };
  midi = new_handler;
  registry = new_registry;
  queue_size = some (pos 2);
  schpolicy = record { policy = sched_other; priority = pos 0; cpu_affinity = pos 0 };
  factory = some [];
}

assemble-AllChecked_example :
    (sys' : Assembly ℕ ℤ ℕ) × (assemble one_library set_nothing 0 one_unit empty_rack ≡ some sys')
    × AllChecked one_library (deck ∷ []) one_unit.setup.daisychains sys'
unfolding knows_unit lookup
assemble-AllChecked_example =
    assemble-AllChecked one_library set_nothing 0 one_library_loads one_library_builds
      no_configuration one_unit empty_rack (refl, tt)
      ((tt, λ label u found. cc), [], refl, λ path lib found. cc)
