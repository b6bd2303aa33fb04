-- ===== src/Component/Fixtures.antt =====
-- Data for tests of framework/component: floats as integers, hooks that do nothing, small units.
use strange_io.Common.{ℕ, true, false, some, List, [], ◌∷◌, length, if◌then◌else◌}
use strange_io.Common.Int.{ℤ, pos, ◌+ℤ◌, ◌-ℤ◌, ◌*ℤ◌, ltb_ℤ, ◌==ℤ◌}
use strange_io.Component.Linkable.{LinkOut}
use strange_io.Component.Profile.{FloatOps, UnitType, active, complete, SyncProfile, zero_profile}
use strange_io.Component.Unit.{returned, Node, Hooks}

-- Floats by hundredths.
abbrev pub ints : FloatOps ℤ
ints = record {
  zero = pos 0;
  add = λ a b. a +ℤ b;
  mul = λ a b. a *ℤ b;
  negate = λ a. pos 0 -ℤ a;
  nonzero = λ a. if a ==ℤ pos 0 then false else true;
  positive = λ a. ltb_ℤ (pos 0) a;
  negative = λ a. ltb_ℤ a (pos 0);
  percent = λ a. a;
  of_int = λ a. a;
  to_int = λ a. a;
}

abbrev pub quiet : Hooks ℤ
quiet = record {
  cycle = λ u w. (returned complete, w);
  init = λ u w. (complete, w);
  resync = λ u f p w. w;
}

abbrev pub delayed : ℕ → SyncProfile ℤ
delayed ms = record (zero_profile ints) { latency = pos ms }

abbrev pub out_to : ℕ → LinkOut
out_to u = record { label = "out"; id = 0; to = some (u, 0); connected = true }

abbrev pub unit_of : UnitType → List LinkOut → ℕ → Node ℤ
unit_of t outs ms = record {
  utype = t;
  ports = record { inputs = []; num_inputs = 0; outputs = outs; num_outputs = length outs };
  unit_profile = delayed ms;
  upstream = false;
  cstate = active;
  has_rack = true;
  line_profile = delayed 0;
  global_profile = delayed 0;
  input_state = false ∷ true ∷ [];
}
