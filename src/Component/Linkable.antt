-- ===== src/Component/Linkable.antt =====
-- `linkable` of framework/component/linkable.cpp: the inputs and outputs of a unit. A pointer to an
-- input is the position of its unit among all units, and the input's position.
-- An `int` id is its unsigned value, as `(unsigned int) id` takes it.
pub mod Routes
pub mod Valid
mod Tests
use Prim.Native.String.{String}
use text.Mathlib.Text.{◌==◌ as str_eq}
use strange_io.Common.{
  ℕ, ◌+◌, ◌%◌, Bool, true, false, not, Option, none, some, List, [], ◌∷◌, ◌++◌, ltb, leb,
  if◌then◌else◌, get_elem?, set, ◌>>=◌, u32_mod,
}

pub record LinkIn : Type 0 where
  pub label : String
  pub id : ℕ
  pub connected : Bool

pub record LinkOut : Type 0 where
  pub label : String
  pub id : ℕ
  pub to : Option (ℕ × ℕ)
  pub connected : Bool

pub record Ports : Type 0 where
  pub inputs : List LinkIn
  pub num_inputs : ℕ
  pub outputs : List LinkOut
  pub num_outputs : ℕ

abbrev pub no_ports : Ports
no_ports = record { inputs = []; num_inputs = 0; outputs = []; num_outputs = 0 }

unfoldable pub add_output : String → Ports → Ports
add_output label p = record p {
  outputs =
      p.outputs ++ record { label = label; id = p.num_outputs; to = none; connected = false } ∷ [];
  num_outputs = (p.num_outputs + 1) % u32_mod;
}

-- The initialiser leaves `connected` out, so it starts as false.
unfoldable pub add_input : String → Ports → Ports
add_input label p = record p {
  inputs = p.inputs ++ record { label = label; id = p.num_inputs; connected = false } ∷ [];
  num_inputs = (p.num_inputs + 1) % u32_mod;
}

-- `none` is the -1 of the source.
unfoldable pub find_input : String → List LinkIn → Option ℕ
find_input label [] = none
find_input label (i ∷ is) =
    let rest = find_input label is in if str_eq i.label label then some i.id else rest

unfoldable pub find_output : String → List LinkOut → Option ℕ
find_output label [] = none
find_output label (o ∷ os) =
    let rest = find_output label os in if str_eq o.label label then some o.id else rest

unfoldable pub has_input : String → Ports → Option ℕ
unfolding find_input
has_input label p = find_input label p.inputs

unfoldable pub has_output : String → Ports → Option ℕ
unfolding find_output
has_output label p = find_output label p.outputs

unfoldable pub get_input : ℕ → Ports → Option LinkIn
get_input id p = if leb p.num_inputs id then none else get_elem? p.inputs id

unfoldable pub get_output : ℕ → Ports → Option LinkOut
get_output id p = if leb p.num_outputs id then none else get_elem? p.outputs id

-- A mounted unit's ports, by the unit's position; `none` is a dangling pointer.
abbrev pub Links : Type 0
Links = List Ports

unfoldable pub mark_input : Bool → ℕ × ℕ → Links → Option Links
mark_input connected (unit, input) links = do
  p ← get_elem? links unit
  i ← get_elem? p.inputs input
  some (
      set links unit
        (record p { inputs = set p.inputs input (record i { connected = connected }) }))

unfoldable pub set_output : ℕ → ℕ → Option (ℕ × ℕ) → Bool → Links → Option Links
set_output unit id to connected links = do
  p ← get_elem? links unit
  o ← get_elem? p.outputs id
  some (
      set links unit
        (record p { outputs = set p.outputs id (record o { to = to; connected = connected }) }))

-- `connect` of the unit at `unit`; the pointer `input` may be null.
unfoldable pub connect : ℕ → ℕ → Option (ℕ × ℕ) → Links → Option (Bool × Links)
unfolding set_output mark_input
connect unit id none links = some (false, links)
connect unit id (some input) links = do
  p ← get_elem? links unit
  if leb p.num_outputs id then some (false, links) else do
    linked ← set_output unit id (some input) true links
    marked ← mark_input true input linked
    some (true, marked)

-- `disconnect`, which compares the id of an output with the number of inputs.
unfoldable pub disconnect : ℕ → ℕ → Links → Option Links
unfolding set_output mark_input
disconnect unit id links = do
  p ← get_elem? links unit
  if leb p.num_inputs id then some links else do
    o ← get_elem? p.outputs id
    input ← o.to
    marked ← mark_input false input links
    set_output unit id none false marked

-- `input_connected` and `output_conncted`, whose tests let an id equal to the number through.
unfoldable pub input_connected : ℕ → Ports → Option Bool
input_connected id p =
    if ltb p.num_inputs id then some false else do i ← get_elem? p.inputs id; some i.connected

unfoldable pub output_conncted : ℕ → Ports → Option Bool
output_conncted id p =
    if ltb p.num_outputs id then some false else do o ← get_elem? p.outputs id; some o.connected

-- Where `feed_out` and `fill_out` send samples: nowhere (`some none`), or to an input.
unfoldable pub route_out : ℕ → Ports → Option (Option (ℕ × ℕ))
route_out id p = if leb p.num_outputs id then some none else do
  o ← get_elem? p.outputs id
  if not o.connected then some none else do input ← o.to; some (some input)
