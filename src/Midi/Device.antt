-- ===== src/Midi/Device.antt =====
-- `device` of framework/midi/device.cpp. Ports belong to the driver: only whether they are open is
-- kept, and what has been written. `C` is the type of callbacks; a `uint8_t` is below 256.
pub mod Rounds
use Prim.Native.String.{String}
use strange_io.Common.{
  ℕ, zero, suc, Bool, true, false, not, Option, none, some, List, [], ◌∷◌, ◌++◌, ◌==◌,
  if◌then◌else◌,
}
use strange_io.Common.Int.{ℤ, pos, ◌==ℤ◌}

-- `msg` of midi.hpp
pub record Msg : Type 0 where
  pub f : ℕ
  pub n : ℕ
  pub v : ℕ

pub record Device (C : Type 0) : Type 0 where
  pub port_name : String
  pub alias : String
  pub has_input : Bool
  pub has_output : Bool
  pub led_on : ℕ
  pub led_off : ℕ
  pub bindings : List (ℤ × C)
  pub written : List Msg

-- `open_input_port` and `open_output_port` of the driver: whether the port opens, by the alias and
-- the port.
pub record Driver : Type 0 where
  pub opens_input : String → String → Bool
  pub opens_output : String → String → Bool

-- `find` of a map with `int` keys.
unfoldable pub find_code : {C : Type 0} → ℤ → List (ℤ × C) → Option C
find_code code [] = none
find_code code ((k, c) ∷ rest) =
    let found = find_code code rest in if k ==ℤ code then some c else found

pub record Round : Type 0 where
  pub running : Bool
  pub code : Msg
  pub running_after : Bool

module _ {C : Type 0} where
  unfoldable pub new_device : String → String → Device C
  new_device port alias = record {
    port_name = port;
    alias = alias;
    has_input = false;
    has_output = false;
    led_on = 0;
    led_off = 0;
    bindings = [];
    written = [];
  }

  -- `init`: the answer, and the device.
  unfoldable pub init_device : Driver → Device C → Bool × Device C
  init_device driver d =
      if not (driver.opens_input d.alias d.port_name)
      then (false, d)
      else let opened = record d { has_input = true } in
        if not (driver.opens_output d.alias d.port_name)
        then (true, opened)
        else (true, record opened { has_output = true })

  -- `insert` of a map leaves a key that is there alone. The `double` is given as an `int`.
  unfoldable pub add_binding : ℤ → C → Device C → Device C
  unfolding find_code
  add_binding code func d = elim (find_code code d.bindings) [
    | some bound ↦ d
    | none ↦ record d { bindings = d.bindings ++ (code, func) ∷ [] }
  ]

  unfoldable pub write_msg : Msg → Device C → Device C
  write_msg m d = if not d.has_output then d else record d { written = d.written ++ m ∷ [] }

  unfoldable pub set_led_on : ℕ → Device C → Device C
  set_led_on val d = record d { led_on = val }

  unfoldable pub set_led_off : ℕ → Device C → Device C
  set_led_off val d = record d { led_off = val }

  -- The call that a message makes, if its code is bound.
  unfoldable pub call_bound : Device C → Msg → List (C × Msg) → List (C × Msg)
  unfolding find_code
  call_bound d code calls = elim (find_code (pos code.n) d.bindings) [
    | none ↦ calls
    | some func ↦ (func, code) ∷ calls
  ]

  -- The loop of `cycle`. A round is what `flush` gives, and whether `m_running` still holds when
  -- the round begins and after `flush`. The answer is the calls made, in order.
  unfoldable pub cycle_device : Device C → List Round → List (C × Msg)
  unfolding call_bound
  cycle_device d [] = []
  cycle_device d (r ∷ rounds) =
      let rest = cycle_device d rounds in
      if not r.running
      then []
      else if not r.running_after
      then []
      else if r.code.f == 0
      then []
      else call_bound d r.code rest
