-- ===== src/Midi/Handler/Leds.antt =====
-- `add_led` (framework/midi/midi_handler.cpp) and the LED states that are found after it.
use Prim.Native.String.{String}
use text.Mathlib.Text.{◌==◌ as str_eq}
use strange_io.Common.{
  ℕ, ◌≡◌, refl, sym, inl, inr, false, Option, none, some, List, [], ◌∷◌, arith, if◌then◌else◌,
  Bool-cases, ◌&&◌, Option-cases,
}
use strange_io.Common.Int.{ℤ, pos, ◌==ℤ◌, ==ℤ_iff}
use strange_io.Common.Text.{str_eq_refl, of_str_eq}
use strange_io.Midi.Device.{find_code}
use strange_io.Midi.Handler.{
  Led, LedMode, LedStates, Handler, find_unit, insert_state, put_states, add_led, find_led,
}

-- What is there stays.
abbrev pub first_of : Option Led → Led → Led
first_of none led = led
first_of (some old) led = old

find_code-insert_state :
    (state : ℤ) (led : Led) (ss : LedStates)
    → find_code state (insert_state state led ss) ≡ some (first_of (find_code state ss) led)
unfolding insert_state find_code
find_code-insert_state state led ss = elim (Option-cases (find_code state ss)) [
  | inl e ↦ let self = (==ℤ_iff state state).1 refl in cc
  | inr (old, e) ↦ cc
]

find_code-insert_other :
    (state other : ℤ) (led : Led) (ss : LedStates)
    → (state ==ℤ other) ≡ false
    → find_code other (insert_state state led ss) ≡ find_code other ss
unfolding insert_state find_code
find_code-insert_other state other led ss ne = elim (Option-cases (find_code state ss)) [
  | inl e ↦ cc
  | inr (old, e) ↦ cc
]

find_unit-put_states :
    (unit : String) (new old : LedStates) (us : List (String × LedStates))
    → find_unit unit us ≡ some old
    → find_unit unit (put_states unit new us) ≡ some new
unfolding find_unit put_states
find_unit-put_states unit new old [] e = cc
find_unit-put_states unit new old ((k, s) ∷ us) e = elim (Bool-cases (str_eq k unit)) [
  | inl same ↦ rw same (rw same)
  | inr other ↦ rw other (rw other (find_unit-put_states unit new old us (rw other at e)))
]

find_unit-put_other :
    (unit other : String) (new : LedStates) (us : List (String × LedStates))
    → str_eq unit other ≡ false
    → find_unit other (put_states unit new us) ≡ find_unit other us
unfolding find_unit put_states
find_unit-put_other unit other new [] ne = refl
find_unit-put_other unit other new ((k, s) ∷ us) ne = elim (Bool-cases (str_eq k unit)) [
  | inl same ↦ rw (same, of_str_eq k unit same, ne)
  | inr differ ↦ rw (differ, find_unit-put_other unit other new us ne)
]

module _ {C : Type 0} (unit : String) (state : ℕ) (device : String) (code : ℤ) (value : ℕ)
    (mode : LedMode) (h : Handler C) where
  abbrev led : Led
  led = record { device = device; mode = mode; code = code; value = value }

  abbrev added : Handler C
  added = add_led unit (pos state) device code value mode h

  find_led-add_self : find_led unit state added ≡ some (first_of (find_led unit state h) led)
  unfolding find_led add_led find_unit find_code
  find_led-add_self = elim (Option-cases (find_unit unit h.leds)) [
    | inl e ↦
        let here = str_eq_refl unit in let self = (==ℤ_iff (pos state) (pos state)).1 refl in cc
    | inr (states, e) ↦
        let put = find_unit-put_states unit (insert_state (pos state) led states) states h.leds e in
        let ins = find_code-insert_state (pos state) led states in cc
  ]

  find_led-add_state :
      (s : ℕ) → (pos state ==ℤ pos s) ≡ false → find_led unit s added ≡ find_led unit s h
  unfolding find_led add_led find_unit find_code
  find_led-add_state s ne = elim (Option-cases (find_unit unit h.leds)) [
    | inl e ↦ let here = str_eq_refl unit in cc
    | inr (states, e) ↦
        let put = find_unit-put_states unit (insert_state (pos state) led states) states h.leds e in
        let ins = find_code-insert_other (pos state) (pos s) led states ne in cc
  ]

  find_led-add_unit :
      (other : String) (s : ℕ)
      → str_eq unit other ≡ false
      → find_led other s added ≡ find_led other s h
  unfolding find_led add_led find_unit
  find_led-add_unit other s ne = elim (Option-cases (find_unit unit h.leds)) [
    | inl e ↦ cc
    | inr (states, e) ↦
        let put = find_unit-put_other unit other (insert_state (pos state) led states) h.leds ne in
        cc
  ]

  -- After a LED state is added, the LED of its unit and state is the one that was there before, or
  -- the new one where there was none; every other unit and state has the LED it had.
  pub find_led-add_led :
      (other : String) (s : ℕ)
      → find_led other s added ≡ (
          if str_eq unit other && (pos state ==ℤ pos s)
          then some (first_of (find_led unit state h) led)
          else find_led other s h)
  find_led-add_led other s = elim (Bool-cases (str_eq unit other)) [
    | inr ne ↦ rw (ne, find_led-add_unit other s ne)
    | inl same ↦ elim (Bool-cases (pos state ==ℤ pos s)) [
      | inr ne ↦ rw (same, ne, sym (of_str_eq unit other same), find_led-add_state s ne)
      | inl e ↦
          let same_state : state ≡ s = ground arith in
          let self = find_led-add_self in let same_unit = of_str_eq unit other same in cc
    ]
  ]
