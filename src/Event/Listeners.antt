-- ===== src/Event/Listeners.antt =====
-- The listeners of `loop` (framework/events/loop.cpp), and `event_utility`
-- (framework/events/event_utility.cpp). `C` is the type of callbacks; an event type is a `short`.
use strange_io.Common.{ℕ, Option, none, some, List, [], ◌∷◌, ◌++◌, if◌then◌else◌, length}
use strange_io.Common.Int.{ℤ, ◌==ℤ◌}

abbrev pub ListenerMap : Type 0 → Type 0
ListenerMap C = List (ℤ × List C)

module _ {C : Type 0} where
  unfoldable pub find_type : ℤ → ListenerMap C → Option (List C)
  find_type type [] = none
  find_type type ((k, callbacks) ∷ rest) =
      let found = find_type type rest in if k ==ℤ type then some callbacks else found

  -- `it->second.push_back(callback)`
  unfoldable pub push_callback : ℤ → C → ListenerMap C → ListenerMap C
  push_callback type callback [] = []
  push_callback type callback ((k, callbacks) ∷ rest) =
      let rest' = push_callback type callback rest in
      if k ==ℤ type then (k, callbacks ++ callback ∷ []) ∷ rest else (k, callbacks) ∷ rest'

  unfoldable pub add_listener : ℤ → C → ListenerMap C → ListenerMap C
  unfolding find_type push_callback
  add_listener type callback m =
      push_callback type callback
        (elim (find_type type m) [ none ↦ (type, []) ∷ m | some callbacks ↦ m ])

  unfoldable pub listeners : ℤ → ListenerMap C → ℕ
  unfolding find_type
  listeners type m = elim (find_type type m) [ none ↦ 0 | some callbacks ↦ length callbacks ]

  -- `size`: the number of types.
  unfoldable pub loop_size : ListenerMap C → ℕ
  loop_size m = length m

  -- `event_utility::add_listener`, where the loop may be a null pointer.
  unfoldable pub utility_add_listener : ℤ → C → Option (ListenerMap C) → Option (ListenerMap C)
  unfolding add_listener
  utility_add_listener type callback none = none
  utility_add_listener type callback (some m) = some (add_listener type callback m)
