-- ===== src/Midi/Handler/Trigger.antt =====
-- `trigger_led` (framework/midi/midi_handler.cpp) and the devices after it.
use Prim.Native.String.{String}
use text.Mathlib.Text.{◌==◌ as str_eq}
use strange_io.Common.{
  ℕ, suc, ◌<◌, ◌≡◌, ◌≢◌, refl, sym, ap, ◌∙◌, inl, inr, true, false, some, List, [], ◌∷◌, ◌++◌, ◌==◌,
  if◌then◌else◌, Bool-cases, ◌&&◌, get_elem?, subst, set, length, replicate, length-set,
  get_elem?-set_self, get_elem?-set_ne, get_elem?-eq-get_or, get_or, ==_iff, some_inj,
}
use mathlib.Core.List.{append-nil, append_assoc}
use strange_io.Midi.Device.{Device, write_msg}
use strange_io.Midi.Handler.{Led, Handler, led_msg, find_led, send_led, trigger_led}

abbrev pub AllWithin : List ℕ → ℕ → Type 0
AllWithin [] n = Unit {0}
AllWithin (i ∷ is) n = (i < n) × AllWithin is n

-- How often a device is among the active ones.
abbrev pub count : ℕ → List ℕ → ℕ
count j [] = 0
count j (i ∷ is) = if i == j then suc (count j is) else count j is

true_ne : true ≢ false
true_ne e = cc

module _ {C : Type 0} where
  -- A device of the LED's name with an output, after `k` writes of the LED's message.
  abbrev pub lit : Led → ℕ → Device C → Device C
  lit st k d =
      if str_eq d.alias st.device && d.has_output
      then record d { written = d.written ++ replicate k (led_msg d st) }
      else d

  lit-zero : (st : Led) (d : Device C) → lit st 0 d ≡ d
  lit-zero st d = elim (Bool-cases (str_eq d.alias st.device && d.has_output)) [
    | inl e ↦ rw (e, append-nil d.written)
    | inr e ↦ rw e
  ]

  abbrev write_lit : Led → Device C → Device C
  write_lit st d = if str_eq d.alias st.device then write_msg (led_msg d st) d else d

  lit-suc : (st : Led) (k : ℕ) (d : Device C) → lit st k (write_lit st d) ≡ lit st (suc k) d
  unfolding write_msg led_msg
  lit-suc st k d = elim (Bool-cases (str_eq d.alias st.device)) [
    | inr e ↦ rw e (rw e refl)
    | inl e ↦ elim (Bool-cases d.has_output) [
      | inr f ↦
          let w : write_lit st d ≡ d = rw (e, f) refl in
          subst (λ x. lit st k x ≡ lit st (suc k) d) (sym w) (rw (e, f) refl)
      | inl f ↦
          let m = led_msg d st in
          let w : write_lit st d ≡ record d { written = d.written ++ m ∷ [] } = rw (e, f) refl in
          subst (λ x. lit st k x ≡ lit st (suc k) d) (sym w)
            (rw (e, f, append_assoc d.written (m ∷ []) (replicate k m)) refl)
    ]
  ]

  -- The devices after the LED has been sent to the one at `i`.
  abbrev sent_to : Led → ℕ → Device C → List (Device C) → List (Device C)
  sent_to st i di ds =
      if str_eq di.alias st.device then set ds i (write_msg (led_msg di st) di) else ds

  length-sent_to :
      (st : Led) (i : ℕ) (di : Device C) (ds : List (Device C))
      → length (sent_to st i di ds) ≡ length ds
  length-sent_to st i di ds = elim (Bool-cases (str_eq di.alias st.device)) [
    | inl e ↦ rw (e, length-set ds i (write_msg (led_msg di st) di))
    | inr e ↦ rw e
  ]

  get_elem?-sent_to :
      (st : Led) (i j : ℕ) (di d : Device C) (ds : List (Device C))
      → get_elem? ds i ≡ some di
      → get_elem? ds j ≡ some d
      → i < length ds
      → get_elem? (sent_to st i di ds) j ≡ some (if i == j then write_lit st d else d)
  get_elem?-sent_to st i j di d ds ei ej h = elim (Bool-cases (str_eq di.alias st.device)) [
    | inl e ↦
        let x = write_msg (led_msg di st) di in
        elim (Bool-cases (i == j)) [
          | inr ne ↦
              let apart : i ≢ j = λ q. true_ne (sym ((==_iff i j).1 q) ∙ ne) in
              rw (e, ne) (get_elem?-set_ne ds i j x apart ∙ ej)
          | inl same ↦
              let at_j : i ≡ j = (==_iff i j).0 same in
              let one : di ≡ d = some_inj (sym ei ∙ ap (get_elem? ds) at_j ∙ ej) in
              let w : write_lit st di ≡ x = rw e refl in
              rw (e, same)
                (ap (get_elem? (set ds i x)) (sym at_j)
                  ∙ get_elem?-set_self ds i x h
                  ∙ ap some (sym w ∙ ap (write_lit st) one))
        ]
    | inr e ↦ elim (Bool-cases (i == j)) [
      | inr ne ↦ rw (e, ne, ej)
      | inl same ↦
          let one : di ≡ d = some_inj (sym ei ∙ ap (get_elem? ds) ((==_iff i j).0 same) ∙ ej) in
          let w : write_lit st di ≡ di = rw e refl in
          rw (e, same) (ej ∙ ap some (sym one ∙ sym w ∙ ap (write_lit st) one))
    ]
  ]

  send_led-lit :
      (st : Led) (is : List ℕ) (ds : List (Device C)) (j : ℕ) (d : Device C)
      → AllWithin is (length ds)
      → get_elem? ds j ≡ some d
      → (ds' : List (Device C)) × (send_led st is ds ≡ some ds')
        × (get_elem? ds' j ≡ some (lit st (count j is) d))
  unfolding send_led
  send_led-lit st [] ds j d ok e = (ds, refl, e ∙ ap some (sym (lit-zero st d)))
  send_led-lit st (i ∷ is) ds j d ok e =
      let di = get_or ds i d in
      let there = get_elem?-eq-get_or ds i d ok.0 in
      let next = get_elem?-sent_to st i j di d ds there e ok.0 in
      let ok' = subst (AllWithin is) (sym (length-sent_to st i di ds)) ok.1 in
      elim (Bool-cases (i == j)) [
        | inl same ↦
            let (ds', sends, gets) =
              send_led-lit st is (sent_to st i di ds) j (write_lit st d) ok' (rw same at next) in
            (ds', rw there sends, gets ∙ ap some (lit-suc st (count j is) d ∙ rw same refl))
        | inr ne ↦
            let (ds', sends, gets) =
              send_led-lit st is (sent_to st i di ds) j d ok' (rw ne at next) in
            (ds', rw there sends, gets ∙ ap some (rw ne refl))
      ]

  -- Where no device was added since the handler was set up, triggering a unit's LED state succeeds
  -- and writes its message to the active devices of the LED's name that have an output, once for
  -- each time they are active, after what was written before; every other device stays as it was.
  -- The message is the device's LED function, the LED's code as a byte, and its value.
  pub trigger_led-lit :
      (unit : String) (state : ℕ) (h : Handler C) (st : Led) (j : ℕ) (d : Device C)
      → h.moved ≡ false
      → AllWithin h.active (length h.devices)
      → find_led unit state h ≡ some st
      → get_elem? h.devices j ≡ some d
      → (h' : Handler C) × (trigger_led unit state h ≡ some h')
        × (get_elem? h'.devices j ≡ some (lit st (count j h.active) d))
  unfolding trigger_led
  trigger_led-lit unit state h st j d still ok found e =
      let (ds', sends, gets) = send_led-lit st h.active h.devices j d ok e in
      (record h { devices = ds' }, cc, gets)
