-- ===== src/Config/Document/Midi.antt =====
-- `parse_document` (framework/config/document.cpp) on a "midi" section with a controller that has no
-- port.
use Prim.Native.String.{String}
use strange_io.Common.{◌≡◌, refl, true, false, Option, some, List, [], ◌∷◌, ◌++◌}
use strange_io.Config.Description.{Description}
use strange_io.Config.Document.{
  Json, Flow, ended, optional, parse_controllers, read_midi, parse_member, parse_root,
}

module _ {V : Type 0} (json : Json V) where
  -- Controllers with ports, before one that has none.
  pub data Portless : List (String × V) → Type 0 where
    here :
        {label : String} {v port : V} {rest : List (String × V)}
        → json.get "port" v ≡ some port
        → json.is_null port ≡ true
        → Portless ((label, v) ∷ rest)
    later :
        {label : String} {v port : V} {rest : List (String × V)} (p : String) (lv fv : V)
        → json.get "port" v ≡ some port
        → json.is_null port ≡ false
        → json.text port ≡ some p
        → json.get "led_on" v ≡ some lv
        → json.is_null lv ≡ true
        → json.get "led_off" v ≡ some fv
        → json.is_null fv ≡ true
        → Portless rest
        → Portless ((label, v) ∷ rest)

  -- What reading stops with.
  abbrev Stops : Description → Option (Flow Description) → Type 0
  Stops d m =
      (d' : Description) × (m ≡ some (ended d')) × (d'.setup ≡ d.setup) × (d'.system ≡ d.system)

  parse_controllers-Portless :
      (cs : List (String × V)) (d : Description)
      → Portless cs
      → Stops d (parse_controllers json cs d)
  unfolding parse_controllers optional
  parse_controllers-Portless [] d none_left = elim none_left [ ]
  parse_controllers-Portless (c ∷ cs) d (here got null) = (d, rw (got, null), refl, refl)
  parse_controllers-Portless ((label, v) ∷ cs) d
        (later p lv fv got real read on no_on off no_off rest) =
      let (d', run, setup, system) =
        parse_controllers-Portless cs
          (record d {
            controllers =
                d.controllers ++ record { label = label; port = p; led_on = 0; led_off = 0 } ∷ [];
          })
          rest in
      (d', rw (got, real, read, on, no_on, off, no_off) run, setup, system)

  -- A controller without a port ends the reading of the document: what stands behind the "midi"
  -- section, as "rack" and "system" do in the order of keys, is not read, and the setup stays as it
  -- was. The controllers before it have ports and no LED values.
  pub parse_root-Portless :
      (v : V) (cs rest : List (String × V)) (d : Description)
      → json.members v ≡ some cs
      → Portless cs
      → (d' : Description) × (parse_root json (("midi", v) ∷ rest) d ≡ some d')
        × (d'.setup ≡ d.setup)
        × (d'.system ≡ d.system)
  unfolding parse_root parse_member read_midi
  parse_root-Portless v cs rest d got portless =
      let (d', run, setup, system) = parse_controllers-Portless cs d portless in
      (d', rw (got, run), setup, system)
