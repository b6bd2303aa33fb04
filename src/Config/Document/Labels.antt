-- ===== src/Config/Document/Labels.antt =====
-- The label of a unit through the sections of `parse_unit` (framework/config/document.cpp).
use Prim.Native.String.{String}
use strange_io.Common.{
  ◌≡◌, refl, sym, ap, ◌∙◌, ◌||◌, Bool, true, false, Option, none, some, List, [], ◌∷◌,
  if◌then◌else◌, ◌>>=◌, >>=-eq-some,
}
use strange_io.Config.Description.{UnitDesc}
use strange_io.Config.Document.{
  Json, text_at, null_at, optional, read_unit, parse_led, parse_leds, parse_bindings, parse_configs,
  parse_section,
}

-- The result, if there is one, has the label of `u`.
abbrev Labelled : UnitDesc → Option UnitDesc → Type 0
Labelled u m = (u' : UnitDesc) → m ≡ some u' → u'.label ≡ u.label

Labelled-some : (u v : UnitDesc) → v.label ≡ u.label → Labelled u (some v)
Labelled-some u v e u' h = sym (ap (λ o. label_or o u) h) ∙ e
  where
    label_or : Option UnitDesc → UnitDesc → String
    label_or none v = v.label
    label_or (some w) v = w.label

Labelled-bind :
    {A : Type 0} (u : UnitDesc) (m : Option A) (f : A → Option UnitDesc)
    → ((a : A) → Labelled u (f a))
    → Labelled u (m >>= f)
Labelled-bind u m f k u' h = let (a, e, r) = >>=-eq-some m f h in k a u' r

Labelled-then :
    (u : UnitDesc) (m : Option UnitDesc) (f : UnitDesc → Option UnitDesc)
    → Labelled u m
    → ((v : UnitDesc) → Labelled v (f v))
    → Labelled u (m >>= f)
Labelled-then u m f h k u' e = let (v, run, rest) = >>=-eq-some m f e in k v u' rest ∙ h v run

Labelled-if :
    (u : UnitDesc) (b : Bool) (m : Option UnitDesc)
    → Labelled u m
    → Labelled u (if b then some u else m)
Labelled-if u true m h = Labelled-some u u refl
Labelled-if u false m h = h

module _ {V : Type 0} (json : Json V) where
  parse_bindings-Labelled :
      (ms : List (String × V)) (u : UnitDesc) → Labelled u (parse_bindings json ms u)
  unfolding parse_bindings
  parse_bindings-Labelled [] u = Labelled-some u u refl
  parse_bindings-Labelled ((method, v) ∷ ms) u =
      Labelled-bind u (null_at json "module" v) _ (λ no_module.
        Labelled-bind u (json.get "code" v) _ (λ cv.
          Labelled-then u _ _
            (Labelled-if u (no_module || json.is_null cv) _ (
              Labelled-bind u (text_at json "module" v) _
                (λ midi_module. Labelled-bind u (json.int cv) _ (λ code. Labelled-some u _ refl))))
            (parse_bindings-Labelled ms)))

  parse_led-Labelled :
      (state : String) (v : V) (u : UnitDesc) → Labelled u (parse_led json state v u)
  unfolding parse_led
  parse_led-Labelled state v u = Labelled-bind u (text_at json "module" v) _ (λ device.
      Labelled-bind u (json.get "code" v) _ (λ cv. Labelled-bind u (json.int cv) _ (λ code.
        Labelled-bind u (json.get "value" v) _ (λ vv.
          Labelled-bind u (json.byte vv) _ (λ value.
            Labelled-bind u (text_at json "mode" v) _ (λ mode. Labelled-some u _ refl))))))

  parse_leds-Labelled : (ms : List (String × V)) (u : UnitDesc) → Labelled u (parse_leds json ms u)
  unfolding parse_leds
  parse_leds-Labelled [] u = Labelled-some u u refl
  parse_leds-Labelled ((state, v) ∷ ms) u =
      Labelled-bind u (null_at json "module" v) _ (λ no_module.
        Labelled-bind u (null_at json "code" v) _ (λ no_code.
          Labelled-bind u (null_at json "mode" v) _ (λ no_mode.
            Labelled-then u _ _
              (Labelled-if u (no_module || no_code || no_mode) _ (parse_led-Labelled state v u))
              (parse_leds-Labelled ms))))

  parse_configs-Labelled :
      (ms : List (String × V)) (u : UnitDesc) → Labelled u (parse_configs json ms u)
  unfolding parse_configs
  parse_configs-Labelled [] u = Labelled-some u u refl
  parse_configs-Labelled ((key, v) ∷ ms) u =
      Labelled-bind u (json.text v) _ (λ value u' h. parse_configs-Labelled ms _ u' h)

  parse_section-Labelled :
      (parse : List (String × V) → UnitDesc → Option UnitDesc) (key : String) (v : V) (u : UnitDesc)
      → ((ms : List (String × V)) → Labelled u (parse ms u))
      → Labelled u (parse_section json parse key v u)
  unfolding parse_section
  parse_section-Labelled parse key v u k =
      Labelled-bind u (json.get key v) _
        (λ cv. Labelled-if u (json.is_null cv) _ (Labelled-bind u (json.members cv) _ k))

  pub read_unit-label :
      (label : String) (v : V) (u : UnitDesc) → read_unit json label v ≡ some u → u.label ≡ label
  unfolding read_unit
  read_unit-label label v u e = all u e
    where
      blank : String → String → UnitDesc
      blank unit library = record {
        label = label;
        unit = unit;
        library = library;
        configs = [];
        bindings = [];
        leds = [];
      }

      all : Labelled (blank "" "") (read_unit json label v)
      all = Labelled-bind (blank "" "") (json.get "library" v) _ (λ cv.
          Labelled-bind (blank "" "") (optional json json.text "" cv) _ (λ library.
            Labelled-bind (blank "" "") (json.get "unit" v) _ (λ uv.
              Labelled-bind (blank "" "") (optional json json.text "" uv) _ (λ model.
                Labelled-then (blank "" "") _ _
                  (λ u' h.
                    parse_section-Labelled (parse_bindings json) "bindings" v _
                      (λ ms. parse_bindings-Labelled ms _) u' h)
                  (λ bound.
                    Labelled-then bound _ _
                      (parse_section-Labelled (parse_leds json) "leds" v bound
                        (λ ms. parse_leds-Labelled ms bound))
                      (λ lit.
                        parse_section-Labelled (parse_configs json) "config" v lit
                          (λ ms. parse_configs-Labelled ms lit)))))))
