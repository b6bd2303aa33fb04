-- ===== src/Config/Document/Tests.antt =====
-- Documents as small trees.
use Prim.Native.String.{String}
use text.Mathlib.Text.{◌==◌ as str_eq}
use strange_io.Common.{
  ℕ, ◌≡◌, refl, Bool, true, false, Option, none, some, List, [], ◌∷◌, if◌then◌else◌, length, ◌>>=◌,
}
use strange_io.Common.Int.{pos}
use strange_io.Config.Description.{Setup, Description}
use strange_io.Config.Document.{
  Json, new_description, parse_daisychains, parse_root, parse_link, parse_unit, read_unit,
  knows_unit, parse_section, optional,
}
use strange_io.Config.Document.Units.{Unique, AllDescribed, parse_daisychains_complete}
use strange_io.Config.Document.Midi.{here, parse_root-Portless}

mutual
  data Value : Type 0 where
    null : Value
    words : String → Value
    number : ℕ → Value
    object : Members → Value

  data Members : Type 0 where
    nil : Members
    member : String → Value → Members → Members

abbrev listed : Members → List (String × Value)
listed nil = []
listed (member key v rest) = (key, v) ∷ listed rest

abbrev find_key : String → Members → Value
find_key key nil = null
find_key key (member k v rest) = let found = find_key key rest in if str_eq k key then v else found

abbrev get_key : String → Value → Option Value
get_key key (object ms) = some (find_key key ms)
get_key key v = none

abbrev members_of : Value → Option (List (String × Value))
members_of (object ms) = some (listed ms)
members_of v = none

abbrev text_of : Value → Option String
text_of (words s) = some s
text_of v = none

abbrev number_of : Value → Option ℕ
number_of (number n) = some n
number_of v = none

abbrev is_null_value : Value → Bool
is_null_value null = true
is_null_value v = false

abbrev is_object_value : Value → Bool
is_object_value (object ms) = true
is_object_value v = false

abbrev trees : Json Value
trees = record {
  is_null = is_null_value;
  is_object = is_object_value;
  get = get_key;
  members = members_of;
  elements = λ v. none;
  text = text_of;
  int = λ v. number_of v >>= λ n. some (pos n);
  byte = number_of;
}

abbrev chain : String → String → Value
chain from to = object (
    member "from" (words from)
      (member "plug" (words "audio") (member "to" (words to) (member "jack" (words "in") nil))))

abbrev mixer_section : Value
mixer_section = object (member "mixer" (object (member "unit" (words "Mixer") nil)) nil)

abbrev two_chains : List Value
two_chains = chain "rack" "mixer" ∷ chain "deck" "mixer" ∷ []

abbrev mixer_setup : Setup
mixer_setup = record {
  mainlines = [];
  daisychains =
      record { from = "rack"; plug = "audio"; to = "mixer"; jack = "in" }
      ∷ record { from = "deck"; plug = "audio"; to = "mixer"; jack = "in" }
      ∷ [];
  units =
      record {
        label = "mixer";
        unit = "Mixer";
        library = "";
        configs = [];
        bindings = [];
        leds = [];
      }
      ∷ [];
}

parse_daisychains_two :
    parse_daisychains trees mixer_section two_chains
      (record { mainlines = []; daisychains = []; units = [] })
    ≡ some mixer_setup
unfolding parse_daisychains parse_link parse_unit read_unit knows_unit parse_section optional
parse_daisychains_two = refl

parse_daisychains_complete_example :
    Unique mixer_setup.units
    × AllDescribed trees mixer_section mixer_setup.units mixer_setup.daisychains
    × (length mixer_setup.daisychains ≡ 2)
parse_daisychains_complete_example =
    parse_daisychains_complete trees mixer_section two_chains [] mixer_setup parse_daisychains_two

abbrev portless : Members
portless = member "pad" (object (member "led_on" (number 1) nil)) nil

parse_root-Portless_example :
    (d' : Description) × (parse_root trees
        (("midi", object portless) ∷ ("rack", mixer_section) ∷ [])
        (new_description (pos 7))
      ≡ some d')
    × (d'.setup ≡ (new_description (pos 7)).setup)
    × (d'.system ≡ (new_description (pos 7)).system)
parse_root-Portless_example =
    parse_root-Portless trees (object portless) (listed portless) (("rack", mixer_section) ∷ [])
      (new_description (pos 7)) refl (here refl refl)
