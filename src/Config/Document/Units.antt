-- ===== src/Config/Document/Units.antt =====
-- The daisychains and units of `parse_rack` (framework/config/document.cpp): which units are
-- described, and for which links.
use Prim.Native.String.{String}
use text.Mathlib.Text.{◌==◌ as str_eq}
use strange_io.Common.{
  ◌+◌, arith, length, length-append, ◌≡◌, refl, sym, ap, subst, ◌⊎◌, inl, inr, Bool, true, false,
  some, List, [], ◌∷◌, ◌++◌, if◌then◌else◌, >>=-eq-some, some_inj, Bool-cases,
}
use strange_io.Common.Text.{str_eq_refl, str_eq_comm}
use strange_io.Config.Description.{ChainLink, UnitDesc, Setup}
use strange_io.Config.Document.Labels.{read_unit-label}
use strange_io.Config.Document.{
  Json, text_at, read_unit, knows_unit, parse_unit, parse_link, parse_daisychains,
}

-- Labels are unique.
abbrev pub Unique : List UnitDesc → Type 0
Unique [] = Unit
Unique (u ∷ us) = (knows_unit u.label us ≡ false) × Unique us

-- On `if b then true else x`.
or_mono :
    (b x y : Bool)
    → (x ≡ true → y ≡ true)
    → (if b then true else x) ≡ true
    → (if b then true else y) ≡ true
or_mono true x y k h = refl
or_mono false x y k h = k h

or_false : (b x : Bool) → (if b then true else x) ≡ false → (b ≡ false) × (x ≡ false)
or_false true x h = cc
or_false false x h = (refl, h)

knows_unit-append :
    (label : String) (us : List UnitDesc) (u : UnitDesc)
    → knows_unit label us ≡ true
    → knows_unit label (us ++ u ∷ []) ≡ true
unfolding knows_unit
knows_unit-append label [] u h = cc
knows_unit-append label (x ∷ us) u h =
    or_mono (str_eq x.label label) _ _ (knows_unit-append label us u) h

knows_unit-last : (us : List UnitDesc) (u : UnitDesc) → knows_unit u.label (us ++ u ∷ []) ≡ true
unfolding knows_unit
knows_unit-last [] u = rw (str_eq_refl u.label)
knows_unit-last (x ∷ us) u = elim (Bool-cases (str_eq x.label u.label)) [
  | inl e ↦ rw e
  | inr e ↦ rw e (knows_unit-last us u)
]

knows_unit-other :
    (label : String) (us : List UnitDesc) (u : UnitDesc)
    → knows_unit label us ≡ false
    → str_eq u.label label ≡ false
    → knows_unit label (us ++ u ∷ []) ≡ false
unfolding knows_unit
knows_unit-other label [] u h e = rw e
knows_unit-other label (x ∷ us) u h e =
    let (here, later) = or_false (str_eq x.label label) _ h in
    rw here (knows_unit-other label us u later e)

Unique-append :
    (us : List UnitDesc) (u : UnitDesc)
    → knows_unit u.label us ≡ false
    → Unique us
    → Unique (us ++ u ∷ [])
unfolding knows_unit
Unique-append [] u new ok = (refl, tt)
Unique-append (x ∷ us) u new (first, rest) =
    let (other, later) = or_false (str_eq x.label u.label) _ new in
    (
      knows_unit-other x.label us u first (str_eq_comm x.label u.label other),
      Unique-append us u later rest,
    )

module _ {V : Type 0} (json : Json V) (rack : V) where
  -- The unit that a link leads to is described, or the section has no description of it.
  abbrev pub Described : List UnitDesc → ChainLink → Type 0
  Described us l =
      (knows_unit l.to us ≡ true)
      ⊎ ((v : V) × (json.get l.to rack ≡ some v) × (json.is_null v ≡ true))

  abbrev pub AllDescribed : List UnitDesc → List ChainLink → Type 0
  AllDescribed us [] = Unit
  AllDescribed us (l ∷ ls) = Described us l × AllDescribed us ls

  abbrev pub Complete : Setup → Type 0
  Complete s = Unique s.units × AllDescribed s.units s.daisychains

  AllDescribed-more :
      (us us' : List UnitDesc) (ls : List ChainLink)
      → ((label : String) → knows_unit label us ≡ true → knows_unit label us' ≡ true)
      → AllDescribed us ls
      → AllDescribed us' ls
  AllDescribed-more us us' [] k h = tt
  AllDescribed-more us us' (l ∷ ls) k (inl known, rest) =
      (inl (k l.to known), AllDescribed-more us us' ls k rest)
  AllDescribed-more us us' (l ∷ ls) k (inr null, rest) =
      (inr null, AllDescribed-more us us' ls k rest)

  AllDescribed-append :
      (us : List UnitDesc) (ls : List ChainLink) (l : ChainLink)
      → AllDescribed us ls
      → Described us l
      → AllDescribed us (ls ++ l ∷ [])
  AllDescribed-append us [] l h d = (d, tt)
  AllDescribed-append us (k ∷ ls) l (first, rest) d = (first, AllDescribed-append us ls l rest d)

  -- A setup with the unit of a label described; the links `ls` keep theirs.
  abbrev pub Grown : String → List ChainLink → Setup → Setup → Type 0
  Grown label ls s s' =
      Unique s'.units
      × AllDescribed s'.units ls
      × (knows_unit label s'.units ≡ true)
      × (s'.daisychains ≡ s.daisychains)

  parse_unit-Grown :
      (label : String) (v : V) (ls : List ChainLink) (s s' : Setup)
      → Unique s.units
      → AllDescribed s.units ls
      → parse_unit json label v s ≡ some s'
      → Grown label ls s s'
  unfolding parse_unit
  parse_unit-Grown label v ls s s' unique described e =
      elim (Bool-cases (knows_unit label s.units)) [
        | inl known ↦
            subst (Grown label ls s) (some_inj (rw known at e)) (unique, described, known, refl)
        | inr new ↦
            let (u, read, grown) = >>=-eq-some (read_unit json label v) _ (rw new at e) in
            let named = read_unit-label json label v u read in
            subst (Grown label ls s) (some_inj grown) (
              Unique-append s.units u (rw named new) unique,
              AllDescribed-more s.units (s.units ++ u ∷ []) ls (λ l. knows_unit-append l s.units u)
                  described,
              subst (λ n. knows_unit n (s.units ++ u ∷ []) ≡ true) named
                  (knows_unit-last s.units u),
              refl,
            )
      ]

  -- The last part of a round, with the link `l` read.
  link_lem :
      (l : ChainLink) (uv : V) (s s' : Setup)
      → json.get l.to rack ≡ some uv
      → Complete s
      → (let linked = record s { daisychains = s.daisychains ++ l ∷ [] } in
          if json.is_null uv then some linked else parse_unit json l.to uv linked)
        ≡ some s'
      → Complete s' × (s'.daisychains ≡ s.daisychains ++ l ∷ [])
  link_lem l uv s s' got (unique, described) e = elim (Bool-cases (json.is_null uv)) [
    | inl null ↦
        subst (λ r. Complete r × (r.daisychains ≡ s.daisychains ++ l ∷ []))
          (some_inj (rw null at e))
          (
            (unique, AllDescribed-append s.units s.daisychains l described (inr (uv, got, null))),
            refl,
          )
    | inr real ↦
        let linked = record s { daisychains = s.daisychains ++ l ∷ [] } in
        let (unique', described', known, same) =
          parse_unit-Grown l.to uv s.daisychains linked s' unique described (rw real at e) in
        (
          (
            unique',
            subst (AllDescribed s'.units) (sym same)
                (AllDescribed-append s'.units s.daisychains l described' (inl known)),
          ),
          same,
        )
  ]

  parse_link-Complete :
      (v : V) (s s' : Setup)
      → Complete s
      → parse_link json rack v s ≡ some s'
      → Complete s' × (l : ChainLink) × (s'.daisychains ≡ s.daisychains ++ l ∷ [])
  unfolding parse_link
  parse_link-Complete v s s' complete e =
      let (from, e₁, r₁) = >>=-eq-some (text_at json "from" v) _ e in
      let (plug, e₂, r₂) = >>=-eq-some (text_at json "plug" v) _ r₁ in
      let (to, e₃, r₃) = >>=-eq-some (text_at json "to" v) _ r₂ in
      let (jack, e₄, r₄) = >>=-eq-some (text_at json "jack" v) _ r₃ in
      let (uv, got, r₅) = >>=-eq-some (json.get to rack) _ r₄ in
      let l : ChainLink = record { from = from; plug = plug; to = to; jack = jack } in
      let (done, more) = link_lem l uv s s' got complete r₅ in (done, l, more)

  parse_daisychains-Complete :
      (vs : List V) (s s' : Setup)
      → Complete s
      → parse_daisychains json rack vs s ≡ some s'
      → Complete s' × (length s'.daisychains ≡ length s.daisychains + length vs)
  unfolding parse_daisychains
  parse_daisychains-Complete [] s s' complete e =
      subst (λ r. Complete r × (length r.daisychains ≡ length s.daisychains + 0)) (some_inj e)
        (complete, omega arith)
  parse_daisychains-Complete (v ∷ vs) s s' complete e =
      let (s₁, e₁, r₁) = >>=-eq-some (parse_link json rack v s) _ e in
      let (complete₁, l, more) = parse_link-Complete v s s₁ complete e₁ in
      let (complete', count) = parse_daisychains-Complete vs s₁ s' complete₁ r₁ in
      (complete', omega (arith, count, ap length more, length-append s.daisychains (l ∷ [])))

  -- Reading the daisychains of a "rack" section into an empty setup describes no unit twice; each
  -- link has a description of the unit that it leads to, unless the section has none; and there are
  -- as many links as the section lists.
  pub parse_daisychains_complete :
      (vs : List V) (mainlines : List String) (s' : Setup)
      → parse_daisychains json rack vs
          (record { mainlines = mainlines; daisychains = []; units = [] })
        ≡ some s'
      → Unique s'.units × AllDescribed s'.units s'.daisychains × (length s'.daisychains ≡ length vs)
  parse_daisychains_complete vs mainlines s' e =
      let start : Setup = record { mainlines = mainlines; daisychains = []; units = [] } in
      let ((unique, described), count) = parse_daisychains-Complete vs start s' (tt, tt) e in
      (unique, described, omega (arith, count))
