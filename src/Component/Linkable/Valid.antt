-- ===== src/Component/Linkable/Valid.antt =====
-- The ports that `add_input` and `add_output` (framework/component/linkable.cpp) give a unit, and
-- `connect` on them.
use Prim.Native.String.{String}
use text.Mathlib.Text.{◌==◌ as str_eq}
use strange_io.Common.{
  ℕ, zero, suc, ◌+◌, ◌≤◌, ◌<◌, ◌≡◌, refl, sym, ap, subst, ◌∙◌, inl, inr, Bool, true, false, Option,
  none, some, List, [], ◌∷◌, ◌++◌, leb, get_elem?, set, length, length-set, length-append,
  Bool-cases, arith, get_elem?-set_self, get_elem?-set_ne, u32_mod, some_inj, ℕ_discrete,
  >>=-eq-some,
}
use strange_io.Component.Linkable.Routes.{get_elem?-lt}
use strange_io.Component.Linkable.{
  LinkIn, LinkOut, Ports, Links, add_input, add_output, find_input, find_output, has_input,
  has_output, mark_input, set_output, connect,
}

module _ {A : Type 0} (id : A → ℕ) where
  -- Ids are positions, counted from `i`.
  abbrev pub Numbered : ℕ → List A → Type 0
  Numbered i [] = Unit {0}
  Numbered i (x ∷ xs) = (id x ≡ i) × Numbered (i + 1) xs

  Numbered-set :
      (i k : ℕ) (xs : List A) (x x' : A)
      → get_elem? xs k ≡ some x
      → id x' ≡ id x
      → Numbered i xs
      → Numbered i (set xs k x')
  Numbered-set i k [] x x' e same ok = tt
  Numbered-set i zero (y ∷ ys) x x' e same (here, rest) =
      (same ∙ ap id (sym (some_inj e)) ∙ here, rest)
  Numbered-set i (suc k) (y ∷ ys) x x' e same (here, rest) =
      (here, Numbered-set (i + 1) k ys x x' e same rest)

  Numbered-append :
      (i : ℕ) (xs : List A) (x : A)
      → Numbered i xs
      → id x ≡ i + length xs
      → Numbered i (xs ++ x ∷ [])
  Numbered-append i [] x ok e = (omega (arith, e), tt)
  Numbered-append i (y ∷ ys) x (here, rest) e =
      (here, Numbered-append (i + 1) ys x rest (omega (arith, e)))

abbrev pub ValidPorts : Ports → Type 0
ValidPorts p =
    (p.num_outputs ≡ length p.outputs)
    × Numbered (λ o. o.id) 0 p.outputs
    × (p.num_inputs ≡ length p.inputs)
    × Numbered (λ i. i.id) 0 p.inputs

abbrev pub AllValid : Links → Type 0
AllValid [] = Unit {0}
AllValid (p ∷ ps) = ValidPorts p × AllValid ps

pub AllValid-get :
    (ps : Links) (i : ℕ) (p : Ports) → AllValid ps → get_elem? ps i ≡ some p → ValidPorts p
AllValid-get [] i p ok e = cc
AllValid-get (q ∷ ps) zero p (here, rest) e = subst ValidPorts (some_inj e) here
AllValid-get (q ∷ ps) (suc i) p (here, rest) e = AllValid-get ps i p rest e

AllValid-set : (ps : Links) (i : ℕ) (p : Ports) → AllValid ps → ValidPorts p → AllValid (set ps i p)
AllValid-set [] i p ok new = tt
AllValid-set (q ∷ ps) zero p (here, rest) new = (new, rest)
AllValid-set (q ∷ ps) (suc i) p (here, rest) new = (here, AllValid-set ps i p rest new)

-- The ids that are found are those of ports.
find_output-lt :
    (label : String) (i id : ℕ) (os : List LinkOut)
    → Numbered (λ o. o.id) i os
    → find_output label os ≡ some id
    → (i ≤ id) × (id < i + length os)
unfolding find_output
find_output-lt label i id [] ok e = cc
find_output-lt label i id (o ∷ os) (here, rest) e = elim (Bool-cases (str_eq o.label label)) [
  | inl same ↦
      let found = some_inj (rw same at e) in
      (omega (arith, found, here), omega (arith, found, here))
  | inr other ↦
      let (low, high) = find_output-lt label (i + 1) id os rest (rw other at e) in
      (omega (arith, low), omega (arith, high))
]

find_input-lt :
    (label : String) (i id : ℕ) (is : List LinkIn)
    → Numbered (λ o. o.id) i is
    → find_input label is ≡ some id
    → (i ≤ id) × (id < i + length is)
unfolding find_input
find_input-lt label i id [] ok e = cc
find_input-lt label i id (o ∷ is) (here, rest) e = elim (Bool-cases (str_eq o.label label)) [
  | inl same ↦
      let found = some_inj (rw same at e) in
      (omega (arith, found, here), omega (arith, found, here))
  | inr other ↦
      let (low, high) = find_input-lt label (i + 1) id is rest (rw other at e) in
      (omega (arith, low), omega (arith, high))
]

pub add_output-ValidPorts :
    (label : String) (p : Ports)
    → p.num_outputs + 1 < u32_mod
    → ValidPorts p
    → ValidPorts (add_output label p)
unfolding add_output
add_output-ValidPorts label p small (n, outs, m, ins) =
    let o : LinkOut = record { label = label; id = p.num_outputs; to = none; connected = false } in
    (
      omega (arith, length-append p.outputs (o ∷ []), n, small),
      Numbered-append (λ o. o.id) 0 p.outputs o outs (omega (arith, n)),
      m,
      ins,
    )

pub add_input-ValidPorts :
    (label : String) (p : Ports)
    → p.num_inputs + 1 < u32_mod
    → ValidPorts p
    → ValidPorts (add_input label p)
unfolding add_input
add_input-ValidPorts label p small (n, outs, m, ins) =
    let i : LinkIn = record { label = label; id = p.num_inputs; connected = false } in
    (
      n,
      outs,
      omega (arith, length-append p.inputs (i ∷ []), m, small),
      Numbered-append (λ i. i.id) 0 p.inputs i ins (omega (arith, m)),
    )

-- Links that are valid and as many as before.
abbrev pub SameSize : Links → Links → Type 0
SameSize links links' = AllValid links' × (length links' ≡ length links)

pub get_elem?-some :
    {A : Type 0} (xs : List A) (i : ℕ) → i < length xs → (x : A) × (get_elem? xs i ≡ some x)
get_elem?-some [] i h = elim h [ ]
get_elem?-some (x ∷ xs) zero h = (x, refl)
get_elem?-some (x ∷ xs) (suc i) h = get_elem?-some xs i (omega arith)

set_output-SameSize :
    (unit id : ℕ) (to : Option (ℕ × ℕ)) (b : Bool) (links : Links) (p : Ports)
    → AllValid links
    → get_elem? links unit ≡ some p
    → id < length p.outputs
    → (links' : Links) × (set_output unit id to b links ≡ some links') × SameSize links links'
unfolding set_output
set_output-SameSize unit id to b links p ok at_unit h =
    let (o, got) = get_elem?-some p.outputs id h in
    let (n, outs, m, ins) = AllValid-get links unit p ok at_unit in
    let o' : LinkOut = record o { to = to; connected = b } in
    let p' : Ports = record p { outputs = set p.outputs id o' } in
    (
      set links unit p',
      rw (at_unit, got),
      (
        AllValid-set links unit p' ok (
          n ∙ sym (length-set p.outputs id o'),
          Numbered-set (λ o. o.id) 0 id p.outputs o o' got refl outs,
          m,
          ins,
        ),
        length-set links unit p',
      ),
    )

mark_input-SameSize :
    (b : Bool) (unit id : ℕ) (links : Links) (p : Ports)
    → AllValid links
    → get_elem? links unit ≡ some p
    → id < length p.inputs
    → (links' : Links) × (mark_input b (unit, id) links ≡ some links') × SameSize links links'
unfolding mark_input
mark_input-SameSize b unit id links p ok at_unit h =
    let (i, got) = get_elem?-some p.inputs id h in
    let (n, outs, m, ins) = AllValid-get links unit p ok at_unit in
    let i' : LinkIn = record i { connected = b } in
    let p' : Ports = record p { inputs = set p.inputs id i' } in
    (
      set links unit p',
      rw (at_unit, got),
      (
        AllValid-set links unit p' ok (
          n,
          outs,
          m ∙ sym (length-set p.inputs id i'),
          Numbered-set (λ i. i.id) 0 id p.inputs i i' got refl ins,
        ),
        length-set links unit p',
      ),
    )

-- Setting an output leaves all inputs as they are.
set_output-inputs :
    (unit id u : ℕ) (to : Option (ℕ × ℕ)) (b : Bool) (links links' : Links) (q : Ports)
    → set_output unit id to b links ≡ some links'
    → get_elem? links u ≡ some q
    → (q' : Ports) × (get_elem? links' u ≡ some q') × (q'.inputs ≡ q.inputs)
unfolding set_output
set_output-inputs unit id u to b links links' q e at_u =
    let (p, at_unit, e₁) = >>=-eq-some (get_elem? links unit) _ e in
    let (o, got, e₂) = >>=-eq-some (get_elem? p.outputs id) _ e₁ in
    let p' : Ports = record p {
      outputs = set p.outputs id (record o { to = to; connected = b });
    } in
    subst (λ ls. (q' : Ports) × (get_elem? ls u ≡ some q') × (q'.inputs ≡ q.inputs)) (some_inj e₂)
      (elim (ℕ_discrete unit u) [
        | yes same ↦
            let ports : p ≡ q = some_inj (sym at_unit ∙ ap (get_elem? links) same ∙ at_u) in
            (
              p',
              subst (λ j. get_elem? (set links unit p') j ≡ some p') same
                  (get_elem?-set_self links unit p' (get_elem?-lt links unit p at_unit)),
              ap (λ r. r.inputs) ports,
            )
        | no other ↦ (q, get_elem?-set_ne links unit u p' other ∙ at_u, refl)
      ])

connect_found :
    (source id : ℕ) (input : ℕ × ℕ) (links linked marked : Links) (s : Ports)
    → get_elem? links source ≡ some s
    → leb s.num_outputs id ≡ false
    → set_output source id (some input) true links ≡ some linked
    → mark_input true input linked ≡ some marked
    → connect source id (some input) links ≡ some (true, marked)
unfolding connect
connect_found source id input links linked marked s at_s fits sets marks = rw (at_s, fits) (cc)

-- Connecting an output that `has_output` finds to an input that `has_input` finds, of units among
-- those linked, stays within the arrays, and keeps the ids of all ports their positions.
pub connect-SameSize :
    (source target out inp : ℕ) (output input : String) (links : Links) (s t : Ports)
    → AllValid links
    → get_elem? links source ≡ some s
    → get_elem? links target ≡ some t
    → has_output output s ≡ some out
    → has_input input t ≡ some inp
    → (linked : Bool) × (links' : Links) × (connect source out (some (target, inp)) links
        ≡ some (linked, links'))
      × SameSize links links'
unfolding has_output has_input
connect-SameSize source target out inp output input links s t ok at_s at_t has_o has_i =
    let (n, outs, m, ins) = AllValid-get links source s ok at_s in
    let (n', outs', m', ins') = AllValid-get links target t ok at_t in
    let (low, high) = find_output-lt output 0 out s.outputs outs has_o in
    let (low', high') = find_input-lt input 0 inp t.inputs ins' has_i in
    let (linked, sets, (ok₁, size₁)) =
      set_output-SameSize source out (some (target, inp)) true links s ok at_s (omega arith) in
    let (q, at_q, same) =
      set_output-inputs source out target (some (target, inp)) true links linked t sets at_t in
    let (marked, marks, (ok₂, size₂)) =
      mark_input-SameSize true target inp linked q ok₁ at_q
        (subst (λ is. inp < length is) (sym same) (omega arith)) in
    let fits : leb s.num_outputs out ≡ false = ground arith in
    (
      true,
      marked,
      connect_found source out (target, inp) links linked marked s at_s fits sets marks,
      (ok₂, size₂ ∙ size₁),
    )
