-- ===== src/Component/Linkable/Routes.antt =====
-- `connect` and `disconnect` (framework/component/linkable.cpp), and where samples go after them.
use strange_io.Common.{
  ℕ, ◌≤◌, ◌<◌, ◌≡◌, refl, sym, ap, subst, ◌∙◌, ◌⊎◌, inl, inr, Bool, true, false, Option, none, some,
  List, [], ◌∷◌, zero, suc, leb, get_elem?, set, length, >>=-eq-some, some_inj, Bool-cases, leb→le,
  arith, get_elem?-set_self, get_elem?-set_ne, ℕ_discrete,
}
use strange_io.Component.Linkable.{
  LinkOut, Ports, Links, mark_input, set_output, connect, disconnect, route_out,
}

module _ {ℓ} {A : Type ℓ} where
  pub get_elem?-lt : (xs : List A) (i : ℕ) (a : A) → get_elem? xs i ≡ some a → i < length xs
  get_elem?-lt [] i a e = cc
  get_elem?-lt (x ∷ xs) zero a e = omega arith
  get_elem?-lt (x ∷ xs) (suc i) a e = omega (arith, get_elem?-lt xs i a e)

-- Marking an input leaves all outputs as they are.
mark_input-outputs :
    (b : Bool) (unit input u : ℕ) (links links' : Links) (p : Ports)
    → mark_input b (unit, input) links ≡ some links'
    → get_elem? links u ≡ some p
    → (p' : Ports) × (get_elem? links' u ≡ some p')
      × (p'.outputs ≡ p.outputs)
      × (p'.num_outputs ≡ p.num_outputs)
unfolding mark_input
mark_input-outputs b unit input u links links' p e at_u =
    let (q, at, e₁) = >>=-eq-some (get_elem? links unit) _ e in
    let (i, got, e₂) = >>=-eq-some (get_elem? q.inputs input) _ e₁ in
    let marked : Ports = record q { inputs = set q.inputs input (record i { connected = b }) } in
    subst
      (λ ls.
        (p' : Ports) × (get_elem? ls u ≡ some p')
        × (p'.outputs ≡ p.outputs)
        × (p'.num_outputs ≡ p.num_outputs))
      (some_inj e₂)
      (elim (ℕ_discrete unit u) [
        | yes same ↦
            let ports : q ≡ p = some_inj (sym at ∙ ap (get_elem? links) same ∙ at_u) in
            (
              marked,
              subst (λ j. get_elem? (set links unit marked) j ≡ some marked) same
                  (get_elem?-set_self links unit marked (get_elem?-lt links unit q at)),
              ap (λ r. r.outputs) ports,
              ap (λ r. r.num_outputs) ports,
            )
        | no other ↦ (p, get_elem?-set_ne links unit u marked other ∙ at_u, refl, refl)
      ])

-- An output that has been set.
set_output-outputs :
    (unit id : ℕ) (to : Option (ℕ × ℕ)) (b : Bool) (links links' : Links) (p : Ports)
    → set_output unit id to b links ≡ some links'
    → get_elem? links unit ≡ some p
    → (p' : Ports) × (o : LinkOut) × (get_elem? links' unit ≡ some p')
      × (get_elem? p'.outputs id ≡ some o)
      × (o.to ≡ to)
      × (o.connected ≡ b)
      × (p'.num_outputs ≡ p.num_outputs)
unfolding set_output
set_output-outputs unit id to b links links' p e at_unit =
    let (o, got, e₁) = >>=-eq-some (get_elem? p.outputs id) _ (rw at_unit at e) in
    let o' : LinkOut = record o { to = to; connected = b } in
    let p' : Ports = record p { outputs = set p.outputs id o' } in
    (
      p',
      o',
      subst (λ ls. get_elem? ls unit ≡ some p') (some_inj e₁)
          (get_elem?-set_self links unit p' (get_elem?-lt links unit p at_unit)),
      get_elem?-set_self p.outputs id o' (get_elem?-lt p.outputs id o got),
      refl,
      refl,
      refl,
    )

-- Once `connect` has answered true, samples and syncs that leave by the output go to the input, a
-- unit connected to itself included.
pub route_out-connect :
    (unit id : ℕ) (input : ℕ × ℕ) (links links' : Links)
    → connect unit id (some input) links ≡ some (true, links')
    → (p : Ports) × (get_elem? links' unit ≡ some p) × (route_out id p ≡ some (some input))
unfolding connect route_out
route_out-connect unit id (target, port) links links' e =
    let (p, at_unit, e₁) = >>=-eq-some (get_elem? links unit) _ e in
    elim (Bool-cases (leb p.num_outputs id)) [
      | inl out ↦ absurd (refused (ap (λ r. r.0) (some_inj (rw out at e₁))))
      | inr fits ↦
          let (linked, e₂, e₃) =
            >>=-eq-some (set_output unit id (some (target, port)) true links) _ (rw fits at e₁) in
          let (marked, e₄, e₅) = >>=-eq-some (mark_input true (target, port) linked) _ e₃ in
          let (p₁, o, at₁, out, to, on, num) =
            set_output-outputs unit id (some (target, port)) true links linked p e₂ at_unit in
          let (p₂, at₂, outs, num₂) =
            mark_input-outputs true target port unit linked marked p₁ e₄ at₁ in
          (
            p₂,
            subst (λ ls. get_elem? ls unit ≡ some p₂) (ap (λ r. r.1) (some_inj e₅)) at₂,
            rw (num₂, num, fits, outs, out, on, to),
          )
    ]
  where
    refused : false ≡ true → ⊥
    refused h = cc

-- `disconnect` of an output whose id is below the number of the unit's inputs stops what leaves by
-- it. With any other id it changes nothing, also where the unit has such an output and it is
-- connected.
pub disconnect-cases :
    (unit id : ℕ) (links links' : Links) (p : Ports)
    → get_elem? links unit ≡ some p
    → disconnect unit id links ≡ some links'
    → ((p.num_inputs ≤ id) × (links' ≡ links))
      ⊎ ((id < p.num_inputs)
          × (p' : Ports) × (get_elem? links' unit ≡ some p')
          × (route_out id p' ≡ some none))
unfolding disconnect route_out
disconnect-cases unit id links links' p at_unit e = elim (Bool-cases (leb p.num_inputs id)) [
  | inl out ↦ inl (leb→le p.num_inputs id out, sym (some_inj (rw (at_unit, out) at e)))
  | inr fits ↦
      let (o, got, e₁) = >>=-eq-some (get_elem? p.outputs id) _ (rw (at_unit, fits) at e) in
      let ((target, port), to, e₂) = >>=-eq-some o.to _ e₁ in
      let (marked, e₃, e₄) = >>=-eq-some (mark_input false (target, port) links) _ e₂ in
      let (p₁, at₁, outs, num) =
        mark_input-outputs false target port unit links marked p e₃ at_unit in
      let (p₂, o', at₂, out, none_to, off, num₂) =
        set_output-outputs unit id none false marked links' p₁ e₄ at₁ in
      inr (below p.num_inputs id fits, p₂, at₂, stopped id p₂ o' out off)
]
  where
    below : (a b : ℕ) → leb a b ≡ false → b < a
    below a b h = ground arith

    stopped :
        (id : ℕ) (p : Ports) (o : LinkOut)
        → get_elem? p.outputs id ≡ some o
        → o.connected ≡ false
        → route_out id p ≡ some none
    stopped id p o out off = elim (Bool-cases (leb p.num_outputs id)) [
      | inl e ↦ rw e
      | inr e ↦ rw (e, out, off)
    ]
