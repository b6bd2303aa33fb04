-- ===== src/Component/Mount/Valid.antt =====
-- `add_unit` and `connect_units` (framework/component/mount.cpp) on units with the ports that they
-- added.
use Prim.Native.String.{String}
use text.Mathlib.Text.{◌==◌ as str_eq}
use strange_io.Common.{
  ℕ, zero, suc, ◌+◌, ◌<◌, ◌≡◌, refl, sym, ap, subst, inl, inr, Bool, true, false, none, some, List,
  [], ◌∷◌, ◌++◌, map, length, length-append, get_elem?, Bool-cases, Option-cases, arith, some_inj,
}
use strange_io.Common.Text.{str_eq_refl}
use strange_io.Component.Linkable.{Links, has_input, has_output, connect}
use strange_io.Component.Linkable.Valid.{ValidPorts, AllValid, connect-SameSize}
use strange_io.Component.Unit.{Node, World, node_at}
use strange_io.Component.Mount.{
  Mount, lookup, get_unit, has_unit, add_unit, links_of, with_ports, connect_units,
}

pub has_unit-found :
    (label : String) (m : Mount) (u : ℕ) → lookup label m.mounted ≡ some u → has_unit label m ≡ true
unfolding has_unit
has_unit-found label m u e = cc

has_unit_self :
    (label : String) (u : ℕ) (m : Mount)
    → has_unit label (record m { mounted = (label, u) ∷ m.mounted }) ≡ true
unfolding lookup
has_unit_self label u m =
    has_unit-found label (record m { mounted = (label, u) ∷ m.mounted }) u (rw (str_eq_refl label))

pub has_unit-lookup :
    (label : String) (m : Mount)
    → has_unit label m ≡ true
    → (u : ℕ) × (lookup label m.mounted ≡ some u)
unfolding has_unit
has_unit-lookup label m h = elim (Option-cases (lookup label m.mounted)) [
  | inr found ↦ found
  | inl e ↦ cc
]

has_unit_more :
    (label other : String) (u : ℕ) (m : Mount)
    → has_unit other m ≡ true
    → has_unit other (record m { mounted = (label, u) ∷ m.mounted }) ≡ true
unfolding lookup
has_unit_more label other u m h =
    let (v, found) = has_unit-lookup other m h in
    let more : Mount = record m { mounted = (label, u) ∷ m.mounted } in
    elim (Bool-cases (str_eq label other)) [
      | inl same ↦ has_unit-found other more u (rw same)
      | inr differ ↦ has_unit-found other more v (rw differ found)
    ]

lookup-cons :
    (label other : String) (n u : ℕ) (ms : List (String × ℕ))
    → ((v : ℕ) → lookup other ms ≡ some v → v < n)
    → lookup other ((label, n) ∷ ms) ≡ some u
    → u < suc n
unfolding lookup
lookup-cons label other n u ms below e = elim (Bool-cases (str_eq label other)) [
  | inl same ↦ omega (arith, some_inj (rw same at e))
  | inr differ ↦ omega (arith, below u (rw differ at e))
]

module _ {F : Type 0} where
  -- Mounted labels lead to units, and all units have the ports that they added.
  abbrev pub Sound : List (String × ℕ) → World F → Type 0
  Sound mounted w =
      AllValid (links_of w)
      × ((label : String) (u : ℕ) → lookup label mounted ≡ some u → u < length w.nodes)

  AllValid-append :
      (ns : List (Node F)) (n : Node F)
      → AllValid (map (λ n. n.ports) ns)
      → ValidPorts n.ports
      → AllValid (map (λ n. n.ports) (ns ++ n ∷ []))
  AllValid-append [] n ok new = (new, tt)
  AllValid-append (m ∷ ms) n (here, rest) new = (here, AllValid-append ms n rest new)

  -- What adding a unit under a label gives.
  abbrev pub Added : String → Mount → Mount × World F → Type 0
  Added label m (m', w') =
      Sound m'.mounted w'
      × (has_unit label m' ≡ true)
      × ((other : String) → has_unit other m ≡ true → has_unit other m' ≡ true)

  add_unit-there :
      (label : String) (n : Node F) (m : Mount) (w : World F) (u : ℕ)
      → lookup label m.mounted ≡ some u
      → add_unit label n m w ≡ (m, w)
  unfolding add_unit
  add_unit-there label n m w u e = cc

  add_unit-new :
      (label : String) (n : Node F) (m : Mount) (w : World F)
      → lookup label m.mounted ≡ none
      → add_unit label n m w ≡ (
        record m { mounted = (label, length w.nodes) ∷ m.mounted },
        record w { nodes = w.nodes ++ record n { has_rack = true } ∷ [] },
      )
  unfolding add_unit
  add_unit-new label n m w e = cc

  -- A unit that is added is mounted under its label, and every label that was mounted stays.
  pub add_unit-Added :
      (label : String) (n : Node F) (m : Mount) (w : World F)
      → Sound m.mounted w
      → ValidPorts n.ports
      → Added label m (add_unit label n m w)
  add_unit-Added label n m w (valid, below) new = elim (Option-cases (lookup label m.mounted)) [
    | inr (u, e) ↦
        subst (Added label m) (sym (add_unit-there label n m w u e))
          ((valid, below), has_unit-found label m u e, λ other h. h)
    | inl e ↦
        let size : length w.nodes + 1 ≡ length (w.nodes ++ record n { has_rack = true } ∷ []) =
          omega (arith, length-append w.nodes (record n { has_rack = true } ∷ [])) in
        subst (Added label m) (sym (add_unit-new label n m w e)) (
          (
            AllValid-append w.nodes (record n { has_rack = true }) valid new,
            λ other u found.
                subst (λ k. u < k) size
                  (omega (
                    arith,
                    lookup-cons label other (length w.nodes) u m.mounted (below other) found,
                  )),
          ),
          has_unit_self label (length w.nodes) m,
          λ other h. has_unit_more label other (length w.nodes) m h,
        )
  ]

  links_of-with_ports :
      (ns : List (Node F)) (links : Links)
      → length links ≡ length (map (λ n. n.ports) ns)
      → (map (λ n. n.ports) (with_ports ns links) ≡ links)
        × (length (with_ports ns links) ≡ length ns)
  unfolding with_ports
  links_of-with_ports [] [] e = (refl, refl)
  links_of-with_ports [] (l ∷ ls) e = absurd (omega arith)
  links_of-with_ports (n ∷ ns) [] e = absurd (omega arith)
  links_of-with_ports (n ∷ ns) (l ∷ ls) e =
      let (links, size) = links_of-with_ports ns ls (omega arith) in (ap (◌∷◌ l) links, ap suc size)

  node_at-some :
      (w : World F) (u : ℕ)
      → u < length w.nodes
      → (n : Node F) × (node_at u w ≡ some n) × (get_elem? (links_of w) u ≡ some n.ports)
  node_at-some w u h = go w.nodes u h
    where
      go :
          (ns : List (Node F)) (u : ℕ)
          → u < length ns
          → (n : Node F) × (get_elem? ns u ≡ some n)
            × (get_elem? (map (λ n. n.ports) ns) u ≡ some n.ports)
      go [] u h = elim h [ ]
      go (n ∷ ns) zero h = (n, refl, refl)
      go (n ∷ ns) (suc u) h = go ns u (omega arith)

  connect_units_found :
      (from output to input : String) (m : Mount) (w : World F) (source target out inp : ℕ)
      (s t : Node F) (linked : Bool) (links : Links)
      → lookup from m.mounted ≡ some source
      → lookup to m.mounted ≡ some target
      → node_at source w ≡ some s
      → node_at target w ≡ some t
      → has_output output s.ports ≡ some out
      → has_input input t.ports ≡ some inp
      → connect source out (some (target, inp)) (links_of w) ≡ some (linked, links)
      → connect_units from output to input m w
        ≡ some (linked, record w { nodes = with_ports w.nodes links })
  unfolding connect_units get_unit
  connect_units_found from output to input m w source target out inp s t linked links a b c d e f
        g =
      cc

  -- Connecting by labels never faults.
  pub connect_units-Sound :
      (from output to input : String) (m : Mount) (w : World F)
      → Sound m.mounted w
      → (linked : Bool) × (w' : World F) × (connect_units from output to input m w
          ≡ some (linked, w'))
        × Sound m.mounted w'
  unfolding connect_units get_unit
  connect_units-Sound from output to input m w (valid, below) =
      elim (Option-cases (lookup from m.mounted)) [
        | inl e ↦ (false, w, (cc), (valid, below))
        | inr (source, e) ↦ elim (Option-cases (lookup to m.mounted)) [
          | inl f ↦ (false, w, (cc), (valid, below))
          | inr (target, f) ↦
              let (s, at_s, ports_s) = node_at-some w source (below from source e) in
              let (t, at_t, ports_t) = node_at-some w target (below to target f) in
              elim (Option-cases (has_output output s.ports)) [
                | inl g ↦ (false, w, (cc), (valid, below))
                | inr (out, g) ↦ elim (Option-cases (has_input input t.ports)) [
                  | inl h ↦ (false, w, (cc), (valid, below))
                  | inr (inp, h) ↦
                      let (linked, links, connects, (ok, size)) =
                        connect-SameSize source target out inp output input (links_of w) s.ports
                          t.ports valid ports_s ports_t g h in
                      let (same, count) = links_of-with_ports w.nodes links size in
                      (
                        linked,
                        record w { nodes = with_ports w.nodes links },
                        connect_units_found from output to input m w source target out inp s t
                            linked links e f at_s at_t g h connects,
                        (
                          subst AllValid (sym same) ok,
                          λ label u found. subst (λ k. u < k) (sym count) (below label u found),
                        ),
                      )
                ]
              ]
        ]
      ]
