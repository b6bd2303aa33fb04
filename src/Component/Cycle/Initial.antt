-- ===== src/Component/Cycle/Initial.antt =====
-- The warm-up of one unit: the case of `unit::cycle_line` (framework/component/unit.cpp) for
-- `cycle_type::warmup`.
use strange_io.Common.{
  ℕ, zero, suc, ◌≡◌, refl, ap, ◌∙◌, Option, some, List, [], ◌∷◌, map, get_elem?, set, ◌>>=◌,
  if◌then◌else◌, some_inj,
}
use strange_io.Component.Profile.{FloatOps, ComponentState, active, inactive, complete}
use strange_io.Component.Unit.{Cycled, returned, Node, World, Hooks, node_at, put_node}
use strange_io.Component.Cycle.{failed, warmup_unit}
use strange_io.Component.Sync.Shape.{Shape, shape_of, shapes, shapes-put_node}

module _ {F : Type 0} where
  abbrev pub states : World F → List ComponentState
  states w = map (λ n. n.cstate) w.nodes

  abbrev pub Active : ℕ → World F → Type 0
  Active x w = get_elem? (states w) x ≡ some active

  -- No unit stops being active.
  abbrev pub Grows : World F → World F → Type 0
  Grows w w' = (x : ℕ) → Active x w → Active x w'

  -- The initialisation of a unit succeeds, and leaves the wiring and the states of units alone.
  pub record InitKeeps (hooks : Hooks F) : Type 0 where
    pub completes : (u : ℕ) (w : World F) → (hooks.init u w).0 ≡ complete
    pub same_shapes : (u : ℕ) (w : World F) → shapes (hooks.init u w).1 ≡ shapes w
    pub same_states : (u : ℕ) (w : World F) → states (hooks.init u w).1 ≡ states w

  -- A step that completes, keeps the wiring and makes no unit inactive.
  abbrev pub Warms : List Shape → World F → Option (Cycled × World F) → (World F → Type 0) → Type 0
  Warms v w m P =
      (w' : World F) × (m ≡ some (returned complete, w')) × (shapes w' ≡ v) × Grows w w' × P w'

  pub node_of :
      (ns : List (Node F)) (u : ℕ) (t : Shape)
      → get_elem? (map shape_of ns) u ≡ some t
      → (n : Node F) × (get_elem? ns u ≡ some n) × (shape_of n ≡ t)
  node_of [] u t e = cc
  node_of (n ∷ ns) zero t e = (n, refl, cc)
  node_of (n ∷ ns) (suc u) t e = node_of ns u t e

  state_of_node :
      (ns : List (Node F)) (u : ℕ) (n : Node F)
      → get_elem? ns u ≡ some n
      → get_elem? (map (λ n. n.cstate) ns) u ≡ some n.cstate
  state_of_node [] u n e = cc
  state_of_node (m ∷ ns) zero n e = ap (λ k. some k.cstate) (some_inj e)
  state_of_node (m ∷ ns) (suc u) n e = state_of_node ns u n e

  map-set_active :
      (ns : List (Node F)) (u x : ℕ) (n' : Node F)
      → n'.cstate ≡ active
      → get_elem? (map (λ n. n.cstate) ns) x ≡ some active
      → get_elem? (map (λ n. n.cstate) (set ns u n')) x ≡ some active
  map-set_active [] u x n' on e = e
  map-set_active (m ∷ ns) zero zero n' on e = ap some on
  map-set_active (m ∷ ns) zero (suc x) n' on e = e
  map-set_active (m ∷ ns) (suc u) zero n' on e = e
  map-set_active (m ∷ ns) (suc u) (suc x) n' on e = map-set_active ns u x n' on e

  set_active :
      (ns : List (Node F)) (u : ℕ) (n n' : Node F)
      → get_elem? ns u ≡ some n
      → n'.cstate ≡ active
      → get_elem? (map (λ n. n.cstate) (set ns u n')) u ≡ some active
  set_active [] u n n' e on = cc
  set_active (m ∷ ns) zero n n' e on = ap some on
  set_active (m ∷ ns) (suc u) n n' e on = set_active ns u n n' e on

  module _ (ops : FloatOps F) (hooks : Hooks F) (keeps : InitKeeps hooks) (v : List Shape) where
    init_unit-Warms :
        (u : ℕ) (t : Shape) (w : World F)
        → get_elem? v u ≡ some t
        → shapes w ≡ v
        → Warms v w
            (let (state, w') = hooks.init u w in
              node_at u w' >>= λ n'.
              if failed state
              then some (returned state, w')
              else some (returned state, put_node u (record n' { cstate = active }) w'))
            (Active u)
    init_unit-Warms u t w at_u same =
        let w₁ : World F = (hooks.init u w).1 in
        let shaped : shapes w₁ ≡ v = keeps.same_shapes u w ∙ same in
        let (n, found, saw) = node_of w₁.nodes u t (rw shaped at_u) in
        let n' : Node F = record n { cstate = active } in
        (
          put_node u n' w₁,
          rw (found, keeps.completes u w),
          shapes-put_node u w₁ n n' found refl ∙ shaped,
          λ x on. map-set_active w₁.nodes u x n' refl (rw (keeps.same_states u w) on),
          set_active w₁.nodes u n n' found refl,
        )

    pub warmup_unit-Warms :
        (u : ℕ) (t : Shape) (w : World F)
        → get_elem? v u ≡ some t
        → shapes w ≡ v
        → Warms v w (warmup_unit ops hooks u w) (Active u)
    unfolding warmup_unit
    warmup_unit-Warms u t w at_u same =
        let (n, found, saw) = node_of w.nodes u t (rw same at_u) in
        rw found (by_state n.cstate (state_of_node w.nodes u n found))
      where
        by_state :
            (c : ComponentState)
            → get_elem? (states w) u ≡ some c
            → Warms v w
                (elim c [
                  | ComponentState.active ↦ some (returned complete, w)
                  | ComponentState.inactive ↦
                      (let (state, w') = hooks.init u w in
                        node_at u w' >>= λ n'.
                        if failed state
                        then some (returned state, w')
                        else some (returned state, put_node u (record n' { cstate = active }) w'))
                ])
                (Active u)
        by_state active e = (w, refl, same, λ x on. on, e)
        by_state inactive e = init_unit-Warms u t w at_u same
