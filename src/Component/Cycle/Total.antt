-- ===== src/Component/Cycle/Total.antt =====
-- Cycles of all types along lines without cycles: `unit::cycle_line`
-- (framework/component/unit.cpp).
use strange_io.Common.{
  ℕ, zero, suc, ◌<◌, ◌≡◌, refl, ap, ◌∙◌, ◌⊎◌, inl, inr, Bool, true, false, not, Option, some, List,
  [], ◌∷◌, arith, get_elem?, ◌>>=◌, if◌then◌else◌, Bool-cases,
}
use strange_io.Common.Int.{◌==ℤ◌}
use strange_io.Component.LineState
use strange_io.Component.Linkable.{LinkOut}
use strange_io.Component.Profile.{
  SyncProfile, FloatOps, ComponentState, active, inactive, CycleType, warmup, sync, ac, CycleState,
  complete,
}
use strange_io.Component.Unit.{Cycled, returned, thrown, Node, World, Hooks, node_at, put_node}
use strange_io.Component.Cycle.{
  failed, from_source, cycle_outputs, sync_source, warmup_unit, cycle_unit, cycle_line,
}
use strange_io.Component.Cycle.Initial.{node_of}
use strange_io.Component.Sync.Acyclic.{Takes, sync_line-Ends}
use strange_io.Component.Sync.Shape.{
  Shape, LinkOk, LinksOk, link, IsWired, Ends, KeepShape, shape_of, shapes, shapes-put_node,
}

module _ {F : Type 0} where
  -- The hooks of units leave the wiring alone.
  pub record HooksKeep (hooks : Hooks F) : Type 0 where
    pub of_cycle : (u : ℕ) (w : World F) → shapes (hooks.cycle u w).1 ≡ shapes w
    pub of_init : (u : ℕ) (w : World F) → shapes (hooks.init u w).1 ≡ shapes w
    pub of_resync : KeepShape hooks

  -- A step that gives a result, or throws, and keeps the wiring.
  abbrev pub Stays : List Shape → Option (Cycled × World F) → Type 0
  Stays v m = (r : Cycled × World F) × (m ≡ some r) × (shapes r.1 ≡ v)

  Stays-if :
      {v : List Shape} (b : Bool) (x y : Option (Cycled × World F))
      → Stays v x
      → Stays v y
      → Stays v (if b then x else y)
  Stays-if true x y h k = h
  Stays-if false x y h k = k

  Stays-bind :
      {v : List Shape} (m : Option (Cycled × World F))
      (f : Cycled × World F → Option (Cycled × World F))
      → Stays v m
      → ((c : Cycled) (w : World F) → shapes w ≡ v → Stays v (f (c, w)))
      → Stays v (m >>= f)
  Stays-bind m f ((c, w), runs, same) k = rw runs (k c w same)

  Stays-node :
      {v : List Shape} (u : ℕ) (t : Shape) (w : World F) (f : Node F → Option (Cycled × World F))
      → get_elem? v u ≡ some t
      → shapes w ≡ v
      → ((n : Node F) → node_at u w ≡ some n → shape_of n ≡ t → Stays v (f n))
      → Stays v (node_at u w >>= f)
  Stays-node u t w f at_u same k =
      let (n, found, saw) = node_of w.nodes u t (rw same at_u) in rw found (k n found saw)

  Ends-Stays :
      {v : List Shape} (m : Option (SyncProfile F × World F))
      (f : SyncProfile F × World F → Option (Cycled × World F))
      → Ends v m
      → ((p : SyncProfile F) (w : World F) → shapes w ≡ v → Stays v (f (p, w)))
      → Stays v (m >>= f)
  Ends-Stays m f ((p, w), runs, same) k = rw runs (k p w same)

  module _ (ops : FloatOps F) (hooks : Hooks F) (keep : HooksKeep hooks) (v : List Shape) where
    CallStays : (ℕ → ℕ) → ℕ → (ℕ → World F → Option (Cycled × World F)) → Type 0
    CallStays rank r call =
        (o : LinkOut) (ok : LinkOk v rank r o) (w : World F)
        → shapes w ≡ v
        → Stays v (call ok.target w)

    cycle_outputs-Stays :
        (rank : ℕ → ℕ) (r : ℕ) (call : ℕ → World F → Option (Cycled × World F)) (state : CycleState)
        (os : List LinkOut) (w : World F)
        → CallStays rank r call
        → LinksOk v rank r os
        → shapes w ≡ v
        → Stays v (cycle_outputs call state os w)
    unfolding cycle_outputs CallStays
    cycle_outputs-Stays rank r call state [] w stays ok same = (_, refl, same)
    cycle_outputs-Stays rank r call state (o ∷ os) w stays (link ok rest) same =
        Stays-bind _ _ (one (Bool-cases o.connected))
          (after (λ w' same'. cycle_outputs-Stays rank r call state os w' stays rest same'))
      where
        one :
            (o.connected ≡ true) ⊎ (o.connected ≡ false)
            → Stays v
                (if not o.connected then some (returned state, w) else (o.to >>= λ p. call p.0 w))
        one (inl on) = let here = ok on in rw (on, here.to) (stays o here w same)
        one (inr off) = rw off (_, refl, same)

        after :
            ((w' : World F) → shapes w' ≡ v → Stays v (cycle_outputs call state os w'))
            → (c : Cycled) (w' : World F) → shapes w' ≡ v
            → Stays v (elim c [
              | thrown e ↦ some (thrown e, w')
              | returned dropped ↦ cycle_outputs call state os w'
            ])
        after again (thrown e) w' same' = (_, refl, same')
        after again (returned dropped) w' same' = again w' same'

    sync_source-Stays :
        (rank : ℕ → ℕ) (wired : IsWired v rank) (fuel u : ℕ) (t : Shape) (w : World F)
        → get_elem? v u ≡ some t
        → Takes t 0
        → shapes w ≡ v
        → rank u < fuel
        → Stays v (sync_source ops hooks fuel u w)
    unfolding sync_source
    sync_source-Stays rank wired fuel u t w at_u takes same enough =
        Stays-node u t w _ at_u same (λ n found saw.
          Ends-Stays _ _
            (sync_line-Ends ops hooks keep.of_resync v rank wired fuel u 0 t from_source _ _ at_u
              takes (shapes-put_node u w n _ found refl ∙ same) enough)
            (λ p w' same'.
              Stays-node u t w' _ at_u same'
                (λ n' found' saw'. (_, refl, shapes-put_node u w' n' _ found' refl ∙ same'))))

    warmup_unit-Stays :
        (u : ℕ) (t : Shape) (w : World F)
        → get_elem? v u ≡ some t
        → shapes w ≡ v
        → Stays v (warmup_unit ops hooks u w)
    unfolding warmup_unit
    warmup_unit-Stays u t w at_u same =
        Stays-node u t w _ at_u same (λ n found saw. by_state n.cstate)
      where
        by_state :
            (c : ComponentState)
            → Stays v (elim c [
              | ComponentState.active ↦ some (returned complete, w)
              | ComponentState.inactive ↦
                  (let (state, w') = hooks.init u w in
                    node_at u w' >>= λ n'.
                    if failed state
                    then some (returned state, w')
                    else some (returned state, put_node u (record n' { cstate = active }) w'))
            ])
        by_state active = (_, refl, same)
        by_state inactive =
            Stays-node u t (hooks.init u w).1 _ at_u (keep.of_init u w ∙ same) (λ n' found saw.
              Stays-if (failed (hooks.init u w).0) _ _ (_, refl, keep.of_init u w ∙ same)
                (
                  _,
                  refl,
                  shapes-put_node u (hooks.init u w).1 n' _ found refl ∙ (keep.of_init u w ∙ same),
                ))

    cycle_unit-Stays :
        (rank : ℕ → ℕ) (wired : IsWired v rank) (type : CycleType) (fuel u : ℕ) (t : Shape)
        (w : World F)
        → get_elem? v u ≡ some t
        → Takes t 0
        → shapes w ≡ v
        → rank u < fuel
        → Stays v (cycle_unit ops hooks type fuel u w)
    unfolding cycle_unit
    cycle_unit-Stays rank wired ac fuel u t w at_u takes same enough =
        Stays-node u t w _ at_u same (λ n found saw.
          Stays-if (n.line_profile.state ==ℤ LineState.flushing) _ _ (_, refl, same)
            (_, refl, keep.of_cycle u w ∙ same))
    cycle_unit-Stays rank wired sync fuel u t w at_u takes same enough =
        sync_source-Stays rank wired fuel u t w at_u takes same enough
    cycle_unit-Stays rank wired warmup fuel u t w at_u takes same enough =
        warmup_unit-Stays u t w at_u same

    -- Past the `switch`.
    passed-Stays :
        (rank : ℕ → ℕ) (fuel u : ℕ) (t : Shape) (type : CycleType)
        → get_elem? v u ≡ some t
        → LinksOk v rank (rank u) t.outputs
        → CallStays rank (rank u) (cycle_line ops hooks fuel type)
        → (c : Cycled) (w : World F) → shapes w ≡ v
        → Stays v (elim c [
          | thrown e ↦ some (thrown e, w)
          | returned state ↦
              if failed state
              then some (returned state, w)
              else (node_at u w >>= λ n.
                  cycle_outputs (cycle_line ops hooks fuel type) state n.ports.outputs w)
        ])
    passed-Stays rank fuel u t type at_u links stays (thrown e) w same = (_, refl, same)
    passed-Stays rank fuel u t type at_u links stays (returned state) w same =
        Stays-if (failed state) _ _ (_, refl, same)
          (Stays-node u t w _ at_u same (λ n found saw.
            cycle_outputs-Stays rank (rank u) (cycle_line ops hooks fuel type) state n.ports.outputs
              w stays (rw (ap (λ s. s.outputs) saw) links) same))

    -- Along lines without cycles a cycle of any type ends, whatever units do, with more fuel than the
    -- rank of its first unit: it reads past no array, follows no null pointer and leaves the wiring
    -- alone, where every link leads to a unit that can take a sync and the hooks leave the wiring
    -- alone.
    pub cycle_line-Stays :
        (rank : ℕ → ℕ) (wired : IsWired v rank) (type : CycleType) (fuel u : ℕ) (t : Shape)
        (w : World F)
        → get_elem? v u ≡ some t
        → Takes t 0
        → shapes w ≡ v
        → rank u < fuel
        → Stays v (cycle_line ops hooks fuel type u w)
    unfolding cycle_line CallStays
    cycle_line-Stays rank wired type zero u t w at_u takes same enough = elim enough [ ]
    cycle_line-Stays rank wired type (suc fuel) u t w at_u takes same enough =
        Stays-bind _ _ (cycle_unit-Stays rank wired type (suc fuel) u t w at_u takes same enough) (
          passed-Stays rank fuel u t type at_u (wired u t at_u) (λ o ok w' same'.
            cycle_line-Stays rank wired type fuel ok.target ok.shape w' ok.at_target
              (record { fits = λ e. omega (arith, ok.fits e); racked = ok.racked }) same'
              (omega (arith, ok.lower, enough))))
