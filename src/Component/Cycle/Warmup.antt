-- ===== src/Component/Cycle/Warmup.antt =====
-- A warm-up cycle along a line: `unit::cycle_line` (framework/component/unit.cpp) with
-- `cycle_type::warmup`.
use strange_io.Common.{
  ℕ, zero, suc, ◌<◌, ◌≡◌, refl, sym, ap, ◌∙◌, subst, inl, inr, true, Option, some, List, [], ◌∷◌,
  Bool-cases, arith, get_elem?, some_inj,
}
use strange_io.Component.Linkable.{LinkOut}
use strange_io.Component.Profile.{FloatOps, complete, warmup}
use strange_io.Component.Unit.{Cycled, World, Hooks}
use strange_io.Component.Cycle.{cycle_outputs, cycle_unit, cycle_line}
use strange_io.Component.Sync.Shape.{Shape, LinkOk, LinksOk, link, IsWired, shapes}
use strange_io.Component.Cycle.Initial.{Active, Grows, InitKeeps, Warms, node_of, warmup_unit-Warms}

-- Unit `x` is the one given, or behind a connected output of it.
pub data Reaches (v : List Shape) (x : ℕ) : ℕ → Type 0 where
  itself : (u : ℕ) → u ≡ x → Reaches v x u
  behind :
      (u : ℕ) (t : Shape) (k : ℕ) (o : LinkOut) (target input : ℕ)
      → get_elem? v u ≡ some t
      → get_elem? t.outputs k ≡ some o
      → o.connected ≡ true
      → o.to ≡ some (target, input)
      → Reaches v x target
      → Reaches v x u

target_of : {p q : ℕ × ℕ} → some p ≡ some q → p.0 ≡ q.0
target_of e = ap (λ p. p.0) (some_inj e)

module _ {F : Type 0} where
  -- What a unit behind one of these outputs comes to.
  abbrev Behind : List Shape → List LinkOut → World F → Type 0
  Behind v os w =
      (x k : ℕ) (o : LinkOut) (target input : ℕ)
      → get_elem? os k ≡ some o
      → o.connected ≡ true
      → o.to ≡ some (target, input)
      → Reaches v x target
      → Active x w

  -- Every unit that the line from `u` reaches is active.
  abbrev pub AllReached : List Shape → ℕ → World F → Type 0
  AllReached v u w = (x : ℕ) → Reaches v x u → Active x w

  module _ (ops : FloatOps F) (hooks : Hooks F) (keeps : InitKeeps hooks) (v : List Shape) where
    -- The call at the target of a connected output.
    abbrev CallWarms : (ℕ → ℕ) → ℕ → (ℕ → World F → Option (Cycled × World F)) → Type 0
    CallWarms rank r call =
        (o : LinkOut) (ok : LinkOk v rank r o) (w : World F)
        → shapes w ≡ v
        → Warms v w (call ok.target w) (AllReached v ok.target)

    Behind-cons :
        (o : LinkOut) (os : List LinkOut) (w : World F)
        → ((x target input : ℕ)
            → o.connected ≡ true
            → o.to ≡ some (target, input)
            → Reaches v x target
            → Active x w)
        → Behind v os w
        → Behind v (o ∷ os) w
    Behind-cons o os w here rest x zero o' target input e on to r =
        let same : o ≡ o' = some_inj e in
        here x target input (ap (λ z. z.connected) same ∙ on) (ap (λ z. z.to) same ∙ to) r
    Behind-cons o os w here rest x (suc k) o' target input e on to r =
        rest x k o' target input e on to r

    cycle_outputs-Warms :
        (rank : ℕ → ℕ) (r : ℕ) (call : ℕ → World F → Option (Cycled × World F)) (os : List LinkOut)
        (w : World F)
        → CallWarms rank r call
        → LinksOk v rank r os
        → shapes w ≡ v
        → Warms v w (cycle_outputs call complete os w) (Behind v os)
    unfolding cycle_outputs
    cycle_outputs-Warms rank r call [] w warms ok same =
        (w, refl, same, λ x on. on, λ x k o target input e on to reach. cc)
    cycle_outputs-Warms rank r call (o ∷ os) w warms (link ok rest) same =
        elim (Bool-cases o.connected) [
          | inr off ↦
              let (w', runs, shaped, grows, behind_os) =
                cycle_outputs-Warms rank r call os w warms rest same in
              (
                w',
                rw off runs,
                shaped,
                grows,
                Behind-cons o os w' (λ x target input on to reach. cc) behind_os,
              )
          | inl on ↦
              let here = ok on in
              let (w₁, runs₁, shaped₁, grows₁, all₁) = warms o here w same in
              let (w', runs, shaped, grows, behind_os) =
                cycle_outputs-Warms rank r call os w₁ warms rest shaped₁ in
              (
                w',
                rw (on, here.to, runs₁) runs,
                shaped,
                λ x act. grows x (grows₁ x act),
                Behind-cons o os w'
                    (λ x target input on' to reach.
                      let same_target : here.target ≡ target = target_of (sym here.to ∙ to) in
                      grows x (all₁ x (subst (λ y. Reaches v x y) (sym same_target) reach)))
                    behind_os,
              )
        ]

    AllReached-of :
        (u : ℕ) (t : Shape) (w w' : World F)
        → get_elem? v u ≡ some t
        → Active u w
        → Grows w w'
        → Behind v t.outputs w'
        → AllReached v u w'
    AllReached-of u t w w' at_u on grows outs x (itself u' e) =
        subst (λ y. Active y w') e (grows u on)
    AllReached-of u t w w' at_u on grows outs x (behind u' t' k o target input e at c to reach) =
        let same : t' ≡ t = some_inj (sym e ∙ at_u) in
        outs x k o target input (subst (λ s. get_elem? s.outputs k ≡ some o) same at) c to reach

    -- Along lines without cycles a warm-up cycle completes, with more fuel than the rank of its
    -- first unit, where units initialise without a failure and leave wiring and states alone; then
    -- every unit that the line reaches is active, and so is each that was.
    pub cycle_line-AllReached :
        (rank : ℕ → ℕ) (wired : IsWired v rank) (fuel u : ℕ) (t : Shape) (w : World F)
        → get_elem? v u ≡ some t
        → shapes w ≡ v
        → rank u < fuel
        → Warms v w (cycle_line ops hooks fuel warmup u w) (AllReached v u)
    unfolding cycle_line cycle_unit
    cycle_line-AllReached rank wired zero u t w at_u same enough = elim enough [ ]
    cycle_line-AllReached rank wired (suc fuel) u t w at_u same enough =
        let (w₁, runs₁, shaped₁, grows₁, on₁) =
          warmup_unit-Warms ops hooks keeps v u t w at_u same in
        let (n, found, saw) = node_of w₁.nodes u t (rw shaped₁ at_u) in
        let (w', runs, shaped, grows, outs) =
          cycle_outputs-Warms rank (rank u) (cycle_line ops hooks fuel warmup) t.outputs w₁
            (λ o ok w₂ same₂.
              cycle_line-AllReached rank wired fuel ok.target ok.shape w₂ ok.at_target same₂
                (omega (arith, ok.lower, enough)))
            (wired u t at_u) shaped₁ in
        let outputs : n.ports.outputs ≡ t.outputs = ap (λ s. s.outputs) saw in
        (
          w',
          rw (runs₁, found)
              (ap (λ os. cycle_outputs (cycle_line ops hooks fuel warmup) complete os w₁) outputs
                ∙ runs),
          shaped,
          λ x on. grows x (grows₁ x on),
          AllReached-of u t w₁ w' at_u on₁ grows outs,
        )
