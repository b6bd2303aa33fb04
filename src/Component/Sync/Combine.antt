-- ===== src/Component/Sync/Combine.antt =====
-- The upstream syncs of `combine` (framework/spec/combine.cpp) against what the unit is for: its
-- line is active while one of its inputs is.
use strange_io.Common.{
  ℕ, zero, suc, ◌<◌, ◌≡◌, refl, ap, ◌∙◌, Bool, true, false, not, ◌&&◌, some, List, [], ◌∷◌, arith,
  lt→ltb, if◌then◌else◌, set, length,
}
use strange_io.Common.Int.{ℤ, ◌==ℤ◌}
use strange_io.Component.LineState
use strange_io.Component.Profile.{FloatOps, Metric, Flags, SyncProfile, register_metric}
use strange_io.Component.Unit.{Node, World, Hooks, node_at, put_node}
use strange_io.Component.Sync.{SyncCall, all_inactive, continue_sync, combine_upstream}

-- Whether an input is active.
abbrev pub active_inputs : List Bool → Bool
active_inputs [] = false
active_inputs (true ∷ rest) = true
active_inputs (false ∷ rest) = active_inputs rest

-- The loop of the code says that none is.
all_inactive-not : (xs : List Bool) → all_inactive xs ≡ not (active_inputs xs)
unfolding all_inactive
all_inactive-not [] = refl
all_inactive-not (true ∷ xs) = refl
all_inactive-not (false ∷ xs) = all_inactive-not xs

abbrev pub line_state : Bool → ℤ
line_state on = if on then LineState.active else LineState.inactive

active_inputs-set-true :
    (xs : List Bool) (i : ℕ) → i < length xs → active_inputs (set xs i true) ≡ true
active_inputs-set-true [] i h = elim h [ ]
active_inputs-set-true (x ∷ xs) zero h = refl
active_inputs-set-true (true ∷ xs) (suc i) h = refl
active_inputs-set-true (false ∷ xs) (suc i) h = active_inputs-set-true xs i (omega arith)

active_inputs-set-false :
    (xs : List Bool) (i : ℕ) → active_inputs xs ≡ false → active_inputs (set xs i false) ≡ false
active_inputs-set-false [] i h = refl
active_inputs-set-false (true ∷ xs) i h = cc
active_inputs-set-false (false ∷ xs) zero h = h
active_inputs-set-false (false ∷ xs) (suc i) h = active_inputs-set-false xs i h

-- Whether an input is active is the same before and after.
abbrev pub unchanged : Bool → Bool → Bool
unchanged before after = if before then after else not after

-- What the code tests, and what it marks the unit with, `after` said of the inputs after the switch.
switch_lem {ℓ} :
    {A : Type ℓ} (before after on : Bool) (g : ℤ) (stay : A) (go : ℤ → A)
    → g ≡ line_state before
    → (on ≡ true → after ≡ true)
    → (on ≡ false → before ≡ false → after ≡ false)
    → (if (if on then g ==ℤ LineState.inactive else ((g ==ℤ LineState.active) && not after))
        then go (if on then LineState.active else LineState.inactive)
        else stay)
      ≡ (if unchanged before after then stay else go (line_state after))
switch_lem true false true g stay go e h k = cc (h refl)
switch_lem true false false g stay go e h k = rw e
switch_lem true true true g stay go e h k = rw e
switch_lem true true false g stay go e h k = rw e
switch_lem false false true g stay go e h k = cc (h refl)
switch_lem false false false g stay go e h k = rw e
switch_lem false true true g stay go e h k = rw e
switch_lem false true false g stay go e h k = cc (k refl refl)

module _ {F : Type 0} (ops : FloatOps F) (hooks : Hooks F) (call : SyncCall F) where
  -- Where the line of a combine unit is active exactly if one of its inputs is, an upstream sync
  -- records whether its input is active, and goes on, with the unit marked by what the line is
  -- then, exactly if that changed whether any input is active.
  pub combine_upstream-switch :
      (u : ℕ) (flags : Flags) (line : ℕ) (profile : SyncProfile F) (w : World F) (n : Node F)
      → node_at u w ≡ some n
      → line < length n.input_state
      → n.global_profile.state ≡ line_state (active_inputs n.input_state)
      → let on = profile.state ==ℤ LineState.active in
        let inputs = set n.input_state line on in
        let after = active_inputs inputs in
        combine_upstream ops hooks call u flags line profile w ≡ (
          if unchanged (active_inputs n.input_state) after
          then some (profile, put_node u (record n { input_state = inputs }) w)
          else continue_sync call flags n.ports.outputs profile (
              put_node u
                (record n {
                  input_state = inputs;
                  unit_profile = register_metric ops Metric.state (line_state after) n.unit_profile;
                })
                w))
  unfolding combine_upstream
  combine_upstream-switch u flags line profile w n found fits line_is =
      let on = profile.state ==ℤ LineState.active in
      let inputs = set n.input_state line on in
      rw (found, lt→ltb _ _ fits, all_inactive-not inputs)
        (switch_lem (active_inputs n.input_state) (active_inputs inputs) on n.global_profile.state
          (some (profile, put_node u (record n { input_state = inputs }) w))
          (λ s. continue_sync call flags n.ports.outputs profile (
            put_node u
              (record n {
                input_state = inputs;
                unit_profile = register_metric ops Metric.state s n.unit_profile;
              })
              w))
          line_is
          (λ e.
            ap (λ b. active_inputs (set n.input_state line b)) e
            ∙ active_inputs-set-true n.input_state line fits)
          (λ e off.
            ap (λ b. active_inputs (set n.input_state line b)) e
            ∙ active_inputs-set-false n.input_state line off))
