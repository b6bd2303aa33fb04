-- ===== src/Component/Sync/Line.antt =====
-- A line sync from a source: which units it reaches, in which order, and what it makes of the profile.
use mathlib.Core.List.{foldl}
use strange_io.Common.{
  ℕ, zero, suc, ◌+◌, ◌≤◌, ◌≡◌, refl, ap, sym, ◌∙◌, ◌≢◌, true, false, some, List, [], ◌∷◌, ◌++◌, map,
  arith, if◌then◌else◌, get_elem?, length, length-append,
}
use strange_io.Component.Linkable.{LinkOut}
use strange_io.Component.Profile.{
  FloatOps, UnitType, dispatch, Flags, SyncProfile, apply_unit_profile,
}
use strange_io.Component.Unit.{Node, World, Hooks, node_at}
use strange_io.Component.Sync.{
  SyncCall, continue_sync, sync_line, unit_sync, unit_line_sync, mainline_sync, combine_sync,
}

-- What a line sync reads of a unit.
pub record Seen (F : Type 0) : Type 0 where
  pub utype : UnitType
  pub outputs : List LinkOut
  pub unit_profile : SyncProfile F

module _ {F : Type 0} where
  abbrev pub seen : Node F → Seen F
  seen n = record { utype = n.utype; outputs = n.ports.outputs; unit_profile = n.unit_profile }

  abbrev pub view : World F → List (Seen F)
  view w = map seen w.nodes

  -- The profiles of the units below some outputs, each unit before what lies behind it. None of
  -- them is a dispatch unit, which sets the state of the profile.
  pub data Visits (v : List (Seen F)) : List LinkOut → List (SyncProfile F) → Type 0 where
    done : Visits v [] []
    skip :
        {o : LinkOut} {os : List LinkOut} {ps : List (SyncProfile F)}
        → o.connected ≡ false
        → Visits v os ps
        → Visits v (o ∷ os) ps
    into :
        {o : LinkOut} {os : List LinkOut} {qs rs all : List (SyncProfile F)} (u input : ℕ)
        (t : Seen F)
        → o.connected ≡ true
        → o.to ≡ some (u, input)
        → get_elem? v u ≡ some t
        → t.utype ≢ dispatch
        → Visits v t.outputs qs
        → Visits v os rs
        → all ≡ t.unit_profile ∷ qs ++ rs
        → Visits v (o ∷ os) all

  node_at-seen :
      (w : World F) (u : ℕ) (t : Seen F)
      → get_elem? (view w) u ≡ some t
      → (n : Node F) × (node_at u w ≡ some n) × (seen n ≡ t)
  node_at-seen w u t e = find w.nodes u e
    where
      find :
          (ns : List (Node F)) (u : ℕ)
          → get_elem? (map seen ns) u ≡ some t
          → (n : Node F) × (get_elem? ns u ≡ some n) × (seen n ≡ t)
      find [] u e = cc
      find (n ∷ ns) zero e = (n, refl, cc)
      find (n ∷ ns) (suc u) e = find ns u e

-- The flags behind the source of a line sync.
abbrev pub behind : Flags → Flags
behind f = record f { source = false }

module _ {F : Type 0} (ops : FloatOps F) where
  unfoldable pub apply_all : List (SyncProfile F) → SyncProfile F → SyncProfile F
  apply_all ps p = foldl (λ q own. apply_unit_profile ops own q) p ps

  apply_all-append :
      (ps qs : List (SyncProfile F)) (p : SyncProfile F)
      → apply_all (ps ++ qs) p ≡ apply_all qs (apply_all ps p)
  unfolding apply_all
  apply_all-append [] qs p = refl
  apply_all-append (own ∷ ps) qs p = apply_all-append ps qs (apply_unit_profile ops own p)

module _ {F : Type 0} (ops : FloatOps F) (hooks : Hooks F) where
  -- The hooks leave links and profiles alone.
  abbrev pub KeepView : Type 0
  KeepView =
      (u : ℕ) (f : Flags) (p : SyncProfile F) (w : World F) → view (hooks.resync u f p w) ≡ view w

  -- A unit that is no dispatch handles a line sync as `unit` does.
  sync_line-plain :
      (fuel u line : ℕ) (p : SyncProfile F) (w : World F) (n : Node F) (f : Flags)
      → f.upstream ≡ false
      → f.glob_sync ≡ false
      → node_at u w ≡ some n
      → n.utype ≢ dispatch
      → sync_line ops hooks (suc fuel) u f line p w
        ≡ unit_line_sync ops hooks (sync_line ops hooks fuel) u f p w
  unfolding sync_line unit_sync mainline_sync combine_sync
  sync_line-plain fuel u line p w n f up gl e ne = ground arith

  -- A run of `continue_sync` over outputs below which the units have the profiles `ps`.
  abbrev pub Runs :
      ℕ → Flags → List LinkOut → List (SyncProfile F) → SyncProfile F → World F → Type 0
  Runs fuel f outs ps p w =
      (w' : World F) × (continue_sync (sync_line ops hooks fuel) f outs p w
        ≡ some (apply_all ops ps p, w'))
      × (view w' ≡ view w)

  pub unit_step :
      (fuel u line : ℕ) (f : Flags) (n : Node F) (p p' : SyncProfile F) (w w' : World F)
      → f.upstream ≡ false
      → f.glob_sync ≡ false
      → node_at u w ≡ some n
      → n.utype ≢ dispatch
      → continue_sync
          (sync_line ops hooks fuel)
          (behind f)
          n.ports.outputs
          (if f.source then p else apply_unit_profile ops n.unit_profile p)
          w
        ≡ some (p', w')
      → sync_line ops hooks (suc fuel) u f line p w ≡ some (p', hooks.resync u (behind f) p' w')
  unfolding unit_line_sync
  unit_step fuel u line f n p p' w w' up gl found ne run =
      rw (sync_line-plain fuel u line p w n f up gl found ne, found, run)

  continue_sync-off :
      (call : SyncCall F) (f : Flags) (o : LinkOut) (os : List LinkOut) (p : SyncProfile F)
      (w : World F)
      → o.connected ≡ false
      → continue_sync call f (o ∷ os) p w ≡ continue_sync call f os p w
  unfolding continue_sync
  continue_sync-off call f o os p w off = rw off

  continue_sync-on :
      (call : SyncCall F) (f : Flags) (o : LinkOut) (os : List LinkOut) (p p' : SyncProfile F)
      (w w' : World F) (u input : ℕ)
      → o.connected ≡ true
      → o.to ≡ some (u, input)
      → call u f input p w ≡ some (p', w')
      → continue_sync call f (o ∷ os) p w ≡ continue_sync call f os p' w'
  unfolding continue_sync
  continue_sync-on call f o os p p' w w' u input on to run = rw (on, to, run)

  -- One output: the unit behind it and what lies below, then the outputs after it.
  run_into :
      (keep : KeepView) (fuel : ℕ) (f : Flags) (o : LinkOut) (os : List LinkOut) (p : SyncProfile F)
      (w : World F) (u input : ℕ) (t : Seen F) (qs rs all : List (SyncProfile F))
      → f.upstream ≡ false
      → f.glob_sync ≡ false
      → o.connected ≡ true
      → o.to ≡ some (u, input)
      → get_elem? (view w) u ≡ some t
      → t.utype ≢ dispatch
      → all ≡ t.unit_profile ∷ qs ++ rs
      → Runs fuel (behind f) t.outputs qs (apply_unit_profile ops t.unit_profile p) w
      → ((w' : World F)
          → view w' ≡ view w
          → Runs
              (suc fuel)
              (behind f)
              os
              rs
              (apply_all ops qs (apply_unit_profile ops t.unit_profile p))
              w')
      → Runs (suc fuel) (behind f) (o ∷ os) all p w
  unfolding apply_all
  run_into keep fuel f o os p w u input t qs rs all up gl on to at_u ne eq (w₁, run, kept) rest =
      let (n, found, saw) = node_at-seen w u t at_u in
      let p' = apply_unit_profile ops t.unit_profile p in
      let called =
        unit_step fuel u input (behind f) n p (apply_all ops qs p') w w₁ up gl found
          (λ e. ne (sym (ap (λ s. s.utype) saw) ∙ e))
          (rw (ap (λ s. s.outputs) saw, ap (λ s. s.unit_profile) saw) run) in
      let (w₂, run', kept') =
        rest (hooks.resync u (behind f) (apply_all ops qs p') w₁)
          (keep u (behind f) (apply_all ops qs p') w₁ ∙ kept) in
      (
        w₂,
        continue_sync-on (sync_line ops hooks (suc fuel)) (behind f) o os p (apply_all ops qs p') w
              (hooks.resync u (behind f) (apply_all ops qs p') w₁) u input on to called
            ∙ run'
            ∙ rw (eq, apply_all-append ops qs rs p'),
        kept' ∙ keep u (behind f) (apply_all ops qs p') w₁ ∙ kept,
      )

  pub continue_sync-Visits :
      (keep : KeepView) (v : List (Seen F)) (fuel : ℕ) (f : Flags) (outs : List LinkOut)
      (ps : List (SyncProfile F)) (p : SyncProfile F) (w : World F)
      → f.upstream ≡ false
      → f.glob_sync ≡ false
      → view w ≡ v
      → Visits v outs ps
      → length ps ≤ fuel
      → Runs fuel (behind f) outs ps p w
  unfolding continue_sync apply_all
  continue_sync-Visits keep v fuel f outs ps p w up gl same done enough = (w, refl, refl)
  continue_sync-Visits keep v fuel f outs ps p w up gl same (skip {o} {os} off rest) enough =
      rw (continue_sync-off (sync_line ops hooks fuel) (behind f) o os p w off)
        (continue_sync-Visits keep v fuel f os ps p w up gl same rest enough)
  continue_sync-Visits keep v zero f outs ps p w up gl same
        (into u input t on to at_u ne below rest eq) enough =
      absurd (omega (arith, ap length eq))
  continue_sync-Visits keep v (suc fuel) f outs ps p w up gl same
        (into {o} {os} {qs} {rs} u input t on to at_u ne below rest eq) enough =
      let fits : suc (length qs + length rs) ≤ suc fuel =
        omega (arith, ap length eq, length-append qs rs, enough) in
      run_into keep fuel f o os p w u input t qs rs ps up gl on to (rw same at_u) ne eq
        (continue_sync-Visits keep v fuel f t.outputs qs (apply_unit_profile ops t.unit_profile p) w
          up gl same below (omega arith))
        (λ w' kept.
          continue_sync-Visits keep v (suc fuel) f os rs
            (apply_all ops qs (apply_unit_profile ops t.unit_profile p)) w' up gl (kept ∙ same) rest
            (omega arith))
