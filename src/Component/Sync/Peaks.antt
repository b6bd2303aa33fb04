-- ===== src/Component/Sync/Peaks.antt =====
-- The period and the fill of the profile after a line sync.
use mathlib.Core.List.{foldl}
use strange_io.Common.{
  ℕ, ◌<◌, ◌≡◌, refl, sym, subst, ap, ◌∙◌, ◌≢◌, false, some, List, [], ◌∷◌, arith, if◌then◌else◌,
  ◌&&◌, length,
}
use strange_io.Common.Int.{ℤ, pos, ltb_ℤ, ◌≤ℤ◌}
use strange_io.Component.Profile.{FloatOps, dispatch, Flags, SyncProfile, apply_unit_profile}
use strange_io.Component.Unit.{Node, World, Hooks, node_at}
use strange_io.Component.Sync.{sync_line}
use strange_io.Component.Sync.Line.{view, Visits, KeepView, apply_all}
use strange_io.Component.Sync.Reach.{reached, sync_line-Visits}

abbrev pub max_ℤ : ℤ → ℤ → ℤ
max_ℤ a b = if ltb_ℤ a b then b else a

peak_lem :
    (line unit : ℤ)
    → pos 0 ≤ℤ line
    → (if ltb_ℤ (pos 0) unit && ltb_ℤ line unit then unit else line) ≡ max_ℤ line unit
peak_lem line unit h = ground arith

max_ℤ-nonneg : (line unit : ℤ) → pos 0 ≤ℤ line → pos 0 ≤ℤ max_ℤ line unit
max_ℤ-nonneg line unit h = ground arith

module _ {F : Type 0} where
  abbrev pub peak : (SyncProfile F → ℤ) → List (SyncProfile F) → ℤ → ℤ
  peak f ps start = foldl (λ m q. max_ℤ m (f q)) start ps

module _ {F : Type 0} (ops : FloatOps F) where
  period-apply_all :
      (ps : List (SyncProfile F)) (p : SyncProfile F)
      → pos 0 ≤ℤ p.period
      → (apply_all ops ps p).period ≡ peak (λ q. q.period) ps p.period
  unfolding apply_all apply_unit_profile
  period-apply_all [] p h = refl
  period-apply_all (own ∷ ps) p h =
      let q = apply_unit_profile ops own p in
      let e : q.period ≡ max_ℤ p.period own.period = peak_lem p.period own.period h in
      period-apply_all ps q (subst (λ n. pos 0 ≤ℤ n) (sym e) (max_ℤ-nonneg p.period own.period h))
      ∙ ap (peak (λ r. r.period) ps) e

  fill-apply_all :
      (ps : List (SyncProfile F)) (p : SyncProfile F)
      → pos 0 ≤ℤ p.fill
      → (apply_all ops ps p).fill ≡ peak (λ q. q.fill) ps p.fill
  unfolding apply_all apply_unit_profile
  fill-apply_all [] p h = refl
  fill-apply_all (own ∷ ps) p h =
      let q = apply_unit_profile ops own p in
      let e : q.fill ≡ max_ℤ p.fill own.fill = peak_lem p.fill own.fill h in
      fill-apply_all ps q (subst (λ n. pos 0 ≤ℤ n) (sym e) (max_ℤ-nonneg p.fill own.fill h))
      ∙ ap (peak (λ r. r.fill) ps) e

module _ {F : Type 0} (ops : FloatOps F) (hooks : Hooks F) where
  -- After a line sync that starts with a period and a fill of at least 0, they are the largest of
  -- those it started with and those of the units it reached. The sync is neither upstream nor
  -- global, no unit on the line is a dispatch unit, the hooks leave the types, links and
  -- profiles of the units alone, and the fuel is above the number of units below.
  pub sync_line-peaks :
      (keep : KeepView ops hooks) (fuel u line : ℕ) (f : Flags) (n : Node F)
      (ps : List (SyncProfile F)) (p : SyncProfile F) (w : World F)
      → f.upstream ≡ false
      → f.glob_sync ≡ false
      → node_at u w ≡ some n
      → n.utype ≢ dispatch
      → Visits (view w) n.ports.outputs ps
      → length ps < fuel
      → pos 0 ≤ℤ p.period
      → pos 0 ≤ℤ p.fill
      → (r : SyncProfile F × World F) × (sync_line ops hooks fuel u f line p w ≡ some r)
        × (r.0.period ≡ peak (λ q. q.period) (reached f.source n.unit_profile ps) p.period)
        × (r.0.fill ≡ peak (λ q. q.fill) (reached f.source n.unit_profile ps) p.fill)
  sync_line-peaks keep fuel u line f n ps p w up gl at_u ne below enough period fill =
      let (w', run, kept) =
        sync_line-Visits ops hooks keep fuel u line f n ps p w up gl at_u ne below enough in
      (
        (apply_all ops (reached f.source n.unit_profile ps) p, w'),
        run,
        period-apply_all ops (reached f.source n.unit_profile ps) p period,
        fill-apply_all ops (reached f.source n.unit_profile ps) p fill,
      )
