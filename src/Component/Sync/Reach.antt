-- ===== src/Component/Sync/Reach.antt =====
-- What a line sync makes of the profile, and of its latency and jumps.
use strange_io.Common.{
  ℕ, zero, suc, ◌<◌, ◌≡◌, refl, ap, sym, ◌∙◌, ◌≢◌, Bool, true, false, some, List, [], ◌∷◌, arith,
  if◌then◌else◌, length,
}
use strange_io.Common.Int.{ℤ, pos, ◌+ℤ◌, +ℤ_assoc, +ℤ_zero, pos-add_one}
use strange_io.Component.Profile.{FloatOps, dispatch, Flags, SyncProfile, apply_unit_profile}
use strange_io.Component.Unit.{Node, World, Hooks, node_at}
use strange_io.Component.Sync.{sync_line}
use strange_io.Component.Sync.Line.{
  view, Visits, KeepView, apply_all, behind, unit_step, continue_sync-Visits,
}

module _ {F : Type 0} where
  abbrev pub total_latency : List (SyncProfile F) → ℤ
  total_latency [] = pos 0
  total_latency (p ∷ ps) = p.latency +ℤ total_latency ps

  -- The units a line sync reaches: its source only passes the profile on.
  abbrev pub reached : Bool → SyncProfile F → List (SyncProfile F) → List (SyncProfile F)
  reached source own ps = if source then ps else own ∷ ps

module _ {F : Type 0} (ops : FloatOps F) where
  latency-apply_all :
      (ps : List (SyncProfile F)) (p : SyncProfile F)
      → (apply_all ops ps p).latency ≡ p.latency +ℤ total_latency ps
  unfolding apply_all apply_unit_profile
  latency-apply_all [] p = sym (+ℤ_zero p.latency)
  latency-apply_all (own ∷ ps) p =
      latency-apply_all ps (apply_unit_profile ops own p) ∙ +ℤ_assoc _ _ _

  jumps-apply_all :
      (ps : List (SyncProfile F)) (p : SyncProfile F)
      → (apply_all ops ps p).jumps ≡ p.jumps +ℤ pos (length ps)
  unfolding apply_all apply_unit_profile
  jumps-apply_all [] p = sym (+ℤ_zero p.jumps)
  jumps-apply_all (own ∷ ps) p =
      jumps-apply_all ps (apply_unit_profile ops own p)
      ∙ +ℤ_assoc _ _ _
      ∙ ap (λ k. p.jumps +ℤ k) (pos-add_one (length ps))

  apply_all-reached :
      (source : Bool) (own : SyncProfile F) (ps : List (SyncProfile F)) (p : SyncProfile F)
      → apply_all ops ps (if source then p else apply_unit_profile ops own p)
        ≡ apply_all ops (reached source own ps) p
  unfolding apply_all
  apply_all-reached true own ps p = refl
  apply_all-reached false own ps p = refl

module _ {F : Type 0} (ops : FloatOps F) (hooks : Hooks F) where
  -- A line sync ends with fuel above the number of units below, and applies the profiles of the
  -- units it reaches to the profile, each before those behind it, the branches of a split one after
  -- the other. The sync is neither upstream nor global, no unit on the line is a dispatch unit, and
  -- the hooks leave the types, links and profiles of the units alone.
  pub sync_line-Visits :
      (keep : KeepView ops hooks) (fuel u line : ℕ) (f : Flags) (n : Node F)
      (ps : List (SyncProfile F)) (p : SyncProfile F) (w : World F)
      → f.upstream ≡ false
      → f.glob_sync ≡ false
      → node_at u w ≡ some n
      → n.utype ≢ dispatch
      → Visits (view w) n.ports.outputs ps
      → length ps < fuel
      → (w' : World F) × (sync_line ops hooks fuel u f line p w
          ≡ some (apply_all ops (reached f.source n.unit_profile ps) p, w'))
        × (view w' ≡ view w)
  unfolding apply_all
  sync_line-Visits keep zero u line f n ps p w up gl at_u ne below enough = elim enough [ ]
  sync_line-Visits keep (suc fuel) u line f n ps p w up gl at_u ne below enough =
      let start = if f.source then p else apply_unit_profile ops n.unit_profile p in
      let (w₁, run, kept) =
        continue_sync-Visits ops hooks keep (view w) fuel f n.ports.outputs ps start w up gl refl
          below (omega arith) in
      (
        hooks.resync u (behind f) (apply_all ops ps start) w₁,
        unit_step ops hooks fuel u line f n p (apply_all ops ps start) w w₁ up gl at_u ne run
            ∙ ap (λ q. some (q, hooks.resync u (behind f) (apply_all ops ps start) w₁))
                (apply_all-reached ops f.source n.unit_profile ps p),
        keep u (behind f) (apply_all ops ps start) w₁ ∙ kept,
      )

  -- After a line sync the latency of the profile has grown by the latencies of all units reached,
  -- those of every branch behind a split included, and its jumps by their number. The sync is
  -- neither upstream nor global, no unit on the line is a dispatch unit, the hooks leave the
  -- types, links and profiles of the units alone, and the fuel is above the number of units below.
  pub sync_line-latency :
      (keep : KeepView ops hooks) (fuel u line : ℕ) (f : Flags) (n : Node F)
      (ps : List (SyncProfile F)) (p : SyncProfile F) (w : World F)
      → f.upstream ≡ false
      → f.glob_sync ≡ false
      → node_at u w ≡ some n
      → n.utype ≢ dispatch
      → Visits (view w) n.ports.outputs ps
      → length ps < fuel
      → (r : SyncProfile F × World F) × (sync_line ops hooks fuel u f line p w ≡ some r)
        × (r.0.latency ≡ p.latency +ℤ total_latency (reached f.source n.unit_profile ps))
        × (r.0.jumps ≡ p.jumps +ℤ pos (length (reached f.source n.unit_profile ps)))
  sync_line-latency keep fuel u line f n ps p w up gl at_u ne below enough =
      let (w', run, kept) =
        sync_line-Visits keep fuel u line f n ps p w up gl at_u ne below enough in
      (
        (apply_all ops (reached f.source n.unit_profile ps) p, w'),
        run,
        latency-apply_all ops (reached f.source n.unit_profile ps) p,
        jumps-apply_all ops (reached f.source n.unit_profile ps) p,
      )
