-- ===== src/Component/Sync/Total.antt =====
-- Each class's `sync_line` on units whose links lead to units of lower rank.
use strange_io.Common.{
  ℕ, ◌<◌, ◌≡◌, refl, ap, ◌∙◌, Bool, true, false, not, ◌&&◌, some, List, get_elem?, set, length,
  ◌>>◌, require, length-set, if◌then◌else◌, lt→ltb,
}
use strange_io.Common.Int.{◌==ℤ◌}
use strange_io.Component.LineState
use strange_io.Component.Profile.{Metric, register_metric, no_flags, Flags, SyncProfile, FloatOps}
use strange_io.Component.Unit.{Node, World, Hooks, node_at, put_node, trigger_sync, trigger_cycle}
use strange_io.Component.Sync.{
  SyncCall, all_inactive, continue_sync, unit_glob_sync, own_upstream_sync, unit_upstream_sync,
  unit_line_sync, unit_sync, mainline_sync, combine_upstream, combine_sync, dispatch_upstream,
  dispatch_sync,
}
use strange_io.Component.Sync.Shape.{
  Shape, LinksOk, shape_of, shapes, Ends, KeepShape, Ends-bind, Ends-if, Ends-require, Ends-node,
  shapes-put_node, CallEnds, continue_sync-Ends,
}

module _ {F : Type 0} (ops : FloatOps F) (hooks : Hooks F) (keep : KeepShape hooks) where
  module _ (v : List Shape) (rank : ℕ → ℕ) (call : SyncCall F) (u : ℕ) (t : Shape)
      (ends : CallEnds v rank (rank u) call) (at_u : get_elem? v u ≡ some t)
      (links : LinksOk v rank (rank u) t.outputs) where
    continue-Ends :
        (f : Flags) (n : Node F) (p : SyncProfile F) (w : World F)
        → shape_of n ≡ t
        → shapes w ≡ v
        → Ends v (continue_sync call f n.ports.outputs p w)
    continue-Ends f n p w saw same =
        continue_sync-Ends v rank (rank u) call f n.ports.outputs p w ends
          (rw (ap (λ s. s.outputs) saw) links) same

    -- An update of the unit, with its hook run or not.
    put-Ends :
        (w : World F) (n n' : Node F)
        → node_at u w ≡ some n
        → shape_of n' ≡ shape_of n
        → shapes w ≡ v
        → shapes (put_node u n' w) ≡ v
    put-Ends w n n' found s same = shapes-put_node u w n n' found s ∙ same

    unit_line_sync-Ends :
        (f : Flags) (p : SyncProfile F) (w : World F)
        → shapes w ≡ v
        → Ends v (unit_line_sync ops hooks call u f p w)
    unfolding unit_line_sync
    unit_line_sync-Ends f p w same = Ends-node u w t _ same at_u (λ n found saw.
        Ends-bind _ _ (continue-Ends _ n _ w saw same)
          (λ p' w' same'. ((p', _), refl, keep u _ _ w' ∙ same')))

    unit_glob_sync-Ends :
        (f : Flags) (p : SyncProfile F) (w : World F)
        → shapes w ≡ v
        → Ends v (unit_glob_sync ops hooks call u f p w)
    unfolding unit_glob_sync
    unit_glob_sync-Ends f p w same = Ends-node u w t _ same at_u (λ n found saw.
        Ends-bind _ _ (continue-Ends f n _ w saw same) (λ p' w' same'.
          Ends-node u w' t _ same' at_u
            (λ n' found' saw'. ((p', _), refl, keep u f _ _ ∙ put-Ends w' n' _ found' refl same'))))

    own_upstream_sync-Ends :
        (f : Flags) (p : SyncProfile F) (n : Node F) (w : World F)
        → node_at u w ≡ some n
        → shapes w ≡ v
        → Ends v (own_upstream_sync ops hooks call u f p n w)
    unfolding own_upstream_sync
    own_upstream_sync-Ends f p n w found same =
        let after = hooks.resync u f p (put_node u (record n { upstream = false }) w) in
        let kept : shapes after ≡ v = keep u f _ _ ∙ put-Ends w n _ found refl same in
        Ends-node u after t _ kept at_u (λ n' found' saw'.
          Ends-bind _ _ (continue-Ends f n' _ after saw' kept) (λ own w' same'.
            Ends-node u w' t _ same' at_u
              (λ n'' found'' saw''. ((p, _), refl, put-Ends w' n'' _ found'' refl same'))))

    pub unit_sync-Ends :
        (f : Flags) (p : SyncProfile F) (w : World F)
        → shapes w ≡ v
        → Ends v (unit_sync ops hooks call u f p w)
    unfolding unit_sync unit_upstream_sync
    unit_sync-Ends f p w same =
        Ends-if f.glob_sync _ _ (λ g. unit_glob_sync-Ends f p w same)
          (λ g.
            Ends-if f.upstream _ _
              (λ up. Ends-node u w t _ same at_u (λ n found saw.
                Ends-if n.upstream _ _ (λ own. own_upstream_sync-Ends f p n w found same)
                  (λ other. continue-Ends f n p _ saw (put-Ends w n _ found refl same))))
              (λ down. unit_line_sync-Ends f p w same))

    pub mainline_sync-Ends :
        (f : Flags) (p : SyncProfile F) (w : World F)
        → shapes w ≡ v
        → Ends v (mainline_sync ops hooks call u f p w)
    unfolding mainline_sync
    mainline_sync-Ends f p w same =
        Ends-if (not f.upstream) _ _ (λ down. unit_sync-Ends f p w same)
          (λ up. Ends-node u w t _ same at_u (λ n found saw.
            let kept = resynced f n p w n.upstream found same in
            let after =
              if n.upstream
              then hooks.resync u f p (put_node u (record n { upstream = false }) w)
              else w in
            Ends-node u after t _ kept at_u
              (λ n' found' saw'. continue-Ends f n' _ after saw' kept)))
      where
        resynced :
            (f : Flags) (n : Node F) (p : SyncProfile F) (w : World F) (own : Bool)
            → node_at u w ≡ some n
            → shapes w ≡ v
            → shapes (
                if own
                then hooks.resync u f p (put_node u (record n { upstream = false }) w)
                else w)
              ≡ v
        resynced f n p w true found same = keep u f _ _ ∙ put-Ends w n _ found refl same
        resynced f n p w false found same = same

    switched :
        (n : Node F) (line : ℕ) (on : Bool) (own : SyncProfile F)
        → shape_of (record n { input_state = set n.input_state line on; unit_profile = own })
          ≡ shape_of n
    switched n line on own = rw (length-set n.input_state line on)

    combine_upstream-Ends :
        (f : Flags) (line : ℕ) (p : SyncProfile F) (w : World F)
        → line < t.inputs
        → shapes w ≡ v
        → Ends v (combine_upstream ops hooks call u f line p w)
    unfolding combine_upstream
    combine_upstream-Ends f line p w fits same = Ends-node u w t _ same at_u (λ n found saw.
        let on = p.state ==ℤ LineState.active in
        let inputs = set n.input_state line on in
        let state = if on then LineState.active else LineState.inactive in
        let marked = record n {
          input_state = inputs;
          unit_profile = register_metric ops Metric.state state n.unit_profile;
        } in
        let unmarked = record n { input_state = inputs } in
        rw (lt→ltb line (length n.input_state) (rw (ap (λ s. s.inputs) saw) fits)) (
          Ends-if
            (if on
              then n.global_profile.state ==ℤ LineState.inactive
              else ((n.global_profile.state ==ℤ LineState.active) && all_inactive inputs))
            (continue_sync call f n.ports.outputs p (put_node u marked w))
            (some (p, put_node u unmarked w))
            (λ flips.
              continue-Ends f n p (put_node u marked w) saw
                (put-Ends w n marked found (switched n line on marked.unit_profile) same))
            (λ stays. (
              (p, put_node u unmarked w),
              refl,
              put-Ends w n unmarked found (switched n line on n.unit_profile) same,
            ))))

    pub combine_sync-Ends :
        (f : Flags) (line : ℕ) (p : SyncProfile F) (w : World F)
        → line < t.inputs
        → shapes w ≡ v
        → Ends v (combine_sync ops hooks call u f line p w)
    unfolding combine_sync
    combine_sync-Ends f line p w fits same =
        Ends-if f.upstream _ _ (λ up. combine_upstream-Ends f line p w fits same)
          (λ down. unit_sync-Ends f p w same)

    dispatch_upstream-Ends :
        (p : SyncProfile F) (w : World F)
        → t.has_rack ≡ true
        → shapes w ≡ v
        → Ends v (dispatch_upstream ops hooks call u p w)
    unfolding dispatch_upstream trigger_sync trigger_cycle
    dispatch_upstream-Ends p w racked same = Ends-node u w t _ same at_u (λ n found saw.
        let marked = record n {
          unit_profile = register_metric ops Metric.state p.state n.unit_profile;
        } in
        let w' = put_node u marked w in
        let asked =
          if n.has_rack then trigger_sync (record no_flags { glob_sync = true }) w' else w' in
        let kept : shapes asked ≡ v =
          triggered n.has_rack w' ∙ put-Ends w n marked found refl same in
        Ends-if (p.state ==ℤ n.global_profile.state) (some (p, w))
          (if not (p.state ==ℤ LineState.active)
            then some (p, asked)
            else (require n.has_rack >> some (p, trigger_cycle asked)))
          (λ e. ((p, w), refl, same))
          (λ e.
            Ends-if (not (p.state ==ℤ LineState.active)) (some (p, asked))
              (require n.has_rack >> some (p, trigger_cycle asked))
              (λ idle. ((p, asked), refl, kept))
              (λ on.
                Ends-require n.has_rack (some (p, trigger_cycle asked))
                  (ap (λ s. s.has_rack) saw ∙ racked) ((p, trigger_cycle asked), refl, kept))))
      where
        triggered :
            (b : Bool) (w : World F)
            → shapes (if b then trigger_sync (record no_flags { glob_sync = true }) w else w)
              ≡ shapes w
        triggered true w = refl
        triggered false w = refl

    pub dispatch_sync-Ends :
        (f : Flags) (p : SyncProfile F) (w : World F)
        → t.has_rack ≡ true
        → shapes w ≡ v
        → Ends v (dispatch_sync ops hooks call u f p w)
    unfolding dispatch_sync
    dispatch_sync-Ends f p w racked same =
        Ends-if f.upstream _ _ (λ up. dispatch_upstream-Ends p w racked same)
          (λ down. Ends-node u w t _ same at_u (λ n found saw. unit_sync-Ends f _ w same))
