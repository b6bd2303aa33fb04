-- ===== src/Component/Sync/Tests.antt =====
-- A line of four units: one feeds a split, which feeds two others.
use strange_io.Common.{◌≡◌, refl, ◌≢◌, true, false, some, List, [], ◌∷◌, arith}
use strange_io.Common.Int.{ℤ, pos, ◌+ℤ◌}
use strange_io.Component.LineState
use strange_io.Component.Profile.{
  mainline, step, combine, dispatch, Metric, Flags, no_flags, SyncProfile, register_metric,
}
use strange_io.Component.Unit.{Node, World, put_node}
use strange_io.Component.Sync.{sync_line, combine_upstream, all_inactive, continue_sync}
use strange_io.Component.Sync.Line.{view, Visits, into, done, apply_all}
use strange_io.Component.Fixtures.{ints, quiet, delayed, out_to, unit_of}
use strange_io.Component.Sync.FourUnits.{
  line_of_four, rank, split_not_dispatch, step_not_dispatch, line_of_four-IsWired,
}
use strange_io.Component.Sync.Peaks.{peak, sync_line-peaks}
use strange_io.Component.Sync.Reach.{reached, total_latency, sync_line-Visits, sync_line-latency}
use strange_io.Component.Sync.Shape.{shapes, Ends}
use strange_io.Component.Sync.Acyclic.{sync_line-Ends}
use strange_io.Component.Sync.Combine.{combine_upstream-switch}
use strange_io.Component.Sync.Chain.{Chain, next, last, here, Shared}
use strange_io.Component.Sync.Global.{sync_line-AllKeep}

abbrev from_source : Flags
from_source = record no_flags { source = true }

abbrev below : List (SyncProfile ℤ)
below = delayed 1 ∷ delayed 20 ∷ delayed 30 ∷ []

mainline_not_dispatch : mainline ≢ dispatch
mainline_not_dispatch e = cc

Visits-four : Visits (view line_of_four) (out_to 1 ∷ []) below
Visits-four =
    into 1 0 _ refl refl refl split_not_dispatch
      (into 2 0 _ refl refl refl step_not_dispatch done
        (into 3 0 _ refl refl refl step_not_dispatch done done refl) refl)
      done refl

sync_line-Visits_example :
    (w' : World ℤ) × (sync_line ints quiet 4 0 from_source 0 (delayed 0) line_of_four
      ≡ some (apply_all ints (reached true (delayed 5) below) (delayed 0), w'))
    × (view w' ≡ view line_of_four)
sync_line-Visits_example =
    sync_line-Visits ints quiet (λ u f p w. refl) 4 0 0 from_source
      (unit_of mainline (out_to 1 ∷ []) 5) below (delayed 0) line_of_four refl refl refl
      mainline_not_dispatch Visits-four (omega arith)

sync_line-latency_example :
    (r : SyncProfile ℤ × World ℤ) × (sync_line ints quiet 4 0 from_source 0 (delayed 0) line_of_four
      ≡ some r)
    × (r.0.latency ≡ pos 0 +ℤ total_latency (reached true (delayed 5) below))
    × (r.0.jumps ≡ pos 0 +ℤ pos 3)
sync_line-latency_example =
    sync_line-latency ints quiet (λ u f p w. refl) 4 0 0 from_source
      (unit_of mainline (out_to 1 ∷ []) 5) below (delayed 0) line_of_four refl refl refl
      mainline_not_dispatch Visits-four (omega arith)

abbrev combine_on : Node ℤ
combine_on = record (unit_of combine [] 0) {
  global_profile = record (delayed 0) { state = LineState.active };
}

abbrev to_combine : World ℤ
to_combine = record line_of_four { nodes = combine_on ∷ [] }

combine_upstream-switch_example :
    combine_upstream ints quiet (sync_line ints quiet 4) 0 no_flags 1 (delayed 0) to_combine
    ≡ continue_sync (sync_line ints quiet 4) no_flags [] (delayed 0) (
        put_node 0
          (record combine_on {
            input_state = false ∷ false ∷ [];
            unit_profile = register_metric ints Metric.state LineState.inactive (delayed 0);
          })
          to_combine)
unfolding all_inactive
combine_upstream-switch_example =
    combine_upstream-switch ints quiet (sync_line ints quiet 4) 0 no_flags 1 (delayed 0) to_combine
      combine_on refl (omega arith) refl

sync_line-Ends_example :
    Ends (shapes line_of_four) (sync_line ints quiet 4 0 from_source 0 (delayed 0) line_of_four)
sync_line-Ends_example =
    sync_line-Ends ints quiet (λ u f p w. refl) (shapes line_of_four) rank line_of_four-IsWired 4 0
      0 _ from_source (delayed 0) line_of_four refl (record { fits = λ e. cc; racked = λ e. cc })
      refl (omega arith)

sync_line-peaks_example :
    (r : SyncProfile ℤ × World ℤ) × (sync_line ints quiet 4 0 from_source 0 (delayed 0) line_of_four
      ≡ some r)
    × (r.0.period ≡ peak (λ q. q.period) (reached true (delayed 5) below) (pos 0))
    × (r.0.fill ≡ peak (λ q. q.fill) (reached true (delayed 5) below) (pos 0))
sync_line-peaks_example =
    sync_line-peaks ints quiet (λ u f p w. refl) 4 0 0 from_source
      (unit_of mainline (out_to 1 ∷ []) 5) below (delayed 0) line_of_four refl refl refl
      mainline_not_dispatch Visits-four (omega arith) (omega arith) (omega arith)

-- Three units in a row.
abbrev line_of_three : World ℤ
line_of_three = record line_of_four {
  nodes =
      unit_of mainline (out_to 1 ∷ []) 5 ∷ unit_of step (out_to 2 ∷ []) 1 ∷ unit_of step [] 20 ∷ [];
}

abbrev for_all : Flags
for_all = record no_flags { glob_sync = true }

Chain-three : Chain (shapes line_of_three) 0 (0 ∷ 1 ∷ 2 ∷ [])
Chain-three =
    next 0 _ 1 0 (1 ∷ 2 ∷ []) refl tt (here (out_to 1) [] refl refl tt)
      (next 1 _ 2 0 (2 ∷ []) refl tt (here (out_to 2) [] refl refl tt) (last 2 _ refl tt tt))

sync_line-AllKeep_example :
    Shared
      (shapes line_of_three)
      (0 ∷ 1 ∷ 2 ∷ [])
      (sync_line ints quiet 3 0 for_all 0 (delayed 0) line_of_three)
sync_line-AllKeep_example =
    sync_line-AllKeep ints quiet (λ u f p w. refl) (λ u f p w. refl) (shapes line_of_three) for_all
      refl refl (0 ∷ 1 ∷ 2 ∷ []) 0 0 3 (delayed 0) line_of_three Chain-three refl (omega arith)
