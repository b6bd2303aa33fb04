-- ===== src/Component/Cycle/Tests.antt =====
-- Cycles along the line of four units, none of which is active.
use strange_io.Common.{refl, arith, map}
use strange_io.Common.Int.{ℤ}
use strange_io.Component.Profile.{inactive, warmup, ac}
use strange_io.Component.Unit.{Node, World}
use strange_io.Component.Fixtures.{ints, quiet}
use strange_io.Component.Sync.Shape.{shapes}
use strange_io.Component.Sync.FourUnits.{line_of_four, rank, line_of_four-IsWired}
use strange_io.Component.Cycle.{cycle_line}
use strange_io.Component.Cycle.Initial.{InitKeeps, Warms}
use strange_io.Component.Cycle.Warmup.{AllReached, cycle_line-AllReached}
use strange_io.Component.Cycle.Total.{HooksKeep, Stays, cycle_line-Stays}

abbrev cold : Node ℤ → Node ℤ
cold n = record n { cstate = inactive }

abbrev cold_four : World ℤ
cold_four = record line_of_four { nodes = map cold line_of_four.nodes }

quiet-InitKeeps : InitKeeps quiet
quiet-InitKeeps = record {
  completes = λ u w. refl;
  same_shapes = λ u w. refl;
  same_states = λ u w. refl;
}

quiet-HooksKeep : HooksKeep quiet
quiet-HooksKeep = record {
  of_cycle = λ u w. refl;
  of_init = λ u w. refl;
  of_resync = λ u f p w. refl;
}

cycle_line-AllReached_example :
    Warms
      (shapes line_of_four)
      cold_four
      (cycle_line ints quiet 4 warmup 0 cold_four)
      (AllReached (shapes line_of_four) 0)
cycle_line-AllReached_example =
    cycle_line-AllReached ints quiet quiet-InitKeeps (shapes line_of_four) rank line_of_four-IsWired
      4 0 _ cold_four refl refl (omega arith)

cycle_line-Stays_example : Stays (shapes line_of_four) (cycle_line ints quiet 4 ac 0 cold_four)
cycle_line-Stays_example =
    cycle_line-Stays ints quiet quiet-HooksKeep (shapes line_of_four) rank line_of_four-IsWired ac 4
      0 _ cold_four refl (record { fits = λ e. cc; racked = λ e. cc }) refl (omega arith)
