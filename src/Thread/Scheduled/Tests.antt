-- ===== src/Thread/Scheduled/Tests.antt =====
-- An object whose thread has begun its function.
use strange_io.Common.{◌≡◌, refl, true}
use strange_io.Common.Int.{pos}
use strange_io.Thread.Scheduled.{
  SchedDesc, Scheduled, starting, new_scheduled, start_scheduled, begin_thread, assign_scheduled,
  end_scheduled, starts, begins,
}
use strange_io.Thread.Scheduled.Life.{
  ScheduledReached, made, went, ending, ending_moved, end_scheduled-ending,
}

abbrev fifo_desc : SchedDesc
fifo_desc = record { policy = pos 1; priority = pos 50; cpu_affinity = pos 0 }

abbrev object_made : Scheduled
object_made = new_scheduled fifo_desc "rack"

abbrev object_started : Scheduled
object_started = record object_made { joinable = true; point = starting }

abbrev object_running : Scheduled
object_running = begin_thread (pos 7) object_started

object_running-ScheduledReached : ScheduledReached fifo_desc "rack" object_running
unfolding start_scheduled new_scheduled
object_running-ScheduledReached =
    went object_started object_running
      (went object_made object_started made (starts object_started refl)) (begins (pos 7) refl)

end_scheduled-ending_example :
    (end_scheduled object_running ≡ ending object_running.point)
    × (end_scheduled (assign_scheduled (new_scheduled fifo_desc "target") object_running).1
        ≡ ending_moved object_running.point)
end_scheduled-ending_example =
    end_scheduled-ending fifo_desc fifo_desc "rack" "target" object_running
      object_running-ScheduledReached
