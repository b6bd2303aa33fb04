-- ===== src/Thread/Queue/Tests.antt =====
-- A task queue of two workers: started, given package 5, which its thread hands to the first worker.
use strange_io.Common.{
  ℕ, ◌≤◌, ◌≡◌, ◌≢◌, refl, true, none, some, [], ◌∷◌, ◌++◌, map, length, get_elem?, arith,
}
use strange_io.Thread.Pump.{get_load}
use strange_io.Thread.Worker.{
  WorkerState, started, awake, wait_worker, is_waiting, assign_package, run_worker,
}
use strange_io.Thread.Worker.Handover.{AllButLast}
use strange_io.Thread.Queue.{
  TaskQueue, scanning, owning_at, assigned_at, new_queue, set_queue_size, start_queue, add_task,
  set_running, set_thread, loop_queue, take_queue, cycle_step, own_wait, posts, sets_running,
  cycles, works,
}
use strange_io.Thread.Queue.Inv.{given_to, held}
use strange_io.Thread.Queue.Order.{
  QueueReached, begun, moved, QueueReached-order, QueueReached-in_bounds,
}

abbrev queue_started : TaskQueue ℕ
queue_started = start_queue (new_queue 2)

abbrev queue_waiting : TaskQueue ℕ
queue_waiting = set_thread 0 (wait_worker started) queue_started

abbrev queue_posted : TaskQueue ℕ
queue_posted = add_task 5 queue_waiting

abbrev queue_running : TaskQueue ℕ
queue_running = set_running true queue_posted

abbrev queue_passed : TaskQueue ℕ
queue_passed = loop_queue queue_running

abbrev queue_scanning : TaskQueue ℕ
queue_scanning = take_queue queue_passed

abbrev queue_owning : TaskQueue ℕ
queue_owning = record (set_thread 0 (is_waiting (wait_worker started)) queue_scanning) {
  point = owning_at 0;
}

abbrev queue_handed : TaskQueue ℕ
queue_handed =
    record (set_thread 0 (assign_package 5 (is_waiting (wait_worker started))) queue_owning) {
      raw_pkg = none;
      point = assigned_at 0;
      handed = (0, 5) ∷ [];
    }

queue_scanning-QueueReached : QueueReached 2 queue_scanning
unfolding start_queue new_queue set_thread wait_worker add_task set_running loop_queue take_queue
    cycle_step
queue_scanning-QueueReached =
    moved queue_passed queue_scanning
      (moved queue_running queue_passed
        (moved queue_posted queue_running
          (moved queue_waiting queue_posted
            (moved queue_started queue_waiting begun
              (works 0 started (wait_worker started) refl (own_wait refl)))
            (posts 5))
          sets_running)
        (cycles queue_passed refl))
      (cycles queue_scanning refl)

queue_handed-QueueReached : QueueReached 2 queue_handed
unfolding start_queue new_queue set_thread wait_worker add_task set_running loop_queue take_queue
    cycle_step is_waiting assign_package
queue_handed-QueueReached =
    moved queue_owning queue_handed
      (moved queue_scanning queue_owning queue_scanning-QueueReached (cycles queue_owning refl))
      (cycles queue_handed refl)

queue_handed_size : queue_handed.size ≤ 2
unfolding start_queue new_queue set_thread wait_worker add_task set_running loop_queue take_queue
queue_handed_size = omega arith

-- A size above the number of workers: past the last one `assign` leaves the vector.
resized_past_end : cycle_step (record (set_queue_size 5 queue_handed) { point = scanning 2 }) ≡ none
unfolding start_queue new_queue set_thread wait_worker add_task set_running loop_queue take_queue
    cycle_step set_queue_size
resized_past_end = refl

QueueReached-order_example :
    (queue_handed.posted
      ≡ map (λ h. h.1) queue_handed.handed
        ++ (held queue_handed.raw_pkg ++ queue_handed.pump.queue))
    × (get_load queue_handed.pump ≡ length queue_handed.pump.queue)
    × ((i : ℕ) (w : WorkerState ℕ)
        → get_elem? queue_handed.pool.threads i ≡ some w
        → (w.given ≡ given_to i queue_handed.handed) × AllButLast w)
QueueReached-order_example = QueueReached-order 2 queue_handed queue_handed-QueueReached

QueueReached-in_bounds_example :
    (length queue_handed.pool.threads ≡ 2)
    × ((q' : TaskQueue ℕ) × (cycle_step queue_handed ≡ some q'))
    × ((i : ℕ) (w : WorkerState ℕ)
        → get_elem? queue_handed.pool.threads i ≡ some w
        → w.process ≡ awake
        → given_to i queue_handed.handed ≢ []
        → (w' : WorkerState ℕ) × (run_worker w ≡ some w'))
QueueReached-in_bounds_example =
    QueueReached-in_bounds 2 queue_handed queue_handed-QueueReached queue_handed_size
