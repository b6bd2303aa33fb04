-- ===== src/Thread/Queue.antt =====
-- `queue` of framework/threads/queue.cpp over the pool of workers and the pump, from its constructor
-- on: the steps of `cycle` on its thread, with those of the workers and the calls of other threads
-- between any two of them. `m_cycle_condition` may wake the thread at any time, so a notification
-- has no state. `stop` takes the workers one at a time.
pub mod Inv
pub mod Calls
pub mod Cycle
pub mod Scan
pub mod Assign
pub mod Free
pub mod First
pub mod Order
mod Tests
use strange_io.Common.{
  ℕ, suc, ◌≡◌, Bool, true, false, Option, none, some, List, [], ◌∷◌, ◌++◌, ◌>>=◌, if◌then◌else◌,
  ltb, ◌==◌, set,
}
use strange_io.Thread.Pump.{Pump, new_pump, add_package, next_package, get_load}
use strange_io.Thread.Pool.{
  Pool, new_pool, set_pool_size, pool_size, init_pool, start_pool, get_thread,
}
use strange_io.Thread.Worker.{
  WorkerState, testing, asleep, awake, nobody, looking, can_take, is_waiting, assign_package,
  notify_worker, stop_worker, wait_worker, wake_worker, run_worker,
}

-- Where the thread of `cycle` is: at the test of its loop, in the wait, past it; in `assign`, at
-- worker `i`, with its mutex, and past `assign_package`; at the end.
pub data CyclePoint : Type 0 where
  at_loop in_wait past_wait finished : CyclePoint
  scanning owning_at assigned_at : ℕ → CyclePoint

-- `raw_pkg` is null past `assign_package`, where the worker owns the package. `posted` and `handed`
-- are the history: the packages added, and those handed to the workers, with their numbers.
pub record TaskQueue (P : Type 0) : Type 0 where
  pub pool : Pool P
  pub pump : Pump P
  pub size : ℕ
  pub running : Bool
  pub active : Bool
  pub point : CyclePoint
  pub raw_pkg : Option P
  pub posted : List P
  pub handed : List (ℕ × P)

module _ {P : Type 0} where
  unfoldable pub new_queue : ℕ → TaskQueue P
  unfolding new_pool
  new_queue n = record {
    pool = new_pool n;
    pump = new_pump;
    size = n;
    running = false;
    active = false;
    point = finished;
    raw_pkg = none;
    posted = [];
    handed = [];
  }

  unfoldable pub set_queue_size : ℕ → TaskQueue P → TaskQueue P
  unfolding set_pool_size
  set_queue_size n q = record q { pool = set_pool_size n q.pool; size = n }

  unfoldable pub queue_size : TaskQueue P → ℕ
  unfolding pool_size
  queue_size q = pool_size q.pool

  -- `start` up to the creation of the thread, which may test `m_running` before it is set.
  unfoldable pub start_queue : TaskQueue P → TaskQueue P
  unfolding init_pool start_pool
  start_queue q = record q { pool = start_pool (init_pool q.pool); active = true; point = at_loop }

  unfoldable pub add_task : P → TaskQueue P → TaskQueue P
  unfolding add_package
  add_task task q = record q { pump = add_package task q.pump; posted = q.posted ++ task ∷ [] }

  unfoldable pub set_running : Bool → TaskQueue P → TaskQueue P
  set_running on q = record q { running = on }

  unfoldable pub set_thread : ℕ → WorkerState P → TaskQueue P → TaskQueue P
  set_thread i w q = record q { pool = record q.pool { threads = set q.pool.threads i w } }

  -- The test of the loop, and that of the load.
  unfoldable pub loop_queue : TaskQueue P → TaskQueue P
  unfolding get_load
  loop_queue q =
      if q.running
      then record q { point = if get_load q.pump == 0 then in_wait else past_wait }
      else record q { point = finished }

  -- Past the wait: the package that no worker took, or the next one.
  unfoldable pub take_queue : TaskQueue P → TaskQueue P
  unfolding next_package
  take_queue q =
      if q.running
      then elim q.raw_pkg [
        | some task ↦ record q { point = scanning 0 }
        | none ↦
            let (task, pump') = next_package q.pump in
            record q {
              pump = pump';
              raw_pkg = task;
              point = elim task [ none ↦ at_loop | some _ ↦ scanning 0 ];
            }
      ]
      else record q { point = finished }

  unfoldable pub try_worker : ℕ → WorkerState P → TaskQueue P → TaskQueue P
  unfolding set_thread can_take is_waiting
  try_worker i w q =
      if can_take w
      then record (set_thread i (is_waiting w) q) { point = owning_at i }
      else record q { point = scanning (suc i) }

  -- `assign` at worker `i`.
  unfoldable pub scan_queue : ℕ → TaskQueue P → Option (TaskQueue P)
  unfolding get_thread try_worker
  scan_queue i q =
      if ltb i q.size
      then (get_thread i q.pool >>= λ w. some (try_worker i w q))
      else some (record q { point = at_loop })

  unfoldable pub hand_queue : ℕ → TaskQueue P → Option (TaskQueue P)
  unfolding set_thread get_thread assign_package
  hand_queue i q = get_thread i q.pool >>= λ w. q.raw_pkg >>= λ task.
      some (record (set_thread i (assign_package task w) q) {
        raw_pkg = none;
        point = assigned_at i;
        handed = q.handed ++ (i, task) ∷ [];
      })

  unfoldable pub notify_queue : ℕ → TaskQueue P → Option (TaskQueue P)
  unfolding set_thread get_thread notify_worker
  notify_queue i q = get_thread i q.pool >>= λ w.
      some (record (set_thread i (record (notify_worker w) { waiter = looking }) q) {
        point = at_loop;
      })

  -- The next step of the thread of `cycle`, from where it is. `none` is an access outside the pool
  -- or through a null pointer.
  unfoldable pub step_at : CyclePoint → TaskQueue P → Option (TaskQueue P)
  unfolding loop_queue take_queue scan_queue hand_queue notify_queue
  step_at at_loop q = some (loop_queue q)
  step_at in_wait q = some (record q { point = past_wait })
  step_at past_wait q = some (take_queue q)
  step_at (scanning i) q = scan_queue i q
  step_at (owning_at i) q = hand_queue i q
  step_at (assigned_at i) q = notify_queue i q
  step_at finished q = some q

  unfoldable pub cycle_step : TaskQueue P → Option (TaskQueue P)
  unfolding step_at
  cycle_step q = step_at q.point q

  -- What the thread of a worker does.
  pub data OwnStep (w : WorkerState P) : WorkerState P → Type 0 where
    own_wait : w.process ≡ testing → OwnStep w (wait_worker w)
    own_wake : w.process ≡ asleep → w.mutex ≡ nobody → OwnStep w (wake_worker w)
    own_run : (w' : WorkerState P) → w.process ≡ awake → run_worker w ≡ some w' → OwnStep w w'

  -- `halts` and `stops` are the parts of `stop`.
  pub data QueueStep (q : TaskQueue P) : TaskQueue P → Type 0 where
    posts : (task : P) → QueueStep q (add_task task q)
    resizes : (n : ℕ) → QueueStep q (set_queue_size n q)
    sets_running : QueueStep q (set_running true q)
    halts :
        (i : ℕ) (w : WorkerState P)
        → get_thread i q.pool ≡ some w
        → QueueStep q (set_thread i (stop_worker w) q)
    stops : QueueStep q (set_running false q)
    cycles : (q' : TaskQueue P) → cycle_step q ≡ some q' → QueueStep q q'
    works :
        (i : ℕ) (w w' : WorkerState P)
        → get_thread i q.pool ≡ some w
        → OwnStep w w'
        → QueueStep q (set_thread i w' q)
