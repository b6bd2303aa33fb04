-- ===== src/Thread/Worker.antt =====
-- `worker` of framework/threads/worker.cpp with the thread that hands packages on, `assign` of
-- framework/threads/queue.cpp, from the end of `pool::start` on. Each step is what a thread does
-- while it holds the mutex, or up to its next lock. A thread that waits on the condition may wake
-- whether it was notified or not. `P` is the type of packages. The condition of the other side,
-- `m_ready_condition`, is left out.
pub mod Repeats
pub mod Handover
mod Tests
use strange_io.Common.{
  ◌≡◌, Bool, true, false, not, Option, none, some, List, [], ◌∷◌, ◌++◌, if◌then◌else◌,
}

-- Who holds `m_mutex`.
pub data MutexHolder : Type 0 where
  nobody by_process by_waiter : MutexHolder

-- A thread in `process`: at the test of the loop, with the mutex; in `wait`; past `wait`, with the
-- mutex; at the end.
pub data ProcessPoint : Type 0 where
  testing asleep awake ended : ProcessPoint

-- The thread that hands on: at `is_waiting`, past it with the mutex, past `assign_package`.
pub data WaiterPoint : Type 0 where
  looking owning assigned : WaiterPoint

-- `given` and `ran` are the history: the packages assigned and those run.
pub record WorkerState (P : Type 0) : Type 0 where
  pub running : Bool
  pub loaded : Bool
  pub active : Bool
  pub current : Option P
  pub mutex : MutexHolder
  pub notified : Bool
  pub process : ProcessPoint
  pub waiter : WaiterPoint
  pub given : List P
  pub ran : List P

module _ {P : Type 0} where
  -- `start` and the beginning of `process`.
  abbrev pub started : WorkerState P
  started = record {
    running = true;
    loaded = false;
    active = true;
    current = none;
    mutex = by_process;
    notified = false;
    process = testing;
    waiter = looking;
    given = [];
    ran = [];
  }

  -- As constructed: the thread is not there yet.
  abbrev pub new_worker : WorkerState P
  new_worker = record {
    running = false;
    loaded = false;
    active = false;
    current = none;
    mutex = nobody;
    notified = false;
    process = ended;
    waiter = looking;
    given = [];
    ran = [];
  }

  -- `start`, up to where its thread has set `m_running`, which `pool::start` waits for.
  unfoldable pub start_worker : WorkerState P → WorkerState P
  start_worker w = if w.active then w else record w {
    running = true;
    loaded = false;
    active = true;
    mutex = by_process;
    process = testing;
  }

  -- What `is_waiting` returns; `try_lock` fails where the mutex is held.
  unfoldable pub can_take : WorkerState P → Bool
  can_take w = elim w.mutex [ nobody ↦ not w.loaded | _ ↦ false ]

  -- `notify` reaches the thread only while it waits.
  unfoldable pub notify_worker : WorkerState P → WorkerState P
  notify_worker w = record w { notified = elim w.process [ asleep ↦ true | _ ↦ w.notified ] }

  -- `is_waiting`, where `try_lock` gets the mutex.
  unfoldable pub is_waiting : WorkerState P → WorkerState P
  is_waiting w = if w.loaded then w else record w { mutex = by_waiter; waiter = owning }

  unfoldable pub assign_package : P → WorkerState P → WorkerState P
  assign_package task w = record w {
    current = some task;
    loaded = true;
    mutex = nobody;
    waiter = assigned;
    given = w.given ++ task ∷ [];
  }

  unfoldable pub stop_worker : WorkerState P → WorkerState P
  unfolding notify_worker
  stop_worker w = if not w.active then w else notify_worker (record w { running = false })

  -- The test of the loop, and `wait`.
  unfoldable pub wait_worker : WorkerState P → WorkerState P
  wait_worker w =
      if w.running
      then record w { mutex = nobody; process = asleep }
      else record w { mutex = nobody; process = ended }

  unfoldable pub wake_worker : WorkerState P → WorkerState P
  wake_worker w = record w { mutex = by_process; notified = false; process = awake }

  -- Past `wait`; `none` is a call through a null pointer.
  unfoldable pub run_worker : WorkerState P → Option (WorkerState P)
  run_worker w =
      if not w.running
      then some (record w { current = none; mutex = nobody; process = ended })
      else elim w.current [
        | none ↦ none
        | some task ↦
            some (record w { loaded = false; process = testing; ran = w.ran ++ task ∷ [] })
      ]

  pub data WorkerStep (w : WorkerState P) : WorkerState P → Type 0 where
    looks : w.waiter ≡ looking → w.mutex ≡ nobody → WorkerStep w (is_waiting w)
    assigns : (task : P) → w.waiter ≡ owning → WorkerStep w (assign_package task w)
    notifies : w.waiter ≡ assigned → WorkerStep w (record (notify_worker w) { waiter = looking })
    stops : WorkerStep w (stop_worker w)
    waits : w.process ≡ testing → WorkerStep w (wait_worker w)
    wakes : w.process ≡ asleep → w.mutex ≡ nobody → WorkerStep w (wake_worker w)
    runs : (w' : WorkerState P) → w.process ≡ awake → run_worker w ≡ some w' → WorkerStep w w'
