-- ===== src/Thread/Queue/First.antt =====
-- `queue::assign` (framework/threads/queue.cpp) run to its end, while no other thread moves.
use strange_io.Common.{
  ℕ, suc, zero, ◌+◌, ◌<◌, ◌≤◌, ◌≡◌, true, false, Option, none, some, [], ◌∷◌, ◌++◌, ◌>>=◌, length,
  get_elem?, set,
}
use strange_io.Thread.Worker.{
  WorkerState, looking, can_take, is_waiting, assign_package, notify_worker,
}
use strange_io.Thread.Queue.{at_loop, owning_at, assigned_at, TaskQueue, cycle_step}

module _ {P : Type 0} where
  -- So many steps of the thread of `cycle`.
  abbrev pub run_cycle : ℕ → TaskQueue P → Option (TaskQueue P)
  run_cycle zero q = some q
  run_cycle (suc k) q = cycle_step q >>= run_cycle k

  module _ (q : TaskQueue P) (enough : q.size ≤ length q.pool.threads) where
    -- No worker from `i` on, for `k` of them, is free.
    abbrev pub AllBusy : ℕ → ℕ → Type 0
    AllBusy i k =
        (m : ℕ) (w : WorkerState P)
        → i ≤ m
        → m < i + k
        → get_elem? q.pool.threads m ≡ some w
        → can_take w ≡ false

  -- Worker `w` given `task` and told so.
  abbrev pub handed_on : P → WorkerState P → WorkerState P
  handed_on task w = record (notify_worker (assign_package task (is_waiting w))) {
    waiter = looking;
  }

  abbrev pub after_hand : ℕ → P → WorkerState P → TaskQueue P → TaskQueue P
  after_hand j task w q = record q {
    pool = record q.pool { threads = set q.pool.threads j (handed_on task w) };
    point = at_loop;
    raw_pkg = none;
    handed = q.handed ++ (j, task) ∷ [];
  }

  module _ (q : TaskQueue P) (j : ℕ) (w : WorkerState P) (task : P) (lt : j < q.size)
      (has : get_elem? q.pool.threads j ≡ some w) (holds : q.raw_pkg ≡ some task)
      (free : can_take w ≡ true) (within : j < length q.pool.threads) where
    abbrev owning_queue : TaskQueue P
    owning_queue = record q {
      pool = record q.pool { threads = set q.pool.threads j (is_waiting w) };
      point = owning_at j;
    }

    abbrev assigned_queue : TaskQueue P
    assigned_queue = record q {
      pool = record q.pool {
        threads = set (set q.pool.threads j (is_waiting w)) j (assign_package task (is_waiting w));
      };
      point = assigned_at j;
      raw_pkg = none;
      handed = q.handed ++ (j, task) ∷ [];
    }

  -- What `assign` comes to.
  abbrev pub assign_all : P → TaskQueue P → Option (ℕ × WorkerState P) → TaskQueue P
  assign_all task q none = record q { point = at_loop }
  assign_all task q (some (j, w)) = after_hand j task w q
