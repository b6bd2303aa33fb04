-- ===== src/Thread/Pool.antt =====
-- `pool` of framework/threads/pool.cpp: the workers of a task queue. `int` sizes are natural numbers.
use strange_io.Common.{
  ℕ, Bool, true, false, Option, List, [], ◌++◌, map, if◌then◌else◌, get_elem?, replicate,
}
use strange_io.Thread.Worker.{WorkerState, new_worker, start_worker, stop_worker}

pub record Pool (P : Type 0) : Type 0 where
  pub size : ℕ
  pub threads : List (WorkerState P)
  pub running : Bool

module _ {P : Type 0} where
  unfoldable pub new_pool : ℕ → Pool P
  new_pool n = record { size = n; threads = []; running = false }

  unfoldable pub set_pool_size : ℕ → Pool P → Pool P
  set_pool_size n p = record p { size = n }

  unfoldable pub pool_size : Pool P → ℕ
  pool_size p = p.size

  -- Each `push_back` of `init`.
  unfoldable pub init_pool : Pool P → Pool P
  init_pool p = record p { threads = p.threads ++ replicate p.size new_worker }

  -- One worker after the other is started, and awaited.
  unfoldable pub start_pool : Pool P → Pool P
  unfolding start_worker
  start_pool p = record p { threads = map start_worker p.threads; running = true }

  -- Without the joins: what the workers do until they end are steps of their own.
  unfoldable pub stop_pool : Pool P → Pool P
  unfolding stop_worker
  stop_pool p =
      if p.running then record p { threads = map stop_worker p.threads; running = false } else p

  -- `none` is an access past the end of the vector.
  unfoldable pub get_thread : ℕ → Pool P → Option (WorkerState P)
  get_thread i p = get_elem? p.threads i
