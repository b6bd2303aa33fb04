-- ===== src/Thread/Queue/Order.antt =====
-- The packages that a task queue (framework/threads/queue.cpp) takes, hands on and runs.
use strange_io.Common.{
  ℕ, ◌≡◌, ◌≢◌, ◌≤◌, [], Option, refl, sym, ◌∙◌, subst, true, some, ◌++◌, map, get_elem?, length,
  some_inj,
}
use strange_io.Thread.Pump.{get_load}
use strange_io.Thread.Worker.{WorkerState, awake, run_worker}
use strange_io.Thread.Worker.Handover.{AllButLast, Reached-AllButLast, Reached-finds}
use strange_io.Thread.Queue.{
  CyclePoint, at_loop, in_wait, past_wait, finished, scanning, owning_at, assigned_at, TaskQueue,
  new_queue, start_queue, step_at, cycle_step, QueueStep, posts, resizes, sets_running, halts,
  stops, cycles, works,
}
use strange_io.Thread.Queue.Inv.{given_to, held, Inv}
use strange_io.Thread.Queue.Calls.{
  start_queue-Inv, add_task-Inv, set_queue_size-Inv, set_running-Inv, halts-Inv, works-Inv,
}
use strange_io.Thread.Queue.Cycle.{move-Inv, leave, loop_queue-Inv, take_queue-Inv}
use strange_io.Thread.Queue.Scan.{scan_queue-Inv, scan_queue-defined}
use strange_io.Thread.Queue.Assign.{Goes, hand_queue-Goes, notify_queue-Goes}

module _ {P : Type 0} where
  -- The states of a queue with `n` workers, from `start` on.
  pub data QueueReached (n : ℕ) : TaskQueue P → Type 0 where
    begun : QueueReached n (start_queue (new_queue n))
    moved : (q q' : TaskQueue P) → QueueReached n q → QueueStep q q' → QueueReached n q'

  Goes-Inv :
      (n : ℕ) (o : Option (TaskQueue P)) (q' : TaskQueue P) → Goes n o → o ≡ some q' → Inv n q'
  Goes-Inv n o q' (u, gives, next) e = subst (Inv n) (some_inj (sym gives ∙ e)) next

  step_at-Inv :
      (n : ℕ) (pt : CyclePoint) (q q' : TaskQueue P)
      → Inv n q
      → q.point ≡ pt
      → step_at pt q ≡ some q'
      → Inv n q'
  unfolding step_at
  step_at-Inv n at_loop q q' inv e gives = subst (Inv n) (some_inj gives) (loop_queue-Inv n q inv e)
  step_at-Inv n in_wait q q' inv e gives =
      subst (Inv n) (some_inj gives)
        (move-Inv n q past_wait inv (leave q in_wait past_wait e (λ i. refl)) tt)
  step_at-Inv n past_wait q q' inv e gives =
      subst (Inv n) (some_inj gives) (take_queue-Inv n q inv e)
  step_at-Inv n finished q q' inv e gives = subst (Inv n) (some_inj gives) inv
  step_at-Inv n (scanning i) q q' inv e gives = scan_queue-Inv n i q q' inv e gives
  step_at-Inv n (owning_at i) q q' inv e gives = Goes-Inv n _ q' (hand_queue-Goes n i q inv e) gives
  step_at-Inv n (assigned_at i) q q' inv e gives =
      Goes-Inv n _ q' (notify_queue-Goes n i q inv e) gives

  step_at-defined :
      (n : ℕ) (pt : CyclePoint) (q : TaskQueue P)
      → Inv n q
      → q.point ≡ pt
      → q.size ≤ n
      → (q' : TaskQueue P) × (step_at pt q ≡ some q')
  unfolding step_at
  step_at-defined n at_loop q inv e fits = (_, refl)
  step_at-defined n in_wait q inv e fits = (_, refl)
  step_at-defined n past_wait q inv e fits = (_, refl)
  step_at-defined n finished q inv e fits = (q, refl)
  step_at-defined n (scanning i) q inv e fits = scan_queue-defined n i q inv fits
  step_at-defined n (owning_at i) q inv e fits =
      let (q', gives, next) = hand_queue-Goes n i q inv e in (q', gives)
  step_at-defined n (assigned_at i) q inv e fits =
      let (q', gives, next) = notify_queue-Goes n i q inv e in (q', gives)

  cycle_step-Inv : (n : ℕ) (q q' : TaskQueue P) → Inv n q → cycle_step q ≡ some q' → Inv n q'
  unfolding cycle_step
  cycle_step-Inv n q q' inv gives = step_at-Inv n q.point q q' inv refl gives

  QueueStep-Inv : (n : ℕ) (q q' : TaskQueue P) → Inv n q → QueueStep q q' → Inv n q'
  QueueStep-Inv n q q' inv (posts task) = add_task-Inv n task q inv
  QueueStep-Inv n q q' inv (resizes k) = set_queue_size-Inv n k q inv
  QueueStep-Inv n q q' inv sets_running = set_running-Inv n true q inv
  QueueStep-Inv n q q' inv (halts i w e) = halts-Inv n i w q inv e
  QueueStep-Inv n q q' inv stops = set_running-Inv n _ q inv
  QueueStep-Inv n q q' inv (cycles v e) = cycle_step-Inv n q v inv e
  QueueStep-Inv n q q' inv (works i w w' e own) = works-Inv n i w w' q inv e own

  QueueReached-Inv : (n : ℕ) (q : TaskQueue P) → QueueReached n q → Inv n q
  QueueReached-Inv n q begun = start_queue-Inv n
  QueueReached-Inv n q (moved p v reached step) =
      QueueStep-Inv n p v (QueueReached-Inv n p reached) step

  -- In every state of a queue from its start on, whatever its thread, its workers and its callers
  -- do in turn, the size set anew included, the packages handed to the workers, then the one that
  -- its thread holds, then those of the pump are the packages added, in the order of the calls and
  -- each once; the load is the number of those in the pump; and each worker was given the packages
  -- handed to its number, in order, and has run them in that order, each at least once, and several
  -- times only before the next one, all but for the last one while it is loaded.
  pub QueueReached-order :
      (n : ℕ) (q : TaskQueue P)
      → QueueReached n q
      → (q.posted ≡ map (λ h. h.1) q.handed ++ (held q.raw_pkg ++ q.pump.queue))
        × (get_load q.pump ≡ length q.pump.queue)
        × ((i : ℕ) (w : WorkerState P)
            → get_elem? q.pool.threads i ≡ some w
            → (w.given ≡ given_to i q.handed) × AllButLast w)
  unfolding get_load
  QueueReached-order n q reached =
      let inv = QueueReached-Inv n q reached in
      (
        inv.order,
        inv.load,
        λ i w e. let (alone, at, given) = inv.workers i w e in (given, Reached-AllButLast w alone),
      )

  -- In every state of a queue started with `n` workers, whatever came before, where the size set
  -- last is not above `n`, the next step of its thread reads no worker outside the pool, which has
  -- `n`, and hands on no null package; and a worker that is past its wait, and was handed a package
  -- before, finds one to run, or ends as it was stopped.
  pub QueueReached-in_bounds :
      (n : ℕ) (q : TaskQueue P)
      → QueueReached n q
      → q.size ≤ n
      → (length q.pool.threads ≡ n)
        × ((q' : TaskQueue P) × (cycle_step q ≡ some q'))
        × ((i : ℕ) (w : WorkerState P)
            → get_elem? q.pool.threads i ≡ some w
            → w.process ≡ awake
            → given_to i q.handed ≢ []
            → (w' : WorkerState P) × (run_worker w ≡ some w'))
  unfolding cycle_step
  QueueReached-in_bounds n q reached fits =
      let inv = QueueReached-Inv n q reached in
      (
        inv.count,
        step_at-defined n q.point q inv refl fits,
        λ i w e at handed.
            let (alone, points, given) = inv.workers i w e in
            Reached-finds w alone at (λ empty. handed (sym given ∙ empty)),
      )
