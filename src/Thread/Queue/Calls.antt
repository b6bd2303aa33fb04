-- ===== src/Thread/Queue/Calls.antt =====
-- Calls of other threads on a task queue (framework/threads/queue.cpp), and what its workers do.
use strange_io.Common.{
  ℕ, suc, zero, ◌≡◌, refl, ap, ◌∙◌, subst, Bool, some, List, [], ◌∷◌, ◌++◌, map, arith, length,
  get_elem?, replicate, length-append, length-set, length-replicate, some_inj,
}
use mathlib.Core.List.{append_assoc}
use strange_io.Thread.Pump.{add_package}
use strange_io.Thread.Pool.{set_pool_size, init_pool, start_pool, new_pool, get_thread}
use strange_io.Thread.Worker.{
  WorkerState, WorkerStep, new_worker, started, start_worker, notify_worker, stop_worker,
  wait_worker, wake_worker, run_worker, stops, waits, wakes, runs,
}
use strange_io.Thread.Worker.Handover.{start, step}
use strange_io.Thread.Queue.{
  at_loop, TaskQueue, new_queue, set_queue_size, start_queue, add_task, set_running, set_thread,
  OwnStep, own_wait, own_wake, own_run,
}
use strange_io.Thread.Queue.Inv.{held, Good, Inv, get_elem?-lt, set-Workers}

module _ {P : Type 0} where
  stop_worker-waiter :
      (w : WorkerState P) → ((stop_worker w).waiter ≡ w.waiter) × ((stop_worker w).given ≡ w.given)
  unfolding stop_worker notify_worker
  stop_worker-waiter w = ground arith

  -- A step of its own leaves what the thread of `cycle` does with the worker.
  OwnStep-WorkerStep : (w w' : WorkerState P) → OwnStep w w' → WorkerStep w w'
  OwnStep-WorkerStep w w' (own_wait at) = waits at
  OwnStep-WorkerStep w w' (own_wake at m) = wakes at m
  OwnStep-WorkerStep w w' (own_run v at e) = runs v at e

  run_worker-waiter :
      (w w' : WorkerState P)
      → run_worker w ≡ some w'
      → (w'.waiter ≡ w.waiter) × (w'.given ≡ w.given)
  unfolding run_worker
  run_worker-waiter w w' e = ground arith

  OwnStep-waiter :
      (w w' : WorkerState P) → OwnStep w w' → (w'.waiter ≡ w.waiter) × (w'.given ≡ w.given)
  unfolding wait_worker wake_worker
  OwnStep-waiter w w' (own_wait at) = ground arith
  OwnStep-waiter w w' (own_wake at m) = (refl, refl)
  OwnStep-waiter w w' (own_run v at e) = run_worker-waiter w v e

  -- One worker moves on its own.
  set_thread-Inv :
      (n i : ℕ) (w w' : WorkerState P) (q : TaskQueue P)
      → Inv n q
      → get_thread i q.pool ≡ some w
      → WorkerStep w w'
      → (w'.waiter ≡ w.waiter) × (w'.given ≡ w.given)
      → Inv n (set_thread i w' q)
  unfolding set_thread get_thread
  set_thread-Inv n i w w' q inv e moved (at, has) =
      let (reached, w_at, w_has) = inv.workers i w e in
      record {
        workers =
            set-Workers q.pool.threads i w' q.point q.point q.handed q.handed
              (get_elem?-lt q.pool.threads i e) inv.workers
              (step w w' reached moved, at ∙ w_at, has ∙ w_has) (λ j other. refl) (λ j other. refl);
        order = inv.order;
        load = inv.load;
        count = length-set q.pool.threads i w' ∙ inv.count;
        ready = inv.ready;
      }

  pub halts-Inv :
      (n i : ℕ) (w : WorkerState P) (q : TaskQueue P)
      → Inv n q
      → get_thread i q.pool ≡ some w
      → Inv n (set_thread i (stop_worker w) q)
  halts-Inv n i w q inv e =
      set_thread-Inv n i w (stop_worker w) q inv e stops (stop_worker-waiter w)

  pub works-Inv :
      (n i : ℕ) (w w' : WorkerState P) (q : TaskQueue P)
      → Inv n q
      → get_thread i q.pool ≡ some w
      → OwnStep w w'
      → Inv n (set_thread i w' q)
  works-Inv n i w w' q inv e own =
      set_thread-Inv n i w w' q inv e (OwnStep-WorkerStep w w' own) (OwnStep-waiter w w' own)

  pub set_queue_size-Inv : (n k : ℕ) (q : TaskQueue P) → Inv n q → Inv n (set_queue_size k q)
  unfolding set_queue_size set_pool_size
  set_queue_size-Inv n k q inv = record {
    workers = inv.workers;
    order = inv.order;
    load = inv.load;
    count = inv.count;
    ready = inv.ready;
  }

  pub set_running-Inv : (n : ℕ) (on : Bool) (q : TaskQueue P) → Inv n q → Inv n (set_running on q)
  unfolding set_running
  set_running-Inv n on q inv = record {
    workers = inv.workers;
    order = inv.order;
    load = inv.load;
    count = inv.count;
    ready = inv.ready;
  }

  pub add_task-Inv : (n : ℕ) (task : P) (q : TaskQueue P) → Inv n q → Inv n (add_task task q)
  unfolding add_task add_package
  add_task-Inv n task q inv = record {
    workers = inv.workers;
    order =
        ap (λ xs. xs ++ task ∷ []) inv.order
        ∙ (append_assoc (map (λ h. h.1) q.handed) (held q.raw_pkg ++ q.pump.queue) (task ∷ [])
            ∙ ap (λ xs. map (λ h. h.1) q.handed ++ xs)
                (append_assoc (held q.raw_pkg) q.pump.queue (task ∷ [])));
    load = omega (arith, inv.load, length-append q.pump.queue (task ∷ []));
    count = inv.count;
    ready = inv.ready;
  }

  get_elem?-map-replicate :
      (n i : ℕ) (w : WorkerState P)
      → get_elem? (map start_worker (replicate n new_worker)) i ≡ some w
      → started ≡ w
  unfolding start_worker
  get_elem?-map-replicate zero i w e = cc
  get_elem?-map-replicate (suc n) zero w e = some_inj e
  get_elem?-map-replicate (suc n) (suc i) w e = get_elem?-map-replicate n i w e

  length-map :
      (f : WorkerState P → WorkerState P) (ws : List (WorkerState P))
      → length (map f ws) ≡ length ws
  length-map f [] = refl
  length-map f (w ∷ ws) = ap suc (length-map f ws)

  pub start_queue-Inv : (n : ℕ) → Inv n (start_queue (new_queue {P = P} n))
  unfolding start_queue new_queue new_pool init_pool start_pool
  start_queue-Inv n = record {
    workers = λ i w e.
        let same = get_elem?-map-replicate n i w e in
        subst (Good i at_loop []) same (start, refl, refl);
    order = refl;
    load = refl;
    count = length-map start_worker (replicate n new_worker) ∙ length-replicate n new_worker;
    ready = tt;
  }
