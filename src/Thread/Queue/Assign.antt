-- ===== src/Thread/Queue/Assign.antt =====
-- The steps of `queue::assign` (framework/threads/queue.cpp) at the worker that it found.
use strange_io.Common.{
  ℕ, ◌≡◌, ◌≢◌, refl, sym, ap, ◌∙◌, subst, Option, none, some, List, [], ◌∷◌, ◌++◌, map, arith,
  get_elem?, set, length-set,
}
use mathlib.Core.List.{append-nil, append_assoc, map-append}
use strange_io.Thread.Pool.{get_thread}
use strange_io.Thread.Worker.{
  WorkerState, looking, owning, assigned, assign_package, notify_worker, assigns, notifies,
}
use strange_io.Thread.Worker.Handover.{step}
use strange_io.Thread.Queue.{
  at_loop, owning_at, assigned_at, TaskQueue, set_thread, hand_queue, notify_queue,
}
use strange_io.Thread.Queue.Inv.{
  waiter_at, given_to, held, Ready, Inv, get_elem?-lt, lt-get_elem?, given_to-append, set-Workers,
}
use strange_io.Thread.Queue.Scan.{at_self, at_other}

module _ {P : Type 0} where
  -- A step of the thread that is defined, and keeps the state.
  abbrev pub Goes : ℕ → Option (TaskQueue P) → Type 0
  Goes n o = (q' : TaskQueue P) × (o ≡ some q') × Inv n q'

  hands-order :
      (q : TaskQueue P) (i : ℕ) (task : P)
      → q.posted ≡ map (λ h. h.1) q.handed ++ (task ∷ q.pump.queue)
      → q.posted ≡ map (λ h. h.1) (q.handed ++ (i, task) ∷ []) ++ q.pump.queue
  hands-order q i task e =
      e
      ∙ (sym (append_assoc (map (λ h. h.1) q.handed) (task ∷ []) q.pump.queue)
          ∙ ap (λ xs. xs ++ q.pump.queue) (sym (map-append (λ h. h.1) q.handed ((i, task) ∷ []))))

  given_to_self :
      (i : ℕ) (task : P) (handed : List (ℕ × P))
      → given_to i handed ++ task ∷ [] ≡ given_to i (handed ++ (i, task) ∷ [])
  given_to_self i task handed =
      ap (λ xs. given_to i handed ++ xs) (at_self i (task ∷ []) [])
      ∙ sym (given_to-append i i task handed)

  given_to_other :
      (i j : ℕ) (task : P) (handed : List (ℕ × P))
      → i ≢ j
      → given_to j (handed ++ (i, task) ∷ []) ≡ given_to j handed
  given_to_other i j task handed other =
      given_to-append j i task handed
      ∙ (ap (λ xs. given_to j handed ++ xs) (at_other i j (task ∷ []) [] other)
          ∙ append-nil (given_to j handed))

  pub hand_queue-eq :
      (i : ℕ) (q : TaskQueue P) (w : WorkerState P) (task : P)
      → get_elem? q.pool.threads i ≡ some w
      → q.raw_pkg ≡ some task
      → hand_queue i q
        ≡ some (record q {
          pool = record q.pool { threads = set q.pool.threads i (assign_package task w) };
          raw_pkg = none;
          point = assigned_at i;
          handed = q.handed ++ (i, task) ∷ [];
        })
  unfolding hand_queue get_thread set_thread
  hand_queue-eq i q w task has is_task = rw has (rw is_task)

  -- The package at hand goes to worker `i`.
  pub hand_queue-Goes :
      (n i : ℕ) (q : TaskQueue P) → Inv n q → q.point ≡ owning_at i → Goes n (hand_queue i q)
  unfolding assign_package
  hand_queue-Goes n i q inv e =
      let ready = subst (λ pt. Ready n pt q.raw_pkg) e inv.ready in
      let (task, is_task) = ready.1 in
      let (w, has) = lt-get_elem? q.pool.threads i (omega (arith, inv.count, ready.0)) in
      let (reached, at, given) = inv.workers i w has in
      let w' : WorkerState P = assign_package task w in
      (
        record q {
          pool = record q.pool { threads = set q.pool.threads i w' };
          raw_pkg = none;
          point = assigned_at i;
          handed = q.handed ++ (i, task) ∷ [];
        },
        hand_queue-eq i q w task has is_task,
        record {
          workers =
              set-Workers q.pool.threads i w' q.point (assigned_at i) q.handed
                (q.handed ++ (i, task) ∷ []) (get_elem?-lt q.pool.threads i has) inv.workers
                (
                  step w w' reached (
                      assigns task
                        (at ∙ (ap (λ p. waiter_at p i) e ∙ sym (at_self i owning looking)))),
                  at_self i assigned looking,
                  ap (λ xs. xs ++ task ∷ []) given ∙ given_to_self i task q.handed,
                )
                (λ j other.
                  at_other i j assigned looking other
                  ∙ (sym (at_other i j owning looking other) ∙ ap (λ p. waiter_at p j) (sym e)))
                (λ j other. given_to_other i j task q.handed other);
          order =
              hands-order q i task
                (inv.order ∙ ap (λ r. map (λ h. h.1) q.handed ++ (held r ++ q.pump.queue)) is_task);
          load = inv.load;
          count = length-set q.pool.threads i w' ∙ inv.count;
          ready = ready.0;
        },
      )

  pub notify_queue-Goes :
      (n i : ℕ) (q : TaskQueue P) → Inv n q → q.point ≡ assigned_at i → Goes n (notify_queue i q)
  unfolding notify_queue get_thread set_thread notify_worker
  notify_queue-Goes n i q inv e =
      let lt = subst (λ pt. Ready n pt q.raw_pkg) e inv.ready in
      let (w, has) = lt-get_elem? q.pool.threads i (omega (arith, inv.count, lt)) in
      let (reached, at, given) = inv.workers i w has in
      let w' : WorkerState P = record (notify_worker w) { waiter = looking } in
      (
        record q { pool = record q.pool { threads = set q.pool.threads i w' }; point = at_loop },
        rw has,
        record {
          workers =
              set-Workers q.pool.threads i w' q.point at_loop q.handed q.handed
                (get_elem?-lt q.pool.threads i has) inv.workers
                (
                  step w w' reached (
                      notifies
                        (at ∙ (ap (λ p. waiter_at p i) e ∙ sym (at_self i assigned looking)))),
                  refl,
                  given,
                )
                (λ j other.
                  sym (at_other i j assigned looking other) ∙ ap (λ p. waiter_at p j) (sym e))
                (λ j other. refl);
          order = inv.order;
          load = inv.load;
          count = length-set q.pool.threads i w' ∙ inv.count;
          ready = tt;
        },
      )
