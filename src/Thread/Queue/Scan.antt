-- ===== src/Thread/Queue/Scan.antt =====
-- The loop of `queue::assign` (framework/threads/queue.cpp) up to a worker that is free.
use strange_io.Common.{
  ℕ, suc, ◌<◌, ◌≤◌, ◌≡◌, ◌≢◌, refl, sym, ap, ◌∙◌, subst, inl, inr, true, false, Option, none, some,
  if◌then◌else◌, ltb, ltb→lt, ◌==◌, Bool-cases, arith, get_elem?, length-set, some_inj, ◌>>=◌, Bool,
}
use strange_io.Thread.Pool.{get_thread}
use strange_io.Thread.Worker.{WorkerState, nobody, looking, owning, can_take, is_waiting, looks}
use strange_io.Thread.Worker.Handover.{step}
use strange_io.Thread.Queue.{
  at_loop, scanning, owning_at, TaskQueue, set_thread, try_worker, scan_queue,
}
use strange_io.Thread.Queue.Inv.{waiter_at, Ready, Inv, get_elem?-lt, lt-get_elem?, set-Workers}
use strange_io.Thread.Queue.Cycle.{move-Inv, leave, choose}

pub at_self : {A : Type 0} (i : ℕ) (a b : A) → a ≡ (if i == i then a else b)
at_self i a b = ground arith

pub at_other : {A : Type 0} (i j : ℕ) (a b : A) → i ≢ j → (if i == j then a else b) ≡ b
at_other i j a b other = ground arith

module _ {P : Type 0} where
  can_take-free : (w : WorkerState P) → can_take w ≡ true → (w.mutex ≡ nobody) × (w.loaded ≡ false)
  unfolding can_take
  can_take-free w e = ground arith

  -- The worker with its mutex taken.
  is_waiting-owning :
      (w : WorkerState P)
      → w.loaded ≡ false
      → ((is_waiting w).waiter ≡ owning) × ((is_waiting w).given ≡ w.given)
  unfolding is_waiting
  is_waiting-owning w e = ground arith

  -- `assign` at worker `i`: on to the next one, or with its mutex.
  try_worker-Inv :
      (n i : ℕ) (q : TaskQueue P) (w : WorkerState P)
      → Inv n q
      → i < n
      → q.point ≡ scanning i
      → get_elem? q.pool.threads i ≡ some w
      → Inv n (try_worker i w q)
  unfolding try_worker set_thread
  try_worker-Inv n i q w inv lt e has =
      let ready = subst (λ pt. Ready n pt q.raw_pkg) e inv.ready in
      let (reached, at, given) = inv.workers i w has in
      choose n (can_take w) _ _
        (λ free.
          let (m, empty) = can_take-free w free in
          let (owns, same) = is_waiting-owning w empty in
          record {
            workers =
                set-Workers q.pool.threads i (is_waiting w) q.point (owning_at i) q.handed q.handed
                  (get_elem?-lt q.pool.threads i has) inv.workers
                  (
                    step w (is_waiting w) reached (looks (at ∙ ap (λ p. waiter_at p i) e) m),
                    owns ∙ at_self i owning looking,
                    same ∙ given,
                  )
                  (λ j other. at_other i j owning looking other ∙ ap (λ p. waiter_at p j) (sym e))
                  (λ j other. refl);
            order = inv.order;
            load = inv.load;
            count = length-set q.pool.threads i (is_waiting w) ∙ inv.count;
            ready = (lt, ready);
          })
        (λ busy.
          move-Inv n q (scanning (suc i)) inv
            (leave q (scanning i) (scanning (suc i)) e (λ j. refl)) ready)

  -- The loop of `assign`, in a pool with a worker `i` and in one without.
  scan_at-Inv :
      (n i : ℕ) (within : Bool) (found : Option (WorkerState P)) (q q' : TaskQueue P)
      → Inv n q
      → q.point ≡ scanning i
      → get_elem? q.pool.threads i ≡ found
      → (if within
          then (found >>= λ w. some (try_worker i w q))
          else some (record q { point = at_loop }))
        ≡ some q'
      → Inv n q'
  scan_at-Inv n i false found q q' inv e has gives =
      subst (Inv n) (some_inj gives)
        (move-Inv n q at_loop inv (leave q (scanning i) at_loop e (λ j. refl)) tt)
  scan_at-Inv n i true none q q' inv e has gives = cc
  scan_at-Inv n i true (some w) q q' inv e has gives = subst (Inv n) (some_inj gives) (
      try_worker-Inv n i q w inv (subst (λ k. i < k) inv.count (get_elem?-lt q.pool.threads i has))
        e has)

  pub scan_queue-Inv :
      (n i : ℕ) (q q' : TaskQueue P)
      → Inv n q
      → q.point ≡ scanning i
      → scan_queue i q ≡ some q'
      → Inv n q'
  unfolding scan_queue get_thread
  scan_queue-Inv n i q q' inv e gives =
      scan_at-Inv n i (ltb i q.size) (get_elem? q.pool.threads i) q q' inv e refl gives

  -- It stays inside a pool that has `m_size` workers.
  pub scan_queue-defined :
      (n i : ℕ) (q : TaskQueue P)
      → Inv n q
      → q.size ≤ n
      → (q' : TaskQueue P) × (scan_queue i q ≡ some q')
  unfolding scan_queue get_thread
  scan_queue-defined n i q inv fits = elim (Bool-cases (ltb i q.size)) [
    | inl within ↦
        let lt = ltb→lt i q.size within in
        let (w, has) = lt-get_elem? q.pool.threads i (omega (arith, inv.count)) in
        (try_worker i w q, rw (within, has))
    | inr past ↦ (record q { point = at_loop }, rw past)
  ]
