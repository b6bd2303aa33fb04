-- ===== src/Thread/Queue/Cycle.antt =====
-- The steps of `queue::cycle` (framework/threads/queue.cpp) up to `assign`.
use strange_io.Common.{
  ℕ, ◌≡◌, refl, sym, ap, ◌∙◌, Bool, true, false, Option, none, some, List, [], ◌∷◌, ◌++◌, map,
  if◌then◌else◌, ◌==◌, arith,
}
use strange_io.Thread.Pump.{next_package, get_load}
use strange_io.Thread.Queue.{
  CyclePoint, at_loop, in_wait, past_wait, finished, scanning, TaskQueue, loop_queue, take_queue,
}
use strange_io.Thread.Queue.Inv.{waiter_at, held, Ready, Inv}

module _ {P : Type 0} where
  -- The thread goes on to a point where it is at no worker.
  pub move-Inv :
      (n : ℕ) (q : TaskQueue P) (pt : CyclePoint)
      → Inv n q
      → ((i : ℕ) → waiter_at pt i ≡ waiter_at q.point i)
      → Ready n pt q.raw_pkg
      → Inv n (record q { point = pt })
  move-Inv n q pt inv same ready = record {
    workers =
        λ i w e. let (reached, at, has) = inv.workers i w e in (reached, at ∙ sym (same i), has);
    order = inv.order;
    load = inv.load;
    count = inv.count;
    ready = ready;
  }

  -- From a point where the thread is at no worker.
  pub leave :
      (q : TaskQueue P) (pt pt' : CyclePoint)
      → q.point ≡ pt
      → ((i : ℕ) → waiter_at pt' i ≡ waiter_at pt i)
      → (i : ℕ) → waiter_at pt' i ≡ waiter_at q.point i
  leave q pt pt' e same i = same i ∙ ap (λ p. waiter_at p i) (sym e)

  pub choose :
      (n : ℕ) (b : Bool) (x y : TaskQueue P)
      → (b ≡ true → Inv n x)
      → (b ≡ false → Inv n y)
      → Inv n (if b then x else y)
  choose n true x y f g = f refl
  choose n false x y f g = g refl

  wait_or_pass :
      (n : ℕ) (b : Bool) (q : TaskQueue P)
      → Inv n q
      → q.point ≡ at_loop
      → Inv n (record q { point = if b then in_wait else past_wait })
  wait_or_pass n true q inv e = move-Inv n q in_wait inv (leave q at_loop in_wait e (λ i. refl)) tt
  wait_or_pass n false q inv e =
      move-Inv n q past_wait inv (leave q at_loop past_wait e (λ i. refl)) tt

  pub loop_queue-Inv :
      (n : ℕ) (q : TaskQueue P) → Inv n q → q.point ≡ at_loop → Inv n (loop_queue q)
  unfolding loop_queue
  loop_queue-Inv n q inv e =
      choose n q.running _ _ (λ on. wait_or_pass n (get_load q.pump == 0) q inv e)
        (λ off. move-Inv n q finished inv (leave q at_loop finished e (λ i. refl)) tt)

  -- The next package of the pump becomes the one at hand.
  next-Inv :
      (n : ℕ) (queue : List P) (load : ℕ) (q : TaskQueue P)
      → Inv n (record q { pump = record { queue = queue; load = load } })
      → q.point ≡ past_wait
      → q.raw_pkg ≡ none
      → let (task, pump') = next_package (record { queue = queue; load = load }) in
        Inv n (record q {
          pump = pump';
          raw_pkg = task;
          point = elim task [ none ↦ at_loop | some _ ↦ scanning 0 ];
        })
  unfolding next_package
  next-Inv n [] load q inv e empty = record {
    workers = λ i w has.
        let (reached, at, given) = inv.workers i w has in
        (reached, at ∙ sym (leave q past_wait at_loop e (λ i. refl) i), given);
    order = inv.order ∙ ap (λ r. map (λ h. h.1) q.handed ++ (held r ++ [])) empty;
    load = inv.load;
    count = inv.count;
    ready = tt;
  }
  next-Inv n (task ∷ rest) load q inv e empty = record {
    workers = λ i w has.
        let (reached, at, given) = inv.workers i w has in
        (reached, at ∙ sym (leave q past_wait (scanning 0) e (λ i. refl) i), given);
    order = inv.order ∙ ap (λ r. map (λ h. h.1) q.handed ++ (held r ++ task ∷ rest)) empty;
    load = omega (arith, inv.load);
    count = inv.count;
    ready = (task, refl);
  }

  take-Inv :
      (n : ℕ) (raw : Option P) (q : TaskQueue P)
      → Inv n q
      → q.point ≡ past_wait
      → q.raw_pkg ≡ raw
      → Inv n (elim raw [
        | some task ↦ record q { point = scanning 0 }
        | none ↦
            let (task, pump') = next_package q.pump in
            record q {
              pump = pump';
              raw_pkg = task;
              point = elim task [ none ↦ at_loop | some _ ↦ scanning 0 ];
            }
      ])
  take-Inv n none q inv e empty = next-Inv n q.pump.queue q.pump.load q inv e empty
  take-Inv n (some task) q inv e has =
      move-Inv n q (scanning 0) inv (leave q past_wait (scanning 0) e (λ i. refl)) (task, has)

  pub take_queue-Inv :
      (n : ℕ) (q : TaskQueue P) → Inv n q → q.point ≡ past_wait → Inv n (take_queue q)
  unfolding take_queue
  take_queue-Inv n q inv e =
      choose n q.running _ _ (λ on. take-Inv n q.raw_pkg q inv e refl)
        (λ off. move-Inv n q finished inv (leave q past_wait finished e (λ i. refl)) tt)
