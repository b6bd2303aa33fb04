-- ===== src/Thread/Worker/Handover.antt =====
-- The packages that a `worker` (framework/threads/worker.cpp) is given and runs. Its wait has no
-- predicate, so it may end without a notification.
use strange_io.Common.{
  ◌≡◌, ◌≢◌, ◌⊎◌, inl, inr, refl, sym, subst, Bool, true, false, not, Option, none, some, List, [],
  ◌∷◌, ◌++◌, if◌then◌else◌, some_inj,
}
use strange_io.Thread.Worker.{
  WorkerState, WorkerStep, nobody, testing, asleep, awake, ended, looking, owning, started,
  notify_worker, is_waiting, assign_package, stop_worker, wait_worker, wake_worker, run_worker,
  looks, assigns, notifies, stops, waits, wakes, runs,
}
use strange_io.Thread.Worker.Repeats.{
  Repeats, nothing, Runs, all_run, last_left, assign-Runs, run-Runs, reset-Runs,
}

module _ {P : Type 0} where
  -- All that was given has been run, but for the last package where one is loaded.
  abbrev pub AllButLast : WorkerState P → Type 0
  AllButLast w =
      (w.loaded ≡ false → Repeats w.given w.ran)
      × (w.loaded ≡ true → (g : List P) × (p : P) × (w.given ≡ g ++ p ∷ []) × Repeats g w.ran)

  record Keeps (w : WorkerState P) : Type 0 where
    runs_of : Runs w.loaded w.given w.ran w.current
    free : w.waiter ≡ owning → w.loaded ≡ false
    null : w.current ≡ none → (w.given ≡ []) ⊎ (w.process ≡ ended)

  choose :
      (b : Bool) (x y : WorkerState P)
      → (b ≡ true → Keeps x)
      → (b ≡ false → Keeps y)
      → Keeps (if b then x else y)
  choose true x y f g = f refl
  choose false x y f g = g refl

  -- A thread that is not at its end moves on in `process`.
  not_ended :
      (w : WorkerState P)
      → Keeps w
      → w.process ≢ ended
      → w.current ≡ none
      → {B : Type 0} → (w.given ≡ []) ⊎ B
  not_ended w k ne e = elim (k.null e) [ inl empty ↦ inl empty | inr at ↦ elim (ne at) [ ] ]

  stops-Keeps : (w : WorkerState P) → Keeps w → Keeps (stop_worker w)
  unfolding stop_worker notify_worker
  stops-Keeps w k =
      choose (not w.active) w _ (λ e. k)
        (λ e. record { runs_of = k.runs_of; free = k.free; null = k.null })

  looks-Keeps : (w : WorkerState P) → Keeps w → Keeps (is_waiting w)
  unfolding is_waiting
  looks-Keeps w k =
      choose w.loaded w _ (λ l. k)
        (λ l. record { runs_of = k.runs_of; free = λ at. l; null = k.null })

  assigns-Keeps :
      (task : P) (w : WorkerState P) → Keeps w → w.waiter ≡ owning → Keeps (assign_package task w)
  unfolding assign_package
  assigns-Keeps task w k at = record {
    runs_of = assign-Runs w.loaded w.given w.ran w.current task (k.free at) k.runs_of;
    free = λ h. cc;
    null = λ h. cc;
  }

  notifies-Keeps :
      (w : WorkerState P) → Keeps w → Keeps (record (notify_worker w) { waiter = looking })
  unfolding notify_worker
  notifies-Keeps w k = record { runs_of = k.runs_of; free = λ h. cc; null = k.null }

  waits-Keeps : (w : WorkerState P) → Keeps w → w.process ≡ testing → Keeps (wait_worker w)
  unfolding wait_worker
  waits-Keeps w k at =
      choose w.running _ _
        (λ on. record { runs_of = k.runs_of; free = k.free; null = λ e. not_ended w k (λ h. cc) e })
        (λ off. record { runs_of = k.runs_of; free = k.free; null = λ e. inr refl })

  wakes-Keeps : (w : WorkerState P) → Keeps w → w.process ≡ asleep → Keeps (wake_worker w)
  unfolding wake_worker
  wakes-Keeps w k at = record {
    runs_of = k.runs_of;
    free = k.free;
    null = λ e. not_ended w k (λ h. cc) e;
  }

  -- The end of a stopped thread, and the state after a run.
  abbrev stopped : WorkerState P → WorkerState P
  stopped w = record w { current = none; mutex = nobody; process = ended }

  abbrev ran_of : P → WorkerState P → WorkerState P
  ran_of task w = record w { loaded = false; process = testing; ran = w.ran ++ task ∷ [] }

  run_at-Keeps :
      (on : Bool) (c : Option P) (w w' : WorkerState P)
      → Keeps w
      → w.current ≡ c
      → (if not on
          then some (stopped w)
          else elim c [ none ↦ none | some task ↦ some (ran_of task w) ])
        ≡ some w'
      → Keeps w'
  run_at-Keeps false c w w' k e gives = subst Keeps (some_inj gives) (record {
    runs_of = reset-Runs w.loaded w.given w.ran w.current k.runs_of;
    free = k.free;
    null = λ h. inr refl;
  })
  run_at-Keeps true none w w' k e gives = cc
  run_at-Keeps true (some task) w w' k e gives = subst Keeps (some_inj gives) (record {
    runs_of =
        subst (Runs false w.given (w.ran ++ task ∷ [])) (sym e)
          (run-Runs w.loaded w.given w.ran task (subst (Runs w.loaded w.given w.ran) e k.runs_of));
    free = λ h. refl;
    null = λ h. cc;
  })

  runs-Keeps : (w w' : WorkerState P) → Keeps w → run_worker w ≡ some w' → Keeps w'
  unfolding run_worker
  runs-Keeps w w' k gives = run_at-Keeps w.running w.current w w' k refl gives

  pub data Reached : WorkerState P → Type 0 where
    start : Reached started
    step : (w w' : WorkerState P) → Reached w → WorkerStep w w' → Reached w'

  WorkerStep-Keeps : (w w' : WorkerState P) → Keeps w → WorkerStep w w' → Keeps w'
  WorkerStep-Keeps w w' k (looks at m) = looks-Keeps w k
  WorkerStep-Keeps w w' k (assigns task at) = assigns-Keeps task w k at
  WorkerStep-Keeps w w' k (notifies at) = notifies-Keeps w k
  WorkerStep-Keeps w w' k stops = stops-Keeps w k
  WorkerStep-Keeps w w' k (waits at) = waits-Keeps w k at
  WorkerStep-Keeps w w' k (wakes at m) = wakes-Keeps w k at
  WorkerStep-Keeps w w' k (runs v at e) = runs-Keeps w v k e

  Reached-Keeps : (w : WorkerState P) → Reached w → Keeps w
  Reached-Keeps w start = record {
    runs_of = all_run refl nothing (λ p e. cc);
    free = λ h. cc;
    null = λ e. inl refl;
  }
  Reached-Keeps w (step v u reached moved) = WorkerStep-Keeps v u (Reached-Keeps v reached) moved

  Runs-AllButLast : (w : WorkerState P) → Runs w.loaded w.given w.ran w.current → AllButLast w
  Runs-AllButLast w (all_run l r c) = (λ h. r, λ h. cc)
  Runs-AllButLast w (last_left g p l e r c) = (λ h. cc, λ h. (g, p, e, r))

  pub Reached-AllButLast : (w : WorkerState P) → Reached w → AllButLast w
  Reached-AllButLast w reached = Runs-AllButLast w (Reached-Keeps w reached).runs_of

  finds :
      (on : Bool) (c : Option P) (w : WorkerState P)
      → c ≢ none
      → (w' : WorkerState P) × ((if not on
            then some (stopped w)
            else elim c [ none ↦ none | some task ↦ some (ran_of task w) ])
          ≡ some w')
  finds false c w has = (stopped w, refl)
  finds true none w has = elim (has refl) [ ]
  finds true (some task) w has = (ran_of task w, refl)

  -- Past its wait a worker that was given a package has one to run, unless it was stopped, and then
  -- it ends.
  pub Reached-finds :
      (w : WorkerState P)
      → Reached w
      → w.process ≡ awake
      → w.given ≢ []
      → (w' : WorkerState P) × (run_worker w ≡ some w')
  unfolding run_worker
  Reached-finds w reached at some_given =
      finds w.running w.current w (λ e. elim ((Reached-Keeps w reached).null e) [
        | inl empty ↦ some_given empty
        | inr end ↦ cc
      ])
