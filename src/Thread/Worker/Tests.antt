-- ===== src/Thread/Worker/Tests.antt =====
-- A worker that is given package 5 and woken.
use strange_io.Common.{ℕ, refl, ◌≡◌, none, some, ◌>>=◌, [], ◌∷◌}
use strange_io.Thread.Worker.{
  WorkerState, started, wait_worker, is_waiting, assign_package, notify_worker, wake_worker,
  run_worker, looking, looks, assigns, notifies, waits, wakes,
}
use strange_io.Thread.Worker.Handover.{Reached, start, step}

abbrev waiting_one : WorkerState ℕ
waiting_one = wait_worker started

abbrev owned_one : WorkerState ℕ
owned_one = is_waiting waiting_one

abbrev assigned_one : WorkerState ℕ
assigned_one = assign_package 5 owned_one

abbrev told_one : WorkerState ℕ
told_one = record (notify_worker assigned_one) { waiter = looking }

abbrev woken_one : WorkerState ℕ
woken_one = wake_worker told_one

woken_one-Reached : Reached woken_one
unfolding wait_worker is_waiting assign_package notify_worker
woken_one-Reached =
    step told_one woken_one
      (step assigned_one told_one
        (step owned_one assigned_one
          (step waiting_one owned_one (step started waiting_one start (waits refl))
            (looks refl refl))
          (assigns 5 refl))
        (notifies refl))
      (wakes refl refl)

-- A wait that ends without a notification: the null pointer where no package came yet, and the
-- package once more where it has been run.
woken_early : run_worker (wake_worker waiting_one) ≡ none
unfolding run_worker wake_worker wait_worker
woken_early = refl

run_twice :
    (run_worker woken_one >>= λ w. run_worker (wake_worker (wait_worker w)) >>= λ v. some v.ran)
    ≡ some (5 ∷ 5 ∷ [])
unfolding run_worker wake_worker wait_worker is_waiting assign_package notify_worker
run_twice = refl
