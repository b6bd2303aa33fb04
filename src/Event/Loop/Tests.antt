-- ===== src/Event/Loop/Tests.antt =====
-- A loop with one event, which a worker hands out.
use strange_io.Common.{ℕ, ◌≡◌, ◌≢◌, refl, Bool, true, false, none, some, take, length}
use strange_io.Event.Loop.{
  Node, begins, opens, publishes, adds_task, State, new_loop, new_item, open_list, publish_list,
  add_cycle,
}
use strange_io.Event.Loop.Reach.{Reach, start, step}
use strange_io.Event.Loop.Order.{Followed, Reach-order, Reach-Followed}
use strange_io.Event.Loop.Progress.{GoesOn, Reach-GoesOn}

abbrev every : ℕ → Bool
every m = true

-- Thread 1 opens a list with message 7 at address 4 and queues the task.
abbrev ready_one : State ℕ
ready_one = new_item 1 4 7 new_loop

abbrev opened_one : State ℕ
opened_one = open_list 1 4 7 ready_one

abbrev published_one : State ℕ
published_one = publish_list 1 4 opened_one

abbrev queued_one : State ℕ
queued_one = add_cycle 1 published_one

queued_one-Reach : Reach every queued_one
unfolding new_item open_list publish_list
queued_one-Reach =
    step published_one queued_one
      (step opened_one published_one
        (step ready_one opened_one (step new_loop ready_one start (begins 1 4 7 refl refl refl))
          (opens 1 4 7 refl refl refl))
        (publishes 1 4 refl))
      (adds_task 1 refl)

Reach-order_example :
    (queued_one.handed ≡ take (length queued_one.handed) queued_one.linked)
    × (queued_one.locked ≡ false
        → queued_one.tail_ptr ≡ none
        → queued_one.handed ≡ queued_one.linked)
Reach-order_example = Reach-order every queued_one queued_one-Reach

Reach-Followed_example :
    ((w : ℕ) → Followed queued_one (queued_one.workers w))
    × ((u : ℕ)
        → queued_one.locked ≡ false
        → queued_one.tail_ptr ≡ some u
        → (t : ℕ) × (n : Node ℕ) × (queued_one.tail ≡ some t) × (queued_one.heap t ≡ some n))
Reach-Followed_example = Reach-Followed every queued_one queued_one-Reach

one_left : queued_one.handed ≢ queued_one.linked
unfolding new_item open_list publish_list add_cycle
one_left e = cc

Reach-GoesOn_example : GoesOn every queued_one
unfolding new_item open_list publish_list add_cycle
Reach-GoesOn_example = Reach-GoesOn every queued_one 2 queued_one-Reach refl one_left
