-- ===== src/Event/Loop/Reach.antt =====
-- The states that `loop` (framework/events/loop.cpp) gets to.
use strange_io.Common.{refl, Bool}
use strange_io.Event.Loop.{
  Step, begins, opens, publishes, links, marks, adds_task, starts, ends, hands, sees_other,
  sees_tail, resets, keeps, deletes, new_loop, State,
}
use strange_io.Event.Loop.Inv.{free, nobody, outside, Ghost, Inv}
use strange_io.Event.Loop.Inv.Senders.{begins-Inv, publishes-Inv, marks-Inv, adds-Inv}
use strange_io.Event.Loop.Inv.Linking.{opens-Inv}
use strange_io.Event.Loop.Inv.Appending.{links-Inv}
use strange_io.Event.Loop.Inv.Workers.{ends-Inv, sees_other-Inv, sees_tail-Inv, keeps-Inv}
use strange_io.Event.Loop.Inv.Cycling.{starts-Inv, hands-Inv, resets-Inv}
use strange_io.Event.Loop.Inv.Deleting.{deletes-Inv}

module _ {M : Type 0} (listened : M → Bool) where
  pub data Reach : State M → Type 0 where
    start : Reach new_loop
    step : (st st' : State M) → Reach st → Step listened st st' → Reach st'

  Step-Inv :
      (st st' : State M) (g : Ghost) → Inv st g → Step listened st st' → (g' : Ghost) × Inv st' g'
  Step-Inv st st' g inv (begins s a m at heard fresh) = begins-Inv st g inv s a m at fresh
  Step-Inv st st' g inv (opens s a m at unlocked reset) = opens-Inv st g inv s a m at unlocked reset
  Step-Inv st st' g inv (publishes s a at) = publishes-Inv st g inv s a at
  Step-Inv st st' g inv (links s a t u m n at unlocked has tail node) =
      links-Inv st g inv s a t u m n at unlocked has tail node
  Step-Inv st st' g inv (marks s a at) = marks-Inv st g inv s a at
  Step-Inv st st' g inv (adds_task s at) = adds-Inv st g inv s at
  Step-Inv st st' g inv (starts w left at some_left) = starts-Inv st g inv w left at some_left
  Step-Inv st st' g inv (ends w at) = ends-Inv st g inv w at
  Step-Inv st st' g inv (hands w a n m at node message) = hands-Inv st g inv w a n m at node message
  Step-Inv st st' g inv (sees_other w a at ne) = sees_other-Inv st g inv w a at ne
  Step-Inv st st' g inv (sees_tail w a at is) = sees_tail-Inv st g inv w a at
  Step-Inv st st' g inv (resets w a at unlocked is) = resets-Inv st g inv w a at unlocked is
  Step-Inv st st' g inv (keeps w a at unlocked ne) = keeps-Inv st g inv w a at ne
  Step-Inv st st' g inv (deletes w a n at node) = deletes-Inv st g inv w a n at node

  abbrev nothing : Ghost
  nothing = record {
    holder = λ a. free;
    addr = λ k. 0;
    front = 0;
    owner = nobody;
    keeper = outside;
  }

  pub Reach-Inv : (st : State M) → Reach st → (g : Ghost) × Inv st g
  Reach-Inv st start = (
    nothing,
    record {
      cells = λ a. refl;
      places = λ k low high. elim high [ ];
      senders = λ s. tt;
      workers = λ w. tt;
      keeper = (refl, refl, refl);
      owner = (refl, refl, refl);
      prefix = refl;
    },
  )
  Reach-Inv st (step before now reached moved) =
      let (g, inv) = Reach-Inv before reached in Step-Inv before now g inv moved
