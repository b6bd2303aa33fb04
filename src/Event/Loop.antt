-- ===== src/Event/Loop.antt =====
-- `add_event` and `cycle_events` of `loop` (framework/events/loop.cpp), by any number of threads.
-- Each thread's next step is its `Sender` or `Worker`; a step is what a thread does up to the next
-- point where it reads or writes what others may write or read. Steps follow one another (memory is
-- sequentially consistent), and what a thread writes under the mutex and nobody reads without it
-- is one step. `M` is the type of messages. The counters of a DEVBUILD are left out.
pub mod Inv
pub mod Reach
pub mod Order
pub mod Progress
mod Tests
use strange_io.Common.{
  ℕ, zero, suc, ◌+◌, ◌≡◌, ◌≢◌, Bool, true, false, Option, none, some, List, [], ◌∷◌, ◌++◌, ◌==◌,
  if◌then◌else◌,
}

-- `event_list`; a pointer that is moved from is null.
pub record Node (M : Type 0) : Type 0 where
  pub ptr : Option M
  pub next : Option ℕ

-- A thread in `add_event`: outside; with its item ready for the list; in the mutex, having opened a
-- list or linked its item; about to add the task.
pub data Sender (M : Type 0) : Type 0 where
  idle : Sender M
  ready : ℕ → M → Sender M
  opening : ℕ → Sender M
  linking : ℕ → Sender M
  retask : Sender M

-- A thread in `cycle_events`: outside; at the head of the loop; with the node's message handed out;
-- having seen the node as the tail; past that test.
pub data Worker : Type 0 where
  off : Worker
  at_node : Option ℕ → Worker
  sent : ℕ → Worker
  waiting : ℕ → Worker
  leaving : ℕ → Worker

-- `linked` and `handed` are the history: the messages put into lists and those handed out.
pub record State (M : Type 0) : Type 0 where
  pub heap : ℕ → Option (Node M)
  pub head : Option ℕ
  pub tail : Option ℕ
  pub tail_ptr : Option ℕ
  pub locked : Bool
  pub tasks : ℕ
  pub senders : ℕ → Sender M
  pub workers : ℕ → Worker
  pub linked : List M
  pub handed : List M

abbrev pub update : {A : Type 0} → ℕ → A → (ℕ → A) → ℕ → A
update i a f j = if i == j then a else f j

module _ {M : Type 0} where
  -- `loop::loop`
  abbrev pub new_loop : State M
  new_loop = record {
    heap = λ a. none;
    head = none;
    tail = none;
    tail_ptr = none;
    locked = false;
    tasks = 0;
    senders = λ s. idle;
    workers = λ w. off;
    linked = [];
    handed = [];
  }

  abbrev pub set_sender : ℕ → Sender M → State M → State M
  set_sender s pc st = record st { senders = update s pc st.senders }

  abbrev pub set_worker : ℕ → Worker → State M → State M
  set_worker w pc st = record st { workers = update w pc st.workers }

  -- `new event_list()` at the address `a`.
  unfoldable pub new_item : ℕ → ℕ → M → State M → State M
  new_item s a m st =
      set_sender s (ready a m)
        (record st { heap = update a (some (record { ptr = some m; next = none })) st.heap })

  -- The branch of `add_event` for a list that is reset, in two parts.
  unfoldable pub open_list : ℕ → ℕ → M → State M → State M
  open_list s a m st =
      set_sender s (opening a)
        (record st { locked = true; tail_ptr = some a; linked = st.linked ++ m ∷ [] })

  unfoldable pub publish_list : ℕ → ℕ → State M → State M
  publish_list s a st =
      set_sender s retask (record st { locked = false; head = some a; tail = some a })

  -- The other branch, in two parts; the tail is the node `n` at `t`.
  unfoldable pub link_item : ℕ → ℕ → M → ℕ → Node M → State M → State M
  link_item s a m t n st = set_sender s (linking a) (record st {
    locked = true;
    heap = update t (some (record n { next = some a })) st.heap;
    tail = some a;
    linked = st.linked ++ m ∷ [];
  })

  unfoldable pub mark_tail : ℕ → ℕ → State M → State M
  mark_tail s a st = set_sender s idle (record st { locked = false; tail_ptr = some a })

  unfoldable pub add_cycle : ℕ → State M → State M
  add_cycle s st = set_sender s idle (record st { tasks = suc st.tasks })

  unfoldable pub start_cycle : ℕ → ℕ → State M → State M
  start_cycle w left st = set_worker w (at_node st.head) (record st { tasks = left })

  -- The node's message goes to all its listeners.
  unfoldable pub hand_out : ℕ → ℕ → Node M → M → State M → State M
  hand_out w a n m st = set_worker w (sent a) (record st {
    heap = update a (some (record n { ptr = none })) st.heap;
    handed = st.handed ++ m ∷ [];
  })

  unfoldable pub reset_list : ℕ → ℕ → State M → State M
  reset_list w a st =
      set_worker w (leaving a) (record st { tail_ptr = none; tail = none; head = none })

  unfoldable pub delete_node : ℕ → ℕ → Node M → State M → State M
  delete_node w a n st = set_worker w (at_node n.next) (record st { heap = update a none st.heap })

  -- The steps; `listened` tells which messages have a listener for their type.
  pub data Step (listened : M → Bool) (st : State M) : State M → Type 0 where
    begins :
        (s a : ℕ) (m : M)
        → st.senders s ≡ idle
        → listened m ≡ true
        → st.heap a ≡ none
        → Step listened st (new_item s a m st)
    opens :
        (s a : ℕ) (m : M)
        → st.senders s ≡ ready a m
        → st.locked ≡ false
        → st.tail_ptr ≡ none
        → Step listened st (open_list s a m st)
    publishes : (s a : ℕ) → st.senders s ≡ opening a → Step listened st (publish_list s a st)
    links :
        (s a t u : ℕ) (m : M) (n : Node M)
        → st.senders s ≡ ready a m
        → st.locked ≡ false
        → st.tail_ptr ≡ some u
        → st.tail ≡ some t
        → st.heap t ≡ some n
        → Step listened st (link_item s a m t n st)
    marks : (s a : ℕ) → st.senders s ≡ linking a → Step listened st (mark_tail s a st)
    adds_task : (s : ℕ) → st.senders s ≡ retask → Step listened st (add_cycle s st)
    starts :
        (w left : ℕ)
        → st.workers w ≡ off
        → st.tasks ≡ suc left
        → Step listened st (start_cycle w left st)
    ends : (w : ℕ) → st.workers w ≡ at_node none → Step listened st (set_worker w off st)
    hands :
        (w a : ℕ) (n : Node M) (m : M)
        → st.workers w ≡ at_node (some a)
        → st.heap a ≡ some n
        → n.ptr ≡ some m
        → Step listened st (hand_out w a n m st)
    sees_other :
        (w a : ℕ)
        → st.workers w ≡ sent a
        → st.tail_ptr ≢ some a
        → Step listened st (set_worker w (leaving a) st)
    sees_tail :
        (w a : ℕ)
        → st.workers w ≡ sent a
        → st.tail_ptr ≡ some a
        → Step listened st (set_worker w (waiting a) st)
    resets :
        (w a : ℕ)
        → st.workers w ≡ waiting a
        → st.locked ≡ false
        → st.tail_ptr ≡ some a
        → Step listened st (reset_list w a st)
    keeps :
        (w a : ℕ)
        → st.workers w ≡ waiting a
        → st.locked ≡ false
        → st.tail_ptr ≢ some a
        → Step listened st (set_worker w (leaving a) st)
    deletes :
        (w a : ℕ) (n : Node M)
        → st.workers w ≡ leaving a
        → st.heap a ≡ some n
        → Step listened st (delete_node w a n st)
