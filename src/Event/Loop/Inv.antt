-- ===== src/Event/Loop/Inv.antt =====
-- The invariant of `loop` (framework/events/loop.cpp): who holds each node, which nodes make up the
-- list, and who has to cycle it.
pub mod Update
pub mod Senders
pub mod Linking
pub mod Appending
pub mod Workers
pub mod Cycling
pub mod Deleting
use strange_io.Common.{
  ℕ, zero, suc, ◌+◌, ◌-◌, ◌<◌, ◌≤◌, ◌≡◌, ◌≢◌, ◌⊎◌, Bool, true, false, Option, none, some, List, [],
  ◌∷◌, if◌then◌else◌, ltb, length, take, get_elem?,
}
use strange_io.Event.Loop.{
  Node, Sender, idle, ready, opening, linking, retask, Worker, off, at_node, sent, waiting, leaving,
  State,
}

-- Who a node belongs to. `listed k` is the item of the `k`-th message put into a list.
pub data Holder : Type 0 where
  free : Holder
  by_sender : ℕ → Holder
  listed : ℕ → Holder
  by_worker : ℕ → Holder

-- Who has to see to it that the list is cycled: no one, as there is none; the thread that opens it;
-- the one about to add the task; the task; the thread that cycles it.
pub data Owner : Type 0 where
  nobody queued : Owner
  opener retasker runner : ℕ → Owner

-- Who is in the mutex.
pub data Keeper : Type 0 where
  outside : Keeper
  opens_in links_in : ℕ → ℕ → Keeper

-- `addr k` is the address of the `k`-th item, `front` the first item that is still in the list.
pub record Ghost : Type 0 where
  pub holder : ℕ → Holder
  pub addr : ℕ → ℕ
  pub front : ℕ
  pub owner : Owner
  pub keeper : Keeper

module _ {M : Type 0} (st : State M) (g : Ghost) where
  abbrev pub count : ℕ
  count = length st.linked

  abbrev pub done : ℕ
  done = length st.handed

  -- The address of the last item, if there is a list.
  abbrev pub last_of : Option ℕ
  last_of = if ltb g.front count then some (g.addr (count - 1)) else none

  abbrev pub node_of : ℕ → Node M
  node_of k = record {
    ptr = if ltb k done then none else get_elem? st.linked k;
    next = if ltb (k + 1) count then some (g.addr (k + 1)) else none;
  }

  abbrev pub Cell : ℕ → Holder → Type 0
  Cell a free = st.heap a ≡ none
  Cell a (by_sender s) =
      (m : M) × (st.senders s ≡ ready a m)
      × (st.heap a ≡ some (record { ptr = some m; next = none }))
  Cell a (listed k) = (g.front ≤ k) × (k < count) × (g.addr k ≡ a) × (st.heap a ≡ some (node_of k))
  Cell a (by_worker w) =
      (st.workers w ≡ leaving a) × (n : Node M) × (st.heap a ≡ some n) × (n.next ≡ none)

  abbrev pub SenderOk : ℕ → Sender M → Type 0
  SenderOk s idle = Unit {0}
  SenderOk s (ready a m) = g.holder a ≡ by_sender s
  SenderOk s (opening a) = g.keeper ≡ opens_in s a
  SenderOk s (linking a) = g.keeper ≡ links_in s a
  SenderOk s retask = g.owner ≡ retasker s

  abbrev pub WorkerOk : ℕ → Worker → Type 0
  WorkerOk w off = Unit {0}
  WorkerOk w (at_node none) = Unit {0}
  WorkerOk w (at_node (some a)) = g.owner ≡ runner w
  WorkerOk w (sent a) = g.owner ≡ runner w
  WorkerOk w (waiting a) = g.owner ≡ runner w
  WorkerOk w (leaving a) = (g.owner ≡ runner w) ⊎ (g.holder a ≡ by_worker w)

  abbrev pub KeeperOk : Keeper → Type 0
  KeeperOk outside = (st.locked ≡ false) × (st.tail_ptr ≡ last_of) × (st.tail ≡ last_of)
  KeeperOk (opens_in s a) =
      (st.locked ≡ true)
      × (st.senders s ≡ opening a)
      × (st.tail_ptr ≡ last_of)
      × (g.owner ≡ opener s)
      × (a ≡ g.addr g.front)
  KeeperOk (links_in s a) =
      (st.locked ≡ true)
      × (st.senders s ≡ linking a)
      × (st.tail ≡ last_of)
      × (a ≡ g.addr (count - 1))
      × (suc g.front < count)
      × (st.tail_ptr ≡ some (g.addr (count - 2)))

  -- The thread that cycles the list is at its front.
  abbrev pub RunnerOk : Worker → Type 0
  RunnerOk off = ⊥
  RunnerOk (at_node none) = ⊥
  RunnerOk (at_node (some a)) = (a ≡ g.addr g.front) × (done ≡ g.front)
  RunnerOk (sent a) = (a ≡ g.addr g.front) × (done ≡ suc g.front)
  RunnerOk (waiting a) = (a ≡ g.addr g.front) × (done ≡ suc g.front)
  RunnerOk (leaving a) =
      (a ≡ g.addr g.front) × (done ≡ suc g.front) × (suc g.front < count) × (st.tail_ptr ≢ some a)

  abbrev pub OwnerOk : Owner → Type 0
  OwnerOk nobody = (st.tasks ≡ 0) × (g.front ≡ count) × (done ≡ count)
  OwnerOk (opener s) =
      (st.tasks ≡ 0)
      × (suc g.front ≡ count)
      × (done ≡ g.front)
      × (g.keeper ≡ opens_in s (g.addr g.front))
  OwnerOk (retasker s) =
      (st.tasks ≡ 0)
      × (g.front < count)
      × (done ≡ g.front)
      × (st.senders s ≡ retask)
      × (st.head ≡ some (g.addr g.front))
  OwnerOk queued =
      (st.tasks ≡ 1) × (g.front < count) × (done ≡ g.front) × (st.head ≡ some (g.addr g.front))
  OwnerOk (runner w) = (st.tasks ≡ 0) × (g.front < count) × RunnerOk (st.workers w)

pub record Inv {M : Type 0} (st : State M) (g : Ghost) : Type 0 where
  pub cells : (a : ℕ) → Cell st g a (g.holder a)
  pub places : (k : ℕ) → g.front ≤ k → k < count st g → g.holder (g.addr k) ≡ listed k
  pub senders : (s : ℕ) → SenderOk st g s (st.senders s)
  pub workers : (w : ℕ) → WorkerOk st g w (st.workers w)
  pub keeper : KeeperOk st g g.keeper
  pub owner : OwnerOk st g g.owner
  pub prefix : st.handed ≡ take (done st g) st.linked
