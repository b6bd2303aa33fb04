-- ===== src/Event/Loop/Order.antt =====
-- In which order `loop` (framework/events/loop.cpp) hands events out, and what it touches.
use strange_io.Common.{
  ℕ, zero, suc, ◌-◌, ◌≡◌, refl, sym, ap, subst, ◌∙◌, inl, inr, Bool, false, none, some, List, [],
  ◌∷◌, length, take, arith, le→ltb,
}
use strange_io.Event.Loop.{Node, Worker, off, at_node, sent, waiting, leaving, State}
use strange_io.Event.Loop.Inv.{
  runner, Ghost, Inv, count, done, node_of, Cell, WorkerOk, RunnerOk, OwnerOk,
}
use strange_io.Event.Loop.Inv.Update.{last_some}
use strange_io.Event.Loop.Inv.Linking.{is_outside, is_nobody, some_last}
use strange_io.Event.Loop.Inv.Cycling.{front_item}
use strange_io.Component.Linkable.Valid.{get_elem?-some}
use strange_io.Event.Loop.Reach.{Reach, Reach-Inv}

pub take_all : {A : Type 0} (n : ℕ) (xs : List A) → n ≡ length xs → take n xs ≡ xs
take_all zero [] e = refl
take_all zero (x ∷ xs) e = absurd (omega (arith, e))
take_all (suc n) [] e = absurd (omega (arith, e))
take_all (suc n) (x ∷ xs) e = ap (◌∷◌ x) (take_all n xs (omega (arith, e)))

-- What a thread of `cycle_events` is about to follow.
abbrev pub Followed : {M : Type 0} → State M → Worker → Type 0
Followed st off = Unit {0}
Followed st (at_node none) = Unit {0}
Followed {M} st (at_node (some a)) =
    (n : Node M) × (m : M) × (st.heap a ≡ some n) × (n.ptr ≡ some m)
Followed {M} st (sent a) = (n : Node M) × (st.heap a ≡ some n)
Followed {M} st (waiting a) = (n : Node M) × (st.heap a ≡ some n)
Followed {M} st (leaving a) = (n : Node M) × (st.heap a ≡ some n)

module _ {M : Type 0} (listened : M → Bool) where
  -- In every state that any number of threads get to by adding events and cycling them, the
  -- messages handed out are the first of those put into the list, in that order and each once;
  -- where no list is there and no one is in the mutex, all have been handed out.
  pub Reach-order :
      (st : State M)
      → Reach listened st
      → (st.handed ≡ take (length st.handed) st.linked)
        × (st.locked ≡ false → st.tail_ptr ≡ none → st.handed ≡ st.linked)
  Reach-order st reached =
      let (g, inv) = Reach-Inv listened st reached in
      (
        inv.prefix,
        λ unlocked reset.
            let (no_keeper, tp, tl) = is_outside st g inv g.keeper inv.keeper unlocked in
            let own = is_nobody st g inv g.owner inv.owner (sym tp ∙ reset) in
            let (t, f, all_done) = subst (OwnerOk st g) own inv.owner in
            inv.prefix ∙ take_all (length st.handed) st.linked all_done,
      )

  runner_follows :
      (st : State M) (g : Ghost) (w : ℕ) (pc : Worker)
      → Inv st g
      → st.workers w ≡ pc
      → Followed st pc
  runner_follows st g w off inv at = tt
  runner_follows st g w (at_node none) inv at = tt
  runner_follows st g w (at_node (some a)) inv at =
      let own : g.owner ≡ runner w = subst (WorkerOk st g w) at (inv.workers w) in
      let (no_tasks, some_left, ran) = subst (OwnerOk st g) own inv.owner in
      let (at_front, d) = subst (RunnerOk st g) at ran in
      let (mine, is) = front_item st g inv w a (at_node (some a)) own at_front some_left in
      let m = get_elem?-some st.linked g.front some_left in
      (node_of st g g.front, m.0, is, rw (le→ltb g.front (done st g) (omega (arith, d))) m.1)
  runner_follows st g w (sent a) inv at =
      let own : g.owner ≡ runner w = subst (WorkerOk st g w) at (inv.workers w) in
      let (no_tasks, some_left, ran) = subst (OwnerOk st g) own inv.owner in
      let (at_front, d) = subst (RunnerOk st g) at ran in
      (node_of st g g.front, (front_item st g inv w a (sent a) own at_front some_left).1)
  runner_follows st g w (waiting a) inv at =
      let own : g.owner ≡ runner w = subst (WorkerOk st g w) at (inv.workers w) in
      let (no_tasks, some_left, ran) = subst (OwnerOk st g) own inv.owner in
      let (at_front, d) = subst (RunnerOk st g) at ran in
      (node_of st g g.front, (front_item st g inv w a (waiting a) own at_front some_left).1)
  runner_follows st g w (leaving a) inv at = elim (subst (WorkerOk st g w) at (inv.workers w)) [
    | inl own ↦
        let (no_tasks, some_left, ran) = subst (OwnerOk st g) own inv.owner in
        let (at_front, d, more, ne) = subst (RunnerOk st g) at ran in
        (node_of st g g.front, (front_item st g inv w a (leaving a) own at_front some_left).1)
    | inr mine ↦ let (at', n, is, last) = subst (Cell st g a) mine (inv.cells a) in (n, is)
  ]

  -- In every state that the threads get to, no thread follows a null pointer or one to a deleted
  -- node: the node that a thread cycles is there, with its message where that is to be handed out;
  -- and where a list is there and no one is in the mutex, the tail that a thread links its item to
  -- is there.
  pub Reach-Followed :
      (st : State M)
      → Reach listened st
      → ((w : ℕ) → Followed st (st.workers w))
        × ((u : ℕ)
            → st.locked ≡ false
            → st.tail_ptr ≡ some u
            → (t : ℕ) × (n : Node M) × (st.tail ≡ some t) × (st.heap t ≡ some n))
  Reach-Followed st reached =
      let (g, inv) = Reach-Inv listened st reached in
      (
        λ w. runner_follows st g w (st.workers w) inv refl,
        λ u unlocked has.
            let (no_keeper, tp, tl) = is_outside st g inv g.keeper inv.keeper unlocked in
            let (some_left, u_last) = some_last st g inv u (sym tp ∙ has) in
            let k = count st g - 1 in
            let (low, high, at, is) =
              subst (Cell st g (g.addr k))
                (inv.places k (omega (arith, some_left)) (omega (arith, some_left)))
                (inv.cells (g.addr k)) in
            (g.addr k, node_of st g k, tl ∙ last_some st st g g some_left, is),
      )
