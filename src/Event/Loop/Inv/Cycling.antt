-- ===== src/Event/Loop/Inv/Cycling.antt =====
-- `cycle_events` (framework/events/loop.cpp): its start, the messages it hands out, and the reset.
use strange_io.Common.{
  ℕ, suc, ◌+◌, ◌-◌, ◌<◌, ◌≤◌, ◌≡◌, refl, sym, ap, subst, ◌∙◌, inr, false, none, some, [], ◌∷◌, ◌++◌,
  take, get_elem?, arith, some_inj, lt→ltb, ℕ_discrete, le→ltb, length-append, take-suc,
}
use strange_io.Event.Loop.{
  Node, Worker, off, at_node, sent, waiting, leaving, State, update, start_cycle, hand_out,
  reset_list,
}
use strange_io.Event.Loop.Inv.{
  by_sender, listed, by_worker, Owner, nobody, queued, opener, retasker, runner, Ghost, Inv, count,
  done, last_of, node_of, Cell, WorkerOk, KeeperOk, RunnerOk, OwnerOk,
}
use strange_io.Event.Loop.Inv.Update.{
  update_self, update_other, update_all, update_kept, Cell-frame, KeeperOk-frame, SenderOk-frame,
  WorkerOk-frame, listed_inj, runner_inj,
}
use strange_io.Event.Loop.Inv.Linking.{is_outside, some_last}

module _ {M : Type 0} (st : State M) (g : Ghost) (inv : Inv st g) where
  -- A task that waits has the list to cycle, and is the only one.
  has_task :
      (o : Owner) (left : ℕ) → OwnerOk st g o → st.tasks ≡ suc left → (o ≡ queued) × (left ≡ 0)
  has_task nobody left (t, f, d) e = absurd (omega (arith, t, e))
  has_task queued left (t, f, d, h) e = (refl, omega (arith, t, e))
  has_task (opener s) left (t, f, d, k) e = absurd (omega (arith, t, e))
  has_task (retasker s) left (t, f, d, k, h) e = absurd (omega (arith, t, e))
  has_task (runner w) left (t, f, r) e = absurd (omega (arith, t, e))

  pub starts-Inv :
      (w left : ℕ)
      → st.workers w ≡ off
      → st.tasks ≡ suc left
      → (g' : Ghost) × Inv (start_cycle w left st) g'
  unfolding start_cycle
  starts-Inv w left at some_tasks =
      let st' = start_cycle w left st in
      let g' : Ghost = record g { owner = runner w } in
      let (own, no_tasks) = has_task g.owner left inv.owner some_tasks in
      let (t, some_left, d, head) = subst (OwnerOk st g) own inv.owner in
      (
        g',
        record {
          cells = λ a.
              Cell-frame st st' g g' a (g.holder a) refl (λ j m e at_j. refl)
                (λ v e at_v.
                  update_kept w v (at_node st.head) st.workers off (leaving a) at at_v (λ h. cc))
                (λ k e low high. (low, high, refl, refl)) (inv.cells a);
          places = inv.places;
          senders = λ j.
              SenderOk-frame st st' g g' j (st.senders j) (λ b e. e) (λ b e. e) (λ b e. e) (λ e. cc)
                (inv.senders j);
          workers =
              update_all (WorkerOk st' g') w (at_node st.head) st.workers
                (subst (λ x. WorkerOk st' g' w (at_node x)) (sym head) refl)
                (λ v other.
                  WorkerOk-frame st st' g g' v (st.workers v) (λ e. cc) (λ b e. e) (inv.workers v));
          keeper =
              KeeperOk-frame st st' g g' g.keeper refl refl refl refl refl refl (λ j b e at_j. refl)
                (λ j b e o. cc) (λ j b e at_j. refl) inv.keeper;
          owner = (
            no_tasks,
            some_left,
            subst (RunnerOk st' g') (sym (update_self w (at_node st.head) st.workers))
                (subst (λ x. RunnerOk st' g' (at_node x)) (sym head) (refl, d)),
          );
          prefix = inv.prefix;
        },
      )

  -- The item at the front of the list.
  pub front_item :
      (w a : ℕ) (pc : Worker)
      → g.owner ≡ runner w
      → a ≡ g.addr g.front
      → g.front < count st g
      → (g.holder a ≡ listed g.front) × (st.heap a ≡ some (node_of st g g.front))
  front_item w a pc own at_front some_left =
      let mine : g.holder a ≡ listed g.front =
        ap g.holder at_front ∙ inv.places g.front (omega arith) some_left in
      let (low, high, at, is) = subst (Cell st g a) mine (inv.cells a) in (mine, is)

  pub hands-Inv :
      (w a : ℕ) (n : Node M) (m : M)
      → st.workers w ≡ at_node (some a)
      → st.heap a ≡ some n
      → n.ptr ≡ some m
      → (g' : Ghost) × Inv (hand_out w a n m st) g'
  unfolding hand_out
  hands-Inv w a n m at there has_message =
      let st' = hand_out w a n m st in
      let own : g.owner ≡ runner w = subst (WorkerOk st g w) at (inv.workers w) in
      let (no_tasks, some_left, ran) = subst (OwnerOk st g) own inv.owner in
      let (at_front, d) = subst (RunnerOk st g) at ran in
      let (mine, is) = front_item w a (at_node (some a)) own at_front some_left in
      let n_is : n ≡ node_of st g g.front = some_inj (sym there ∙ is) in
      let ptr_is : (node_of st g g.front).ptr ≡ get_elem? st.linked g.front =
        rw (le→ltb g.front (done st g) (omega (arith, d))) refl in
      let next : get_elem? st.linked g.front ≡ some m =
        sym ptr_is ∙ ap (λ x. x.ptr) (sym n_is) ∙ has_message in
      let more : done st' g ≡ suc (done st g) = omega (arith, length-append st.handed (m ∷ [])) in
      let not_yet : (k : ℕ) → done st g ≤ k → done st' g ≤ k → node_of st' g k ≡ node_of st g k =
        λ k h h'. rw (le→ltb k (done st' g) h', le→ltb k (done st g) h) refl in
      let emptied : record n { ptr = none } ≡ node_of st' g g.front =
        rw (n_is, lt→ltb g.front (done st' g) (omega (arith, more, d))) refl in
      (
        g,
        record {
          cells = λ b. elim (ℕ_discrete a b) [
            | yes same ↦
                subst (λ x. Cell st' g x (g.holder x)) same
                  (subst (Cell st' g a) (sym mine) (
                    omega arith,
                    some_left,
                    sym at_front,
                    update_self a (some (record n { ptr = none })) st.heap ∙ ap some emptied,
                  ))
            | no ne ↦
                Cell-frame st st' g g b (g.holder b)
                  (update_other a b (some (record n { ptr = none })) st.heap ne)
                  (λ j x e at_j. refl)
                  (λ v e at_v.
                    update_kept w v (sent a) st.workers (at_node (some a)) (leaving b) at at_v
                      (λ x. cc))
                  (λ k e low high.
                    let (l, hi, at_b, is_b) = subst (Cell st g b) e (inv.cells b) in
                    let later : suc g.front ≤ k = elim (ℕ_discrete g.front k) [
                      | yes e' ↦ absurd (ne (at_front ∙ ap g.addr e' ∙ at_b))
                      | no e' ↦ omega (arith, low, e')
                    ] in
                    (
                      low,
                      high,
                      refl,
                      not_yet k (omega (arith, later, d)) (omega (arith, later, d, more)),
                    ))
                  (inv.cells b)
          ];
          places = inv.places;
          senders = inv.senders;
          workers =
              update_all (WorkerOk st' g) w (sent a) st.workers own (λ v other. inv.workers v);
          keeper =
              KeeperOk-frame st st' g g g.keeper refl refl refl refl refl refl (λ j b e at_j. refl)
                (λ j b e o. o) (λ j b e at_j. refl) inv.keeper;
          owner = subst (OwnerOk st' g) (sym own) (
            no_tasks,
            some_left,
            subst (RunnerOk st' g) (sym (update_self w (sent a) st.workers))
                (at_front, omega (arith, more, d)),
          );
          prefix =
              subst (λ k. st.handed ++ m ∷ [] ≡ take k st.linked) (sym more)
                (ap (λ xs. xs ++ m ∷ []) inv.prefix
                  ∙ sym (take-suc (done st g) st.linked m (ap (get_elem? st.linked) d ∙ next)));
        },
      )

  pub resets-Inv :
      (w a : ℕ)
      → st.workers w ≡ waiting a
      → st.locked ≡ false
      → st.tail_ptr ≡ some a
      → (g' : Ghost) × Inv (reset_list w a st) g'
  unfolding reset_list
  resets-Inv w a at unlocked is_tail =
      let st' = reset_list w a st in
      let g' : Ghost = record g {
        holder = update a (by_worker w) g.holder;
        front = suc g.front;
        owner = nobody;
      } in
      let own : g.owner ≡ runner w = subst (WorkerOk st g w) at (inv.workers w) in
      let (no_tasks, some_left, ran) = subst (OwnerOk st g) own inv.owner in
      let (at_front, d) = subst (RunnerOk st g) at ran in
      let (mine, is) = front_item w a (waiting a) own at_front some_left in
      let (no_keeper, tp, tl) = is_outside st g inv g.keeper inv.keeper unlocked in
      let (h, a_last) = some_last st g inv a (sym tp ∙ is_tail) in
      let one : suc g.front ≡ count st g = omega (
        arith,
        listed_inj (
            sym mine
            ∙ ap g.holder a_last
            ∙ inv.places (count st g - 1) (omega arith) (omega arith)),
        h,
      ) in
      let none_left : last_of st' g' ≡ none =
        rw (le→ltb (suc g.front) (count st g) (omega (arith, one))) refl in
      (
        g',
        record {
          cells =
              update_all (Cell st' g') a (by_worker w) g.holder
                (
                  update_self w (leaving a) st.workers,
                  node_of st g g.front,
                  is,
                  rw (le→ltb (g.front + 1) (count st g) (omega (arith, one))) refl,
                )
                (λ b other.
                  Cell-frame st st' g g' b (g.holder b) refl (λ j m e at_j. refl)
                    (λ v e at_v.
                      update_kept w v (leaving a) st.workers (waiting a) (leaving b) at at_v
                        (λ x. cc))
                    (λ k e low high.
                      let (l, hi, at_b, is_b) = subst (Cell st g b) e (inv.cells b) in
                      absurd (other (at_front ∙ ap g.addr (omega (arith, low, high, one)) ∙ at_b)))
                    (inv.cells b));
          places = λ k low high. absurd (omega (arith, low, high, one));
          senders = λ j.
              SenderOk-frame st st' g g' j (st.senders j)
                (λ b e.
                  update_kept a b (by_worker w) g.holder (listed g.front) (by_sender j) mine e
                    (λ x. cc)
                  ∙ e)
                (λ b e. e) (λ b e. e) (λ e. cc) (inv.senders j);
          workers =
              update_all (WorkerOk st' g') w (leaving a) st.workers
                (inr (update_self a (by_worker w) g.holder))
                (λ v other.
                  WorkerOk-frame st st' g g' v (st.workers v)
                    (λ e. absurd (other (runner_inj (sym own ∙ e))))
                    (λ b e.
                      update_kept a b (by_worker w) g.holder (listed g.front) (by_worker v) mine e
                        (λ x. cc)
                      ∙ e)
                    (inv.workers v));
          keeper = subst (KeeperOk st' g') (sym no_keeper) (unlocked, sym none_left, sym none_left);
          owner = (no_tasks, one, omega (arith, d, one));
          prefix = inv.prefix;
        },
      )
