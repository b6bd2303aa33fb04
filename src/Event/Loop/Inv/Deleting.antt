-- ===== src/Event/Loop/Inv/Deleting.antt =====
-- The end of a round of `cycle_events` (framework/events/loop.cpp), which deletes the node.
use strange_io.Common.{
  ℕ, suc, ◌+◌, ◌<◌, ◌≤◌, ◌≡◌, ◌≢◌, refl, sym, ap, subst, ◌∙◌, inl, inr, none, some, length, arith,
  some_inj, lt→ltb, ℕ_discrete,
}
use strange_io.Event.Loop.{Node, at_node, leaving, State, update, delete_node}
use strange_io.Event.Loop.Inv.{
  free, by_sender, listed, by_worker, opener, runner, Keeper, outside, opens_in, links_in, Ghost,
  Inv, count, last_of, Cell, WorkerOk, KeeperOk, RunnerOk, OwnerOk,
}
use strange_io.Event.Loop.Inv.Update.{
  update_self, update_other, update_all, update_kept, Cell-frame, OwnerOk-frame, KeeperOk-frame,
  SenderOk-frame, WorkerOk-frame, last_some, listed_inj, by_worker_inj,
}
use strange_io.Event.Loop.Inv.Senders.{places_kept}
use strange_io.Event.Loop.Inv.Cycling.{front_item}

leaving_inj : {a b : ℕ} → leaving a ≡ leaving b → a ≡ b
leaving_inj {a} e = ap (λ p. elim p as (λ _. ℕ) [ leaving x ↦ x | _ ↦ a ]) e

module _ {M : Type 0} (st : State M) (g : Ghost) (inv : Inv st g) where
  -- A thread that has reset the list deletes its node.
  deletes_own :
      (w a : ℕ) (n : Node M)
      → st.workers w ≡ leaving a
      → st.heap a ≡ some n
      → g.holder a ≡ by_worker w
      → (g' : Ghost) × Inv (delete_node w a n st) g'
  unfolding delete_node
  deletes_own w a n at there mine =
      let st' = delete_node w a n st in
      let g' : Ghost = record g { holder = update a free g.holder } in
      let (at', n', is, last) = subst (Cell st g a) mine (inv.cells a) in
      let ends_here : n.next ≡ none = ap (λ x. x.next) (some_inj (sym there ∙ is)) ∙ last in
      (
        g',
        record {
          cells = update_all (Cell st' g') a free g.holder (update_self a none st.heap) (λ b other.
              Cell-frame st st' g g' b (g.holder b) (update_other a b none st.heap other)
                (λ j m e at_j. refl)
                (λ v e at_v.
                  update_kept w v (at_node n.next) st.workers (leaving a) (leaving b) at at_v
                    (λ x. other (sym (leaving_inj x))))
                (λ k e low high. (low, high, refl, refl)) (inv.cells b));
          places = places_kept st g inv a free (by_worker w) mine (λ k x. cc);
          senders = λ j.
              SenderOk-frame st st' g g' j (st.senders j)
                (λ b e.
                  update_kept a b free g.holder (by_worker w) (by_sender j) mine e (λ x. cc) ∙ e)
                (λ b e. e) (λ b e. e) (λ e. e) (inv.senders j);
          workers =
              update_all (WorkerOk st' g') w (at_node n.next) st.workers
                (subst (λ x. WorkerOk st' g' w (at_node x)) (sym ends_here) tt)
                (λ v other.
                  WorkerOk-frame st st' g g' v (st.workers v) (λ e. e)
                    (λ b e.
                      update_kept a b free g.holder (by_worker w) (by_worker v) mine e
                        (λ x. other (sym (by_worker_inj x)))
                      ∙ e)
                    (inv.workers v));
          keeper =
              KeeperOk-frame st st' g g' g.keeper refl refl refl refl refl refl (λ j b e at_j. refl)
                (λ j b e o. o) (λ j b e at_j. refl) inv.keeper;
          owner =
              OwnerOk-frame st st' g g' g.owner refl refl refl refl refl refl (λ j e k. refl)
                (λ j e at_j. refl)
                (λ v e r.
                  update_other w v (at_node n.next) st.workers
                    (λ same. not_runner (subst (RunnerOk st g) (ap st.workers (sym same) ∙ at) r)))
                (λ b e h ne. ne) inv.owner;
          prefix = inv.prefix;
        },
      )
    where
      not_runner : RunnerOk st g (leaving a) → ⊥
      not_runner (at_front, d, more, ne) =
          let place = inv.places g.front (omega arith) (omega (arith, more)) in
          listed_by_worker (sym place ∙ ap g.holder (sym at_front) ∙ mine)
        where
          listed_by_worker : listed g.front ≡ by_worker w → ⊥
          listed_by_worker x = cc

  last-past :
      (st' : State M) (g' : Ghost)
      → st'.linked ≡ st.linked
      → g'.front ≡ suc g.front
      → g'.addr ≡ g.addr
      → suc g.front < count st g
      → last_of st' g' ≡ last_of st g
  last-past st' g' cnt fr ad more =
      last_some st' st' g' g' (omega (arith, fr, more, ap length cnt))
      ∙ rw (cnt, ad) refl
      ∙ sym (last_some st st g g (omega (arith, more)))

  -- What the threads in the mutex rest on, past the front item.
  KeeperOk-past :
      (k : Keeper) (w : ℕ) (st' : State M) (g' : Ghost)
      → st'.locked ≡ st.locked
      → st'.tail_ptr ≡ st.tail_ptr
      → st'.tail ≡ st.tail
      → st'.linked ≡ st.linked
      → st'.senders ≡ st.senders
      → g'.front ≡ suc g.front
      → g'.addr ≡ g.addr
      → g.owner ≡ runner w
      → suc g.front < count st g
      → st.tail_ptr ≢ some (g.addr g.front)
      → KeeperOk st g k
      → KeeperOk st' g' k
  KeeperOk-past outside w st' g' l tp t cnt ss fr ad own more ne (a, b, c) =
      let last = last-past st' g' cnt fr ad more in (l ∙ a, tp ∙ b ∙ sym last, t ∙ c ∙ sym last)
  KeeperOk-past (opens_in s x) w st' g' l tp t cnt ss fr ad own more ne (a, b, c, d, e) =
      absurd (apart (sym d ∙ own))
    where
      apart : opener s ≡ runner w → ⊥
      apart h = cc
  KeeperOk-past (links_in s x) w st' g' l tp t cnt ss fr ad own more ne (a, b, c, d, e, h) =
      let last = last-past st' g' cnt fr ad more in
      let further : suc (suc g.front) < count st g =
        elim (ℕ_discrete (suc (suc g.front)) (count st g)) [
          | yes q ↦ absurd (ne (h ∙ ap some (ap g.addr (omega (arith, q)))))
          | no q ↦ omega (arith, e, q)
        ] in
      (
        l ∙ a,
        ap (λ f. f s) ss ∙ b,
        t ∙ c ∙ sym last,
        d ∙ rw (cnt, ad) refl,
        omega (arith, further, fr, ap length cnt),
        tp ∙ h ∙ rw (cnt, ad) refl,
      )

  -- A thread that cycles the list deletes its node and goes to the next one.
  deletes_front :
      (w a : ℕ) (n : Node M)
      → st.workers w ≡ leaving a
      → st.heap a ≡ some n
      → g.owner ≡ runner w
      → (g' : Ghost) × Inv (delete_node w a n st) g'
  unfolding delete_node
  deletes_front w a n at there own =
      let st' = delete_node w a n st in
      let g' : Ghost = record g { holder = update a free g.holder; front = suc g.front } in
      let (no_tasks, some_left, ran) = subst (OwnerOk st g) own inv.owner in
      let (at_front, d, more, ne) = subst (RunnerOk st g) at ran in
      let (mine, is) = front_item st g inv w a (leaving a) own at_front some_left in
      let next_is : n.next ≡ some (g.addr (suc g.front)) =
        ap (λ x. x.next) (some_inj (sym there ∙ is))
        ∙ rw (lt→ltb (g.front + 1) (count st g) (omega (arith, more)))
            (ap some (ap g.addr (omega arith))) in
      let at_next : update w (at_node n.next) st.workers w ≡ at_node (some (g.addr (suc g.front))) =
        update_self w (at_node n.next) st.workers ∙ ap at_node next_is in
      (
        g',
        record {
          cells = update_all (Cell st' g') a free g.holder (update_self a none st.heap) (λ b other.
              Cell-frame st st' g g' b (g.holder b) (update_other a b none st.heap other)
                (λ j m e at_j. refl)
                (λ v e at_v.
                  update_kept w v (at_node n.next) st.workers (leaving a) (leaving b) at at_v
                    (λ x. other (sym (leaving_inj x))))
                (λ k e low high.
                  let (l, hi, at_b, is_b) = subst (Cell st g b) e (inv.cells b) in
                  let later : suc g.front ≤ k = elim (ℕ_discrete g.front k) [
                    | yes e' ↦ absurd (other (at_front ∙ ap g.addr e' ∙ at_b))
                    | no e' ↦ omega (arith, low, e')
                  ] in
                  (later, high, refl, refl))
                (inv.cells b));
          places = λ k low high.
              let place = inv.places k (omega (arith, low)) high in
              update_kept a (g.addr k) free g.holder (listed g.front) (listed k) mine place
                (λ x. absurd (omega (arith, low, listed_inj x)))
              ∙ place;
          senders = λ j.
              SenderOk-frame st st' g g' j (st.senders j)
                (λ b e.
                  update_kept a b free g.holder (listed g.front) (by_sender j) mine e (λ x. cc) ∙ e)
                (λ b e. e) (λ b e. e) (λ e. e) (inv.senders j);
          workers =
              update_all (WorkerOk st' g') w (at_node n.next) st.workers
                (subst (λ x. WorkerOk st' g' w (at_node x)) (sym next_is) own)
                (λ v other.
                  WorkerOk-frame st st' g g' v (st.workers v) (λ e. e)
                    (λ b e.
                      update_kept a b free g.holder (listed g.front) (by_worker v) mine e (λ x. cc)
                      ∙ e)
                    (inv.workers v));
          keeper =
              KeeperOk-past g.keeper w st' g' refl refl refl refl refl refl refl own more
                (λ e. ne (e ∙ ap some (sym at_front))) inv.keeper;
          owner =
              subst (OwnerOk st' g') (sym own)
                (no_tasks, more, subst (RunnerOk st' g') (sym at_next) (refl, d));
          prefix = inv.prefix;
        },
      )

  pub deletes-Inv :
      (w a : ℕ) (n : Node M)
      → st.workers w ≡ leaving a
      → st.heap a ≡ some n
      → (g' : Ghost) × Inv (delete_node w a n st) g'
  deletes-Inv w a n at there = elim (subst (WorkerOk st g w) at (inv.workers w)) [
    | inl own ↦ deletes_front w a n at there own
    | inr mine ↦ deletes_own w a n at there mine
  ]
