-- ===== src/Event/Loop/Inv/Senders.antt =====
-- The steps of `add_event` (framework/events/loop.cpp) outside the mutex, and those that leave it.
use strange_io.Common.{
  ℕ, suc, ◌-◌, ◌<◌, ◌≤◌, ◌≡◌, ◌≢◌, refl, sym, ap, subst, ◌∙◌, none, some, length, arith, some_inj,
}
use strange_io.Event.Loop.{
  Node, Sender, idle, ready, opening, linking, retask, State, update, new_item, publish_list,
  mark_tail, add_cycle,
}
use strange_io.Event.Loop.Inv.{
  Holder, free, by_sender, listed, by_worker, queued, retasker, outside, opens_in, links_in, Ghost,
  Inv, count, Cell, SenderOk, KeeperOk, OwnerOk,
}
use strange_io.Event.Loop.Inv.Update.{
  update_self, update_other, update_all, update_kept, Cell-frame, OwnerOk-frame, KeeperOk-frame,
  SenderOk-frame, WorkerOk-frame, free-Cell, last_some, listed_inj, opens_in_inj, links_in_inj,
  retasker_inj,
}

module _ {M : Type 0} (st : State M) (g : Ghost) (inv : Inv st g) where
  -- Places keep their holders where a place that was not listed gets another holder.
  pub places_kept :
      (a : ℕ) (h old : Holder)
      → g.holder a ≡ old
      → ((k : ℕ) → listed k ≢ old)
      → (k : ℕ) → g.front ≤ k
      → k < count st g
      → update a h g.holder (g.addr k) ≡ listed k
  places_kept a h old at apart k low high =
      let place = inv.places k low high in
      update_kept a (g.addr k) h g.holder old (listed k) at place (apart k) ∙ place

  pub begins-Inv :
      (s a : ℕ) (m : M)
      → st.senders s ≡ idle
      → st.heap a ≡ none
      → (g' : Ghost) × Inv (new_item s a m st) g'
  unfolding new_item
  begins-Inv s a m at fresh =
      let st' = new_item s a m st in
      let g' : Ghost = record g { holder = update a (by_sender s) g.holder } in
      let was = free-Cell st st' g g' a (g.holder a) (inv.cells a) fresh in
      let new : Node M = record { ptr = some m; next = none } in
      let elsewhere : (j : ℕ) (pc : Sender M)
          → st.senders j ≡ pc
          → pc ≢ idle
          → st'.senders j ≡ st.senders j =
        λ j pc at_j ne. update_kept s j (ready a m) st.senders idle pc at at_j ne in
      (
        g',
        record {
          cells =
              update_all (Cell st' g') a (by_sender s) g.holder
                (m, update_self s (ready a m) st.senders, update_self a (some new) st.heap)
                (λ b other.
                  Cell-frame st st' g g' b (g.holder b) (update_other a b (some new) st.heap other)
                    (λ j n e at_j. elsewhere j (ready b n) at_j (λ h. cc)) (λ w e at_w. refl)
                    (λ k e low high. (low, high, refl, refl)) (inv.cells b));
          places = places_kept a (by_sender s) free was (λ k h. cc);
          senders =
              update_all (SenderOk st' g') s (ready a m) st.senders
                (update_self a (by_sender s) g.holder)
                (λ j other.
                  SenderOk-frame st st' g g' j (st.senders j)
                    (λ b e.
                      update_kept a b (by_sender s) g.holder free (by_sender j) was e (λ h. cc) ∙ e)
                    (λ b e. e) (λ b e. e) (λ e. e) (inv.senders j));
          workers = λ w.
              WorkerOk-frame st st' g g' w (st.workers w) (λ e. e)
                (λ b e.
                  update_kept a b (by_sender s) g.holder free (by_worker w) was e (λ h. cc) ∙ e)
                (inv.workers w);
          keeper =
              KeeperOk-frame st st' g g' g.keeper refl refl refl refl refl refl
                (λ j b e at_j. elsewhere j (opening b) at_j (λ h. cc)) (λ j b e own. own)
                (λ j b e at_j. elsewhere j (linking b) at_j (λ h. cc)) inv.keeper;
          owner =
              OwnerOk-frame st st' g g' g.owner refl refl refl refl refl refl (λ j e k. refl)
                (λ j e at_j. elsewhere j retask at_j (λ h. cc)) (λ w e r. refl) (λ b e h ne. ne)
                inv.owner;
          prefix = inv.prefix;
        },
      )

  -- A step that moves one thread of `add_event` from one point to another, neither of which has an
  -- item ready, leaves the nodes and the other threads as they are.
  moved_cells :
      (s : ℕ) (pc pc' : Sender M) (st' : State M) (g' : Ghost)
      → st.senders s ≡ pc
      → ((a : ℕ) (m : M) → ready a m ≢ pc)
      → st'.senders ≡ update s pc' st.senders
      → st'.heap ≡ st.heap
      → st'.workers ≡ st.workers
      → st'.linked ≡ st.linked
      → st'.handed ≡ st.handed
      → g'.holder ≡ g.holder
      → g'.front ≡ g.front
      → g'.addr ≡ g.addr
      → (a : ℕ) → Cell st' g' a (g'.holder a)
  moved_cells s pc pc' st' g' at apart ss hs ws ls ds ho fr ad a =
      subst (Cell st' g' a) (ap (λ f. f a) (sym ho)) (
        Cell-frame st st' g g' a (g.holder a) (ap (λ f. f a) hs)
          (λ j m e at_j.
            ap (λ f. f j) ss ∙ update_kept s j pc' st.senders pc (ready a m) at at_j (apart a m))
          (λ w e at_w. ap (λ f. f w) ws)
          (λ k e low high. (
            subst (λ f. f ≤ k) (sym fr) low,
            subst (λ xs. k < length xs) (sym ls) high,
            ap (λ f. f k) ad,
            rw (ls, ds, ad),
          ))
          (inv.cells a))

  -- An item with one behind it is not the last one.
  front_not_last :
      (b : ℕ) → b ≡ g.addr g.front → suc g.front < count st g → b ≡ g.addr (count st g - 1) → ⊥
  front_not_last b e h f =
      let same : listed g.front ≡ listed (count st g - 1) =
        sym (inv.places g.front (omega arith) (omega arith))
        ∙ ap g.holder (sym e ∙ f)
        ∙ inv.places (count st g - 1) (omega arith) (omega arith) in
      absurd (omega (arith, h, listed_inj same))

  pub marks-Inv : (s a : ℕ) → st.senders s ≡ linking a → (g' : Ghost) × Inv (mark_tail s a st) g'
  unfolding mark_tail
  marks-Inv s a at =
      let st' = mark_tail s a st in
      let g' : Ghost = record g { keeper = outside } in
      let kept : g.keeper ≡ links_in s a = subst (SenderOk st g s) at (inv.senders s) in
      let (locked, moves, tail, is_last, more, tp) = subst (KeeperOk st g) kept inv.keeper in
      let last = last_some st st' g g' (omega (arith, more)) in
      (
        g',
        record {
          cells =
              moved_cells s (linking a) idle st' g' at (λ b m h. cc) refl refl refl refl refl refl
                refl refl;
          places = inv.places;
          senders = update_all (SenderOk st' g') s idle st.senders tt (λ j other.
              SenderOk-frame st st' g g' j (st.senders j) (λ b e. e) (λ b e. cc)
                (λ b e. absurd (other (links_in_inj (sym kept ∙ e)).0)) (λ e. e) (inv.senders j));
          workers = inv.workers;
          keeper = (refl, ap some is_last ∙ sym last, tail);
          owner =
              OwnerOk-frame st st' g g' g.owner refl refl refl refl refl refl (λ j e k. cc)
                (λ j e at_j. update_kept s j idle st.senders (linking a) retask at at_j (λ h. cc))
                (λ w e r. refl)
                (λ b e h ne same. front_not_last b e h (sym (some_inj same) ∙ is_last)) inv.owner;
          prefix = inv.prefix;
        },
      )

  pub publishes-Inv :
      (s a : ℕ) → st.senders s ≡ opening a → (g' : Ghost) × Inv (publish_list s a st) g'
  unfolding publish_list
  publishes-Inv s a at =
      let st' = publish_list s a st in
      let g' : Ghost = record g { keeper = outside; owner = retasker s } in
      let kept : g.keeper ≡ opens_in s a = subst (SenderOk st g s) at (inv.senders s) in
      let (locked, moves, tp, own, at_front) = subst (KeeperOk st g) kept inv.keeper in
      let (no_tasks, one, none_done, k) = subst (OwnerOk st g) own inv.owner in
      let last = last_some st st' g g' (omega (arith, one)) in
      let same : g.addr g.front ≡ g.addr (count st g - 1) = ap g.addr (omega (arith, one)) in
      (
        g',
        record {
          cells =
              moved_cells s (opening a) retask st' g' at (λ b m h. cc) refl refl refl refl refl refl
                refl refl;
          places = inv.places;
          senders = update_all (SenderOk st' g') s retask st.senders refl (λ j other.
              SenderOk-frame st st' g g' j (st.senders j) (λ b e. e)
                (λ b e. absurd (other (opens_in_inj (sym kept ∙ e)).0)) (λ b e. cc) (λ e. cc)
                (inv.senders j));
          workers =
              λ w. WorkerOk-frame st st' g g' w (st.workers w) (λ e. cc) (λ b e. e) (inv.workers w);
          keeper = (refl, tp, ap some (at_front ∙ same) ∙ sym last);
          owner = (
            no_tasks,
            omega (arith, one),
            none_done,
            update_self s retask st.senders,
            ap some at_front,
          );
          prefix = inv.prefix;
        },
      )

  pub adds-Inv : (s : ℕ) → st.senders s ≡ retask → (g' : Ghost) × Inv (add_cycle s st) g'
  unfolding add_cycle
  adds-Inv s at =
      let st' = add_cycle s st in
      let g' : Ghost = record g { owner = queued } in
      let own : g.owner ≡ retasker s = subst (SenderOk st g s) at (inv.senders s) in
      let (no_tasks, some_left, none_done, k, head) = subst (OwnerOk st g) own inv.owner in
      (
        g',
        record {
          cells =
              moved_cells s retask idle st' g' at (λ b m h. cc) refl refl refl refl refl refl refl
                refl;
          places = inv.places;
          senders = update_all (SenderOk st' g') s idle st.senders tt (λ j other.
              SenderOk-frame st st' g g' j (st.senders j) (λ b e. e) (λ b e. e) (λ b e. e)
                (λ e. absurd (other (retasker_inj (sym own ∙ e)))) (inv.senders j));
          workers =
              λ w. WorkerOk-frame st st' g g' w (st.workers w) (λ e. cc) (λ b e. e) (inv.workers w);
          keeper =
              KeeperOk-frame st st' g g' g.keeper refl refl refl refl refl refl
                (λ j b e at_j. update_kept s j idle st.senders retask (opening b) at at_j (λ h. cc))
                (λ j b e o. cc)
                (λ j b e at_j. update_kept s j idle st.senders retask (linking b) at at_j (λ h. cc))
                inv.keeper;
          owner = (ap suc no_tasks, some_left, none_done, head);
          prefix = inv.prefix;
        },
      )
