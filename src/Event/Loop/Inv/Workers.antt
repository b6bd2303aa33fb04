-- ===== src/Event/Loop/Inv/Workers.antt =====
-- The steps of `cycle_events` (framework/events/loop.cpp).
use strange_io.Common.{
  ℕ, suc, ◌<◌, ◌≡◌, ◌≢◌, refl, sym, ap, subst, ◌∙◌, inl, none, some, length, arith, ℕ_discrete,
}
use strange_io.Event.Loop.{Worker, off, at_node, sent, waiting, leaving, State, update, set_worker}
use strange_io.Event.Loop.Inv.{
  opener, runner, Keeper, outside, opens_in, links_in, Ghost, Inv, count, done, Cell, WorkerOk,
  KeeperOk, RunnerOk, OwnerOk,
}
use strange_io.Event.Loop.Inv.Update.{
  update_self, update_other, update_all, update_kept, Cell-frame, OwnerOk-frame, KeeperOk-frame,
  RunnerOk-frame, last_some,
}

module _ {M : Type 0} (st : State M) (g : Ghost) (inv : Inv st g) where
  -- A thread of `cycle_events` that moves while it has no node of its own leaves the nodes as they
  -- are.
  stepped_cells :
      (w : ℕ) (pc pc' : Worker) (st' : State M)
      → st.workers w ≡ pc
      → ((a : ℕ) → leaving a ≢ pc)
      → st'.workers ≡ update w pc' st.workers
      → st'.senders ≡ st.senders
      → st'.heap ≡ st.heap
      → st'.linked ≡ st.linked
      → st'.handed ≡ st.handed
      → (a : ℕ) → Cell st' g a (g.holder a)
  stepped_cells w pc pc' st' at apart ws ss hs ls ds a =
      Cell-frame st st' g g a (g.holder a) (ap (λ f. f a) hs) (λ j m e at_j. ap (λ f. f j) ss)
        (λ v e at_v.
          ap (λ f. f v) ws ∙ update_kept w v pc' st.workers pc (leaving a) at at_v (apart a))
        (λ k e low high. (low, subst (λ xs. k < length xs) (sym ls) high, refl, rw (ls, ds) refl))
        (inv.cells a)

  -- The thread that cycles the list goes on at its front.
  goes_on :
      (w : ℕ) (pc pc' : Worker)
      → st.workers w ≡ pc
      → ((a : ℕ) → leaving a ≢ pc)
      → g.owner ≡ runner w
      → WorkerOk st g w pc'
      → RunnerOk st g pc'
      → (g' : Ghost) × Inv (set_worker w pc' st) g'
  goes_on w pc pc' at apart own ok runs =
      let st' = set_worker w pc' st in
      let (no_tasks, some_left, ran) = subst (OwnerOk st g) own inv.owner in
      (
        g,
        record {
          cells = stepped_cells w pc pc' st' at apart refl refl refl refl refl;
          places = inv.places;
          senders = inv.senders;
          workers = update_all (WorkerOk st' g) w pc' st.workers ok (λ v other. inv.workers v);
          keeper =
              KeeperOk-frame st st' g g g.keeper refl refl refl refl refl refl (λ j b e at_j. refl)
                (λ j b e o. o) (λ j b e at_j. refl) inv.keeper;
          owner = subst (OwnerOk st' g) (sym own) (
            no_tasks,
            some_left,
            subst (RunnerOk st' g) (sym (update_self w pc' st.workers))
                (RunnerOk-frame st st' g g pc' refl refl refl refl (λ a e h ne. ne) runs),
          );
          prefix = inv.prefix;
        },
      )

  -- Who sees another tail is not at the last item.
  more_left :
      (w : ℕ) (k : Keeper)
      → KeeperOk st g k
      → g.owner ≡ runner w
      → g.front < count st g
      → st.tail_ptr ≢ some (g.addr g.front)
      → suc g.front < count st g
  more_left w outside (locked, tp, tail) own some_left ne =
      elim (ℕ_discrete (suc g.front) (count st g)) [
        | yes e ↦
            absurd
              (ne (tp ∙ last_some st st g g some_left ∙ ap some (ap g.addr (omega (arith, e)))))
        | no e ↦ omega (arith, some_left, e)
      ]
  more_left w (opens_in s a) (locked, moves, tp, opens, at) own some_left ne =
      absurd (apart (sym opens ∙ own))
    where
      apart : opener s ≡ runner w → ⊥
      apart h = cc
  more_left w (links_in s a) (locked, moves, tail, last, more, tp) own some_left ne = more

  -- The list's cycling thread, past the test of the tail.
  passes :
      (w a : ℕ) (pc : Worker)
      → st.workers w ≡ pc
      → ((b : ℕ) → leaving b ≢ pc)
      → g.owner ≡ runner w
      → (a ≡ g.addr g.front) × (done st g ≡ suc g.front)
      → st.tail_ptr ≢ some a
      → (g' : Ghost) × Inv (set_worker w (leaving a) st) g'
  passes w a pc at apart own (at_front, d) ne =
      let (no_tasks, some_left, ran) = subst (OwnerOk st g) own inv.owner in
      let more =
        more_left w g.keeper inv.keeper own some_left (λ e. ne (e ∙ ap some (sym at_front))) in
      goes_on w pc (leaving a) at apart own (inl own) (at_front, d, more, ne)

  pub sees_other-Inv :
      (w a : ℕ)
      → st.workers w ≡ sent a
      → st.tail_ptr ≢ some a
      → (g' : Ghost) × Inv (set_worker w (leaving a) st) g'
  sees_other-Inv w a at ne =
      let own : g.owner ≡ runner w = subst (WorkerOk st g w) at (inv.workers w) in
      let (no_tasks, some_left, ran) = subst (OwnerOk st g) own inv.owner in
      passes w a (sent a) at (λ b h. cc) own (subst (RunnerOk st g) at ran) ne

  pub keeps-Inv :
      (w a : ℕ)
      → st.workers w ≡ waiting a
      → st.tail_ptr ≢ some a
      → (g' : Ghost) × Inv (set_worker w (leaving a) st) g'
  keeps-Inv w a at ne =
      let own : g.owner ≡ runner w = subst (WorkerOk st g w) at (inv.workers w) in
      let (no_tasks, some_left, ran) = subst (OwnerOk st g) own inv.owner in
      passes w a (waiting a) at (λ b h. cc) own (subst (RunnerOk st g) at ran) ne

  pub sees_tail-Inv :
      (w a : ℕ) → st.workers w ≡ sent a → (g' : Ghost) × Inv (set_worker w (waiting a) st) g'
  sees_tail-Inv w a at =
      let own : g.owner ≡ runner w = subst (WorkerOk st g w) at (inv.workers w) in
      let (no_tasks, some_left, ran) = subst (OwnerOk st g) own inv.owner in
      goes_on w (sent a) (waiting a) at (λ b h. cc) own own (subst (RunnerOk st g) at ran)

  pub ends-Inv : (w : ℕ) → st.workers w ≡ at_node none → (g' : Ghost) × Inv (set_worker w off st) g'
  ends-Inv w at =
      let st' = set_worker w off st in
      (
        g,
        record {
          cells = stepped_cells w (at_node none) off st' at (λ b h. cc) refl refl refl refl refl;
          places = inv.places;
          senders = inv.senders;
          workers = update_all (WorkerOk st' g) w off st.workers tt (λ v other. inv.workers v);
          keeper =
              KeeperOk-frame st st' g g g.keeper refl refl refl refl refl refl (λ j b e at_j. refl)
                (λ j b e o. o) (λ j b e at_j. refl) inv.keeper;
          owner =
              OwnerOk-frame st st' g g g.owner refl refl refl refl refl refl (λ j e k. refl)
                (λ j e at_j. refl)
                (λ v e r.
                  update_other w v off st.workers
                    (λ same. subst (RunnerOk st g) (ap st.workers (sym same) ∙ at) r))
                (λ a e h ne. ne) inv.owner;
          prefix = inv.prefix;
        },
      )
