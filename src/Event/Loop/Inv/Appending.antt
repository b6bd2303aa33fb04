-- ===== src/Event/Loop/Inv/Appending.antt =====
-- The branch of `add_event` (framework/events/loop.cpp) for a list that is there.
use strange_io.Common.{
  ℕ, suc, ◌+◌, ◌-◌, ◌<◌, ◌≤◌, ◌≡◌, ◌≢◌, refl, sym, ap, subst, ◌∙◌, false, none, some, [], ◌∷◌, ◌++◌,
  length, arith, some_inj, lt→ltb, ℕ_discrete, length-append, get_elem?-append_left,
  take-append_left,
}
use strange_io.Event.Loop.{
  Node, ready, linking, retask, Worker, off, at_node, sent, waiting, leaving, State, update,
  link_item,
}
use strange_io.Event.Loop.Inv.{
  by_sender, listed, by_worker, Owner, nobody, queued, opener, retasker, runner, outside, opens_in,
  links_in, Ghost, Inv, count, done, node_of, Cell, SenderOk, RunnerOk, OwnerOk,
}
use strange_io.Event.Loop.Inv.Update.{
  update_self, update_other, update_all, update_kept, Cell-frame, SenderOk-frame, WorkerOk-frame,
  last_some,
}
use strange_io.Event.Loop.Inv.Senders.{places_kept}
use strange_io.Event.Loop.Inv.Linking.{
  is_outside, some_last, ready_item, node_last, by_sender_inj, ready_address,
}

module _ {M : Type 0} (st st' : State M) (g g' : Ghost) where
  -- The thread that cycles a list goes on where the list gets longer.
  RunnerOk-longer :
      (pc : Worker)
      → g'.front ≡ g.front
      → g'.addr g.front ≡ g.addr g.front
      → count st g ≤ count st' g'
      → done st' g' ≡ done st g
      → st'.tail_ptr ≡ st.tail_ptr
      → RunnerOk st g pc
      → RunnerOk st' g' pc
  RunnerOk-longer off front addr cnt dn tp r = absurd r
  RunnerOk-longer (at_node none) front addr cnt dn tp r = absurd r
  RunnerOk-longer (at_node (some a)) front addr cnt dn tp (at, d) =
      (at ∙ sym (ap g'.addr front ∙ addr), omega (arith, dn, d, front))
  RunnerOk-longer (sent a) front addr cnt dn tp (at, d) =
      (at ∙ sym (ap g'.addr front ∙ addr), omega (arith, dn, d, front))
  RunnerOk-longer (waiting a) front addr cnt dn tp (at, d) =
      (at ∙ sym (ap g'.addr front ∙ addr), omega (arith, dn, d, front))
  RunnerOk-longer (leaving a) front addr cnt dn tp (at, d, more, ne) = (
    at ∙ sym (ap g'.addr front ∙ addr),
    omega (arith, dn, d, front),
    omega (arith, front, more, cnt),
    λ e. ne (sym tp ∙ e),
  )

  -- So does whoever has to cycle it.
  OwnerOk-longer :
      (o : Owner)
      → st'.tasks ≡ st.tasks
      → st'.head ≡ st.head
      → g'.front ≡ g.front
      → g'.addr g.front ≡ g.addr g.front
      → count st g ≤ count st' g'
      → done st' g' ≡ done st g
      → g.front < count st g
      → g.keeper ≡ outside
      → ((s : ℕ) → st.senders s ≡ retask → st'.senders s ≡ st.senders s)
      → st'.workers ≡ st.workers
      → st'.tail_ptr ≡ st.tail_ptr
      → OwnerOk st g o
      → OwnerOk st' g' o
  OwnerOk-longer nobody tasks head front addr cnt dn some_left no_keeper ss ws tp (t, f, d) =
      absurd (omega (arith, f, some_left))
  OwnerOk-longer queued tasks head front addr cnt dn some_left no_keeper ss ws tp (t, f, d, h) = (
    tasks ∙ t,
    omega (arith, front, f, cnt),
    omega (arith, dn, d, front),
    head ∙ h ∙ ap some (sym (ap g'.addr front ∙ addr)),
  )
  OwnerOk-longer (opener s) tasks head front addr cnt dn some_left no_keeper ss ws tp (t, f, d, k) =
      absurd (apart (sym k ∙ no_keeper))
    where
      apart : {x : ℕ} → opens_in s x ≡ outside → ⊥
      apart h = cc
  OwnerOk-longer (retasker s) tasks head front addr cnt dn some_left no_keeper ss ws tp
        (t, f, d, k, h) =
      (
        tasks ∙ t,
        omega (arith, front, f, cnt),
        omega (arith, dn, d, front),
        ss s k ∙ k,
        head ∙ h ∙ ap some (sym (ap g'.addr front ∙ addr)),
      )
  OwnerOk-longer (runner w) tasks head front addr cnt dn some_left no_keeper ss ws tp (t, f, r) = (
    tasks ∙ t,
    omega (arith, front, f, cnt),
    subst (RunnerOk st' g') (ap (λ f. f w) (sym ws))
        (RunnerOk-longer (st.workers w) front addr cnt dn tp r),
  )

-- No more is handed out than was put into the list.
pub done_le :
    {M : Type 0} (st : State M) (g : Ghost) (o : Owner) → OwnerOk st g o → done st g ≤ count st g
done_le st g nobody (t, f, d) = omega (arith, d)
done_le st g queued (t, f, d, h) = omega (arith, d, f)
done_le st g (opener s) (t, f, d, k) = omega (arith, d, f)
done_le st g (retasker s) (t, f, d, k, h) = omega (arith, d, f)
done_le st g (runner w) (t, f, r) = runs (st.workers w) r
  where
    runs : (pc : Worker) → RunnerOk st g pc → done st g ≤ count st g
    runs off r = absurd r
    runs (at_node none) r = absurd r
    runs (at_node (some a)) (at, d) = omega (arith, d, f)
    runs (sent a) (at, d) = omega (arith, d, f)
    runs (waiting a) (at, d) = omega (arith, d, f)
    runs (leaving a) (at, d, more, ne) = omega (arith, d, f)

-- The nodes of a list that a message is put at the end of.
module _ {M : Type 0} (st st' : State M) (g g' : Ghost) (m : M)
    (linked : st'.linked ≡ st.linked ++ m ∷ []) (handed : st'.handed ≡ st.handed) where
  grown : count st' g' ≡ suc (count st g)
  grown = omega (arith, ap length linked, length-append st.linked (m ∷ []))

  node_before :
      (k : ℕ)
      → suc k < count st g
      → g'.addr (k + 1) ≡ g.addr (k + 1)
      → node_of st' g' k ≡ node_of st g k
  node_before k h addr =
      let more : suc k < length (st.linked ++ m ∷ []) =
        omega (arith, h, length-append st.linked (m ∷ [])) in
      rw
        (
          linked,
          handed,
          get_elem?-append_left st.linked (m ∷ []) k (omega (arith, h)),
          lt→ltb (k + 1) (length st.linked) (omega (arith, h)),
          lt→ltb (k + 1) (length (st.linked ++ m ∷ [])) (omega (arith, more)),
          addr,
        )
        refl

  node_old_last :
      (k a : ℕ) (n : Node M)
      → suc k ≡ count st g
      → g'.addr (k + 1) ≡ a
      → n ≡ node_of st g k
      → node_of st' g' k ≡ record n { next = some a }
  node_old_last k a n h addr is =
      let more : suc k < length (st.linked ++ m ∷ []) =
        omega (arith, h, length-append st.linked (m ∷ [])) in
      rw
        (
          is,
          linked,
          handed,
          get_elem?-append_left st.linked (m ∷ []) k (omega (arith, h)),
          lt→ltb (k + 1) (length (st.linked ++ m ∷ [])) (omega (arith, more)),
          addr,
        )
        refl

module _ {M : Type 0} (st : State M) (g : Ghost) (inv : Inv st g) where
  pub links-Inv :
      (s a t u : ℕ) (m : M) (nd : Node M)
      → st.senders s ≡ ready a m
      → st.locked ≡ false
      → st.tail_ptr ≡ some u
      → st.tail ≡ some t
      → st.heap t ≡ some nd
      → (g' : Ghost) × Inv (link_item s a m t nd st) g'
  unfolding link_item
  links-Inv s a t u m nd at unlocked has_list has_tail tail_node =
      let n = count st g in
      let st' = link_item s a m t nd st in
      let g' : Ghost = record {
        holder = update a (listed n) g.holder;
        addr = update n a g.addr;
        front = g.front;
        owner = g.owner;
        keeper = links_in s a;
      } in
      let (mine, is) = ready_item st g inv s a m at in
      let (no_keeper, tp, tl) = is_outside st g inv g.keeper inv.keeper unlocked in
      let (some_left, t_last) = some_last st g inv t (sym tl ∙ has_tail) in
      let larger = grown st st' g g' m refl refl in
      let new_addr : g'.addr n ≡ a = update_self n a g.addr in
      let old_addr : (k : ℕ) → k < n → g'.addr k ≡ g.addr k =
        λ k h. update_other n k a g.addr (λ e. absurd (omega (arith, e, h))) in
      let t_listed : g.holder t ≡ listed (n - 1) =
        ap g.holder t_last ∙ inv.places (n - 1) (omega arith) (omega arith) in
      let (t_low, t_high, t_at, t_is) = subst (Cell st g t) t_listed (inv.cells t) in
      let d = done_le st g g.owner inv.owner in
      let t_node : Node M = record nd { next = some a } in
      let ne : t ≢ a = λ e. absurd (listed_not_sender (sym t_listed ∙ ap g.holder e ∙ mine)) in
      let last_a : a ≡ g'.addr (count st' g' - 1) =
        sym (ap g'.addr (omega (arith, larger)) ∙ new_addr) in
      let cells : (b : ℕ) → a ≢ b → Cell st' g' b (g.holder b) = λ b other. elim (ℕ_discrete t b) [
        | yes same ↦
            subst (λ x. Cell st' g' x (g.holder x)) same
              (subst (Cell st' g' t) (sym t_listed) (
                t_low,
                omega (arith, t_high, larger),
                old_addr (n - 1) t_high ∙ t_at,
                update_self t (some t_node) st.heap
                    ∙ ap some (
                        sym (
                          node_old_last st st' g g' m refl refl (n - 1) a nd (omega (arith, t_high))
                            (ap g'.addr (omega (arith, t_high)) ∙ new_addr)
                            (some_inj (sym tail_node ∙ t_is)))),
              ))
        | no differs ↦
            Cell-frame st st' g g' b (g.holder b) (update_other t b (some t_node) st.heap differs)
              (λ j x e at_j.
                update_kept s j (linking a) st.senders (ready a m) (ready b x) at at_j
                  (λ h. other (sym (ready_address h))))
              (λ w e at_w. refl)
              (λ k e low high.
                let (l, h, at_b, is_b) = subst (Cell st g b) e (inv.cells b) in
                let before : suc k < n = elim (ℕ_discrete (suc k) n) [
                  | yes e' ↦ absurd (differs (t_last ∙ ap g.addr (omega (arith, e')) ∙ at_b))
                  | no e' ↦ omega (arith, high, e')
                ] in
                (
                  low,
                  omega (arith, high, larger),
                  old_addr k high,
                  node_before st st' g g' m refl refl k before (old_addr (k + 1) (omega arith)),
                ))
              (inv.cells b)
      ] in
      (
        g',
        record {
          cells =
              update_all (Cell st' g') a (listed n) g.holder
                (
                  omega (arith, some_left),
                  omega (arith, larger),
                  new_addr,
                  update_other t a (some t_node) st.heap ne
                      ∙ is
                      ∙ ap some (sym (node_last st' g' st.linked m refl d)),
                )
                cells;
          places = λ k low high. elim (ℕ_discrete k n) [
            | yes e ↦
                ap g'.holder (ap g'.addr e ∙ new_addr)
                ∙ update_self a (listed n) g.holder
                ∙ ap listed (sym e)
            | no e ↦
                let h : k < n = omega (arith, high, larger, e) in
                ap g'.holder (old_addr k h)
                ∙ places_kept st g inv a (listed n) (by_sender s) mine (λ j x. cc) k low h
          ];
          senders = update_all (SenderOk st' g') s (linking a) st.senders refl (λ j other.
              SenderOk-frame st st' g g' j (st.senders j)
                (λ b e.
                  update_kept a b (listed n) g.holder (by_sender s) (by_sender j) mine e
                    (λ h. other (sym (by_sender_inj h)))
                  ∙ e)
                (λ b e. cc) (λ b e. cc) (λ e. e) (inv.senders j));
          workers = λ w.
              WorkerOk-frame st st' g g' w (st.workers w) (λ e. e)
                (λ b e.
                  update_kept a b (listed n) g.holder (by_sender s) (by_worker w) mine e (λ h. cc)
                  ∙ e)
                (inv.workers w);
          keeper = (
            refl,
            update_self s (linking a) st.senders,
            ap some last_a ∙ sym (last_some st' st' g' g' (omega (arith, some_left, larger))),
            last_a,
            omega (arith, some_left, larger),
            tp
                ∙ last_some st st g g some_left
                ∙ ap some (sym (ap g'.addr (omega (arith, larger)) ∙ old_addr (n - 1) t_high)),
          );
          owner =
              OwnerOk-longer st st' g g' g.owner refl refl refl (old_addr g.front some_left)
                (omega (arith, larger)) refl some_left no_keeper
                (λ j at_j.
                  update_kept s j (linking a) st.senders (ready a m) retask at at_j (λ h. cc))
                refl refl inv.owner;
          prefix = inv.prefix ∙ sym (take-append_left (done st g) st.linked (m ∷ []) d);
        },
      )
    where
      listed_not_sender : {k s : ℕ} → listed k ≡ by_sender s → ⊥
      listed_not_sender h = cc
