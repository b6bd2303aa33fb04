-- ===== src/Event/Loop/Inv/Linking.antt =====
-- The steps of `add_event` (framework/events/loop.cpp) that put an item into the list.
use strange_io.Common.{
  ℕ, suc, ◌+◌, ◌-◌, ◌<◌, ◌≤◌, ◌≡◌, refl, sym, ap, subst, ◌∙◌, inl, inr, true, false, none, some,
  List, [], ◌∷◌, ◌++◌, ltb, length, arith, Bool-cases, some_inj, ltb→lt, le→ltb, length-append,
  get_elem?-append_last, take-append_left,
}
use strange_io.Event.Loop.{ready, opening, State, update, open_list}
use strange_io.Event.Loop.Inv.{
  by_sender, listed, by_worker, Owner, nobody, queued, opener, retasker, runner, Keeper, outside,
  opens_in, links_in, Ghost, Inv, count, done, last_of, node_of, Cell, SenderOk, KeeperOk, OwnerOk,
}
use strange_io.Event.Loop.Inv.Update.{
  some-none, update_self, update_all, update_kept, Cell-frame, SenderOk-frame, WorkerOk-frame,
  last_some,
}

pub by_sender_inj : {s t : ℕ} → by_sender s ≡ by_sender t → s ≡ t
by_sender_inj {s} e = ap (λ h. elim h as (λ _. ℕ) [ by_sender x ↦ x | _ ↦ s ]) e

pub ready_address : {M : Type 0} {a b : ℕ} {m n : M} → ready a m ≡ ready b n → a ≡ b
ready_address {M} {a} e = ap (λ p. elim p as (λ _. ℕ) [ ready x y ↦ x | _ ↦ a ]) e

-- The node of a message that has just been put at the end.
pub node_last :
    {M : Type 0} (st : State M) (g : Ghost) (xs : List M) (m : M)
    → st.linked ≡ xs ++ m ∷ []
    → done st g ≤ length xs
    → node_of st g (length xs) ≡ (record { ptr = some m; next = none })
node_last st g xs m e d =
    let size : length (xs ++ m ∷ []) ≤ length xs + 1 = omega (arith, length-append xs (m ∷ [])) in
    rw
      (
        e,
        le→ltb (length xs) (done st g) d,
        get_elem?-append_last xs m,
        le→ltb (length xs + 1) (length (xs ++ m ∷ [])) size,
      )
      refl

module _ {M : Type 0} (st : State M) (g : Ghost) (inv : Inv st g) where
  -- No one is in the mutex where it is not held.
  pub is_outside :
      (k : Keeper)
      → KeeperOk st g k
      → st.locked ≡ false
      → (k ≡ outside) × (st.tail_ptr ≡ last_of st g) × (st.tail ≡ last_of st g)
  is_outside outside (a, b, c) e = (refl, b, c)
  is_outside (opens_in s x) ok e = absurd (held (sym ok.0 ∙ e))
    where
      held : true ≡ false → ⊥
      held h = cc
  is_outside (links_in s x) ok e = absurd (held (sym ok.0 ∙ e))
    where
      held : true ≡ false → ⊥
      held h = cc

  pub some_last :
      (x : ℕ) → last_of st g ≡ some x → (g.front < count st g) × (x ≡ g.addr (count st g - 1))
  some_last x e = elim (Bool-cases (ltb g.front (count st g))) [
    | inl h ↦ (ltb→lt g.front (count st g) h, sym (some_inj (rw h at e)))
    | inr h ↦ cc
  ]

  -- Without a list no one has to cycle it.
  pub is_nobody : (o : Owner) → OwnerOk st g o → last_of st g ≡ none → o ≡ nobody
  is_nobody nobody ok e = refl
  is_nobody queued (t, f, d, h) e = absurd (some-none _ (sym (last_some st st g g f) ∙ e))
  is_nobody (opener s) (t, f, d, k) e =
      absurd (some-none _ (sym (last_some st st g g (omega arith)) ∙ e))
  is_nobody (retasker s) (t, f, d, k, h) e = absurd (some-none _ (sym (last_some st st g g f) ∙ e))
  is_nobody (runner w) (t, f, d) e = absurd (some-none _ (sym (last_some st st g g f) ∙ e))

  -- The item of a thread that has one ready.
  pub ready_item :
      (s a : ℕ) (m : M)
      → st.senders s ≡ ready a m
      → (g.holder a ≡ by_sender s) × (st.heap a ≡ some (record { ptr = some m; next = none }))
  ready_item s a m at =
      let mine : g.holder a ≡ by_sender s = subst (SenderOk st g s) at (inv.senders s) in
      let (n, at', is) = subst (Cell st g a) mine (inv.cells a) in
      (
        mine,
        subst (λ x. st.heap a ≡ some (record { ptr = some x; next = none }))
            (message n (sym at' ∙ at)) is,
      )
    where
      message : (n : M) → ready a n ≡ ready a m → n ≡ m
      message n e = ap (λ p. elim p as (λ _. M) [ ready b x ↦ x | _ ↦ m ]) e

  pub opens-Inv :
      (s a : ℕ) (m : M)
      → st.senders s ≡ ready a m
      → st.locked ≡ false
      → st.tail_ptr ≡ none
      → (g' : Ghost) × Inv (open_list s a m st) g'
  unfolding open_list
  opens-Inv s a m at unlocked none_yet =
      let n = count st g in
      let st' = open_list s a m st in
      let g' : Ghost = record {
        holder = update a (listed n) g.holder;
        addr = update n a g.addr;
        front = g.front;
        owner = opener s;
        keeper = opens_in s a;
      } in
      let (mine, is) = ready_item s a m at in
      let (no_keeper, tp, tl) = is_outside g.keeper inv.keeper unlocked in
      let own = is_nobody g.owner inv.owner (sym tp ∙ none_yet) in
      let (no_tasks, empty, all_done) = subst (OwnerOk st g) own inv.owner in
      let grown : count st' g' ≡ suc n = omega (arith, length-append st.linked (m ∷ [])) in
      let new_addr : g'.addr n ≡ a = update_self n a g.addr in
      let front_addr : g'.addr g.front ≡ a = ap g'.addr empty ∙ new_addr in
      (
        g',
        record {
          cells =
              update_all (Cell st' g') a (listed n) g.holder
                (
                  omega (arith, empty),
                  omega (arith, grown),
                  new_addr,
                  is ∙ ap some (sym (node_last st' g' st.linked m refl (omega (arith, all_done)))),
                )
                (λ b other.
                  Cell-frame st st' g g' b (g.holder b) refl
                    (λ j x e at_j.
                      update_kept s j (opening a) st.senders (ready a m) (ready b x) at at_j
                        (λ h. other (sym (ready_address h))))
                    (λ w e at_w. refl) (λ k e low high. absurd (omega (arith, low, high, empty)))
                    (inv.cells b));
          places = λ k low high.
              let is_last : k ≡ n = omega (arith, low, high, empty, grown) in
              ap g'.holder (ap g'.addr is_last ∙ new_addr)
              ∙ update_self a (listed n) g.holder
              ∙ ap listed (sym is_last);
          senders = update_all (SenderOk st' g') s (opening a) st.senders refl (λ j other.
              SenderOk-frame st st' g g' j (st.senders j)
                (λ b e.
                  update_kept a b (listed n) g.holder (by_sender s) (by_sender j) mine e
                    (λ h. other (sym (by_sender_inj h)))
                  ∙ e)
                (λ b e. cc) (λ b e. cc) (λ e. cc) (inv.senders j));
          workers = λ w.
              WorkerOk-frame st st' g g' w (st.workers w) (λ e. cc)
                (λ b e.
                  update_kept a b (listed n) g.holder (by_sender s) (by_worker w) mine e (λ h. cc)
                  ∙ e)
                (inv.workers w);
          keeper = (
            refl,
            update_self s (opening a) st.senders,
            sym (
                last_some st' st' g' g' (omega (arith, empty, grown))
                ∙ ap some (ap g'.addr (omega (arith, grown)) ∙ new_addr)),
            refl,
            sym front_addr,
          );
          owner = (
            no_tasks,
            omega (arith, empty, grown),
            omega (arith, all_done, empty),
            ap (opens_in s) (sym front_addr),
          );
          prefix =
              inv.prefix
              ∙ sym (take-append_left (done st g) st.linked (m ∷ []) (omega (arith, all_done)));
        },
      )
