-- ===== src/Event/Loop/Inv/Update.antt =====
-- The parts of the invariant of `loop` (framework/events/loop.cpp) that a step leaves alone.
use strange_io.Common.{
  ℕ, suc, ◌-◌, ◌<◌, ◌≤◌, ◌≡◌, ◌≢◌, refl, sym, ap, subst, ◌∙◌, inl, inr, true, false, none, some,
  ◌==◌, ==_iff, length, arith, Bool-cases, lt→ltb,
}
use strange_io.Event.Loop.{
  Sender, idle, ready, opening, linking, retask, Worker, off, at_node, sent, waiting, leaving,
  State, update,
}
use strange_io.Event.Loop.Inv.{
  Holder, free, by_sender, listed, by_worker, Owner, nobody, queued, opener, retasker, runner,
  Keeper, outside, opens_in, links_in, Ghost, count, done, last_of, node_of, Cell, SenderOk,
  WorkerOk, KeeperOk, RunnerOk, OwnerOk,
}

pub some-none : {A : Type 0} (x : A) → some x ≡ none → ⊥
some-none x e = cc

abbrev keeper_of : Keeper → ℕ
keeper_of outside = 0
keeper_of (opens_in s a) = s
keeper_of (links_in s a) = s

abbrev address_of : Keeper → ℕ
address_of outside = 0
address_of (opens_in s a) = a
address_of (links_in s a) = a

abbrev owner_of : Owner → ℕ
owner_of nobody = 0
owner_of queued = 0
owner_of (opener s) = s
owner_of (retasker s) = s
owner_of (runner w) = w

abbrev number_of : Holder → ℕ
number_of (listed k) = k
number_of (by_worker w) = w
number_of h = 0

pub listed_inj : {j k : ℕ} → listed j ≡ listed k → j ≡ k
listed_inj e = ap number_of e

pub by_worker_inj : {s t : ℕ} → by_worker s ≡ by_worker t → s ≡ t
by_worker_inj e = ap number_of e

pub opens_in_inj : {s t a b : ℕ} → opens_in s a ≡ opens_in t b → (s ≡ t) × (a ≡ b)
opens_in_inj e = (ap keeper_of e, ap address_of e)

pub links_in_inj : {s t a b : ℕ} → links_in s a ≡ links_in t b → (s ≡ t) × (a ≡ b)
links_in_inj e = (ap keeper_of e, ap address_of e)

pub retasker_inj : {s t : ℕ} → retasker s ≡ retasker t → s ≡ t
retasker_inj e = ap owner_of e

pub runner_inj : {s t : ℕ} → runner s ≡ runner t → s ≡ t
runner_inj e = ap owner_of e

module _ {A : Type 0} where
  pub update_self : (i : ℕ) (x : A) (f : ℕ → A) → update i x f i ≡ x
  update_self i x f = rw ((==_iff i i).1 refl)

  pub update_other : (i j : ℕ) (x : A) (f : ℕ → A) → i ≢ j → update i x f j ≡ f j
  update_other i j x f ne = elim (Bool-cases (i == j)) [
    | inl e ↦ absurd (ne ((==_iff i j).0 e))
    | inr e ↦ rw e
  ]

  -- What holds of the new value at its place and of the old ones elsewhere holds everywhere.
  pub update_all :
      (P : ℕ → A → Type 0) (i : ℕ) (x : A) (f : ℕ → A)
      → P i x
      → ((j : ℕ) → i ≢ j → P j (f j))
      → (j : ℕ) → P j (update i x f j)
  update_all P i x f here there j = elim (Bool-cases (i == j)) [
    | inl e ↦ rw e (subst (λ k. P k x) ((==_iff i j).0 e) here)
    | inr e ↦ rw e (there j (λ same. true_ne (sym ((==_iff i j).1 same) ∙ e)))
  ]
    where
      true_ne : true ≡ false → ⊥
      true_ne h = cc

  -- A thread that is elsewhere stays there.
  pub update_kept :
      (i j : ℕ) (x : A) (f : ℕ → A) (y z : A) → f i ≡ y → f j ≡ z → z ≢ y → update i x f j ≡ f j
  update_kept i j x f y z at_i at_j ne =
      update_other i j x f (λ same. ne (sym at_j ∙ ap f (sym same) ∙ at_i))

module _ {M : Type 0} (st st' : State M) (g g' : Ghost) where
  -- A node whose heap cell and holder are as before.
  pub Cell-frame :
      (a : ℕ) (h : Holder)
      → st'.heap a ≡ st.heap a
      → ((s : ℕ) (m : M)
          → h ≡ by_sender s
          → st.senders s ≡ ready a m
          → st'.senders s ≡ st.senders s)
      → ((w : ℕ) → h ≡ by_worker w → st.workers w ≡ leaving a → st'.workers w ≡ st.workers w)
      → ((k : ℕ)
          → h ≡ listed k
          → g.front ≤ k
          → k < count st g
          → (g'.front ≤ k)
            × (k < count st' g')
            × (g'.addr k ≡ g.addr k)
            × (node_of st' g' k ≡ node_of st g k))
      → Cell st g a h
      → Cell st' g' a h
  Cell-frame a free heap ss ws ks c = heap ∙ c
  Cell-frame a (by_sender s) heap ss ws ks (m, at, is) = (m, ss s m refl at ∙ at, heap ∙ is)
  Cell-frame a (by_worker w) heap ss ws ks (at, n, is, last) =
      (ws w refl at ∙ at, n, heap ∙ is, last)
  Cell-frame a (listed k) heap ss ws ks (low, high, at, is) =
      let (low', high', addr, node) = ks k refl low high in
      (low', high', addr ∙ at, heap ∙ is ∙ ap some (sym node))

  pub RunnerOk-frame :
      (pc : Worker)
      → g'.front ≡ g.front
      → g'.addr g'.front ≡ g.addr g.front
      → count st' g' ≡ count st g
      → done st' g' ≡ done st g
      → ((a : ℕ)
          → a ≡ g.addr g.front
          → suc g.front < count st g
          → st.tail_ptr ≢ some a
          → st'.tail_ptr ≢ some a)
      → RunnerOk st g pc
      → RunnerOk st' g' pc
  RunnerOk-frame off front addr cnt dn tl r = absurd r
  RunnerOk-frame (at_node none) front addr cnt dn tl r = absurd r
  RunnerOk-frame (at_node (some a)) front addr cnt dn tl (at, d) =
      (at ∙ sym addr, omega (arith, dn, d, front))
  RunnerOk-frame (sent a) front addr cnt dn tl (at, d) =
      (at ∙ sym addr, omega (arith, dn, d, front))
  RunnerOk-frame (waiting a) front addr cnt dn tl (at, d) =
      (at ∙ sym addr, omega (arith, dn, d, front))
  RunnerOk-frame (leaving a) front addr cnt dn tl (at, d, more, ne) =
      (at ∙ sym addr, omega (arith, dn, d, front), omega (arith, front, more, cnt), tl a at more ne)

  pub OwnerOk-frame :
      (o : Owner)
      → st'.tasks ≡ st.tasks
      → st'.head ≡ st.head
      → g'.front ≡ g.front
      → g'.addr g.front ≡ g.addr g.front
      → count st' g' ≡ count st g
      → done st' g' ≡ done st g
      → ((s : ℕ) → o ≡ opener s → g.keeper ≡ opens_in s (g.addr g.front) → g'.keeper ≡ g.keeper)
      → ((s : ℕ) → o ≡ retasker s → st.senders s ≡ retask → st'.senders s ≡ st.senders s)
      → ((w : ℕ) → o ≡ runner w → RunnerOk st g (st.workers w) → st'.workers w ≡ st.workers w)
      → ((a : ℕ)
          → a ≡ g.addr g.front
          → suc g.front < count st g
          → st.tail_ptr ≢ some a
          → st'.tail_ptr ≢ some a)
      → OwnerOk st g o
      → OwnerOk st' g' o
  OwnerOk-frame nobody tasks head front addr cnt dn ks ss ws tl (t, f, d) =
      (tasks ∙ t, omega (arith, front, f, cnt), omega (arith, dn, d, cnt))
  OwnerOk-frame queued tasks head front addr cnt dn ks ss ws tl (t, f, d, h) = (
    tasks ∙ t,
    omega (arith, front, f, cnt),
    omega (arith, dn, d, front),
    head ∙ h ∙ ap some (sym (ap g'.addr front ∙ addr)),
  )
  OwnerOk-frame (opener s) tasks head front addr cnt dn ks ss ws tl (t, f, d, k) = (
    tasks ∙ t,
    omega (arith, front, f, cnt),
    omega (arith, dn, d, front),
    ks s refl k ∙ k ∙ ap (opens_in s) (sym (ap g'.addr front ∙ addr)),
  )
  OwnerOk-frame (retasker s) tasks head front addr cnt dn ks ss ws tl (t, f, d, k, h) = (
    tasks ∙ t,
    omega (arith, front, f, cnt),
    omega (arith, dn, d, front),
    ss s refl k ∙ k,
    head ∙ h ∙ ap some (sym (ap g'.addr front ∙ addr)),
  )
  OwnerOk-frame (runner w) tasks head front addr cnt dn ks ss ws tl (t, f, r) = (
    tasks ∙ t,
    omega (arith, front, f, cnt),
    subst (RunnerOk st' g') (sym (ws w refl r))
        (RunnerOk-frame (st.workers w) front (ap g'.addr front ∙ addr) cnt dn tl r),
  )

  last_of-frame :
      g'.front ≡ g.front → g'.addr ≡ g.addr → st'.linked ≡ st.linked → last_of st' g' ≡ last_of st g
  last_of-frame f ad cnt = rw (f, ad, cnt)

  -- What the threads in the mutex rest on.
  pub KeeperOk-frame :
      (k : Keeper)
      → st'.locked ≡ st.locked
      → st'.tail_ptr ≡ st.tail_ptr
      → st'.tail ≡ st.tail
      → g'.front ≡ g.front
      → g'.addr ≡ g.addr
      → st'.linked ≡ st.linked
      → ((s a : ℕ) → k ≡ opens_in s a → st.senders s ≡ opening a → st'.senders s ≡ st.senders s)
      → ((s a : ℕ) → k ≡ opens_in s a → g.owner ≡ opener s → g'.owner ≡ opener s)
      → ((s a : ℕ) → k ≡ links_in s a → st.senders s ≡ linking a → st'.senders s ≡ st.senders s)
      → KeeperOk st g k
      → KeeperOk st' g' k
  KeeperOk-frame outside l tp t f ad cnt os own ls (a, b, c) =
      let last = last_of-frame f ad cnt in (l ∙ a, tp ∙ b ∙ sym last, t ∙ c ∙ sym last)
  KeeperOk-frame (opens_in s x) l tp t f ad cnt os own ls (a, b, c, d, e) =
      let last = last_of-frame f ad cnt in
      (l ∙ a, os s x refl b ∙ b, tp ∙ c ∙ sym last, own s x refl d, e ∙ rw (f, ad) refl)
  KeeperOk-frame (links_in s x) l tp t f ad cnt os own ls (a, b, c, d, e, h) =
      let last = last_of-frame f ad cnt in
      (
        l ∙ a,
        ls s x refl b ∙ b,
        t ∙ c ∙ sym last,
        d ∙ rw (cnt, ad) refl,
        omega (arith, e, f, ap length cnt),
        tp ∙ h ∙ rw (cnt, ad) refl,
      )

module _ {M : Type 0} (st st' : State M) (g g' : Ghost) where
  pub SenderOk-frame :
      (s : ℕ) (pc : Sender M)
      → ((a : ℕ) → g.holder a ≡ by_sender s → g'.holder a ≡ by_sender s)
      → ((a : ℕ) → g.keeper ≡ opens_in s a → g'.keeper ≡ opens_in s a)
      → ((a : ℕ) → g.keeper ≡ links_in s a → g'.keeper ≡ links_in s a)
      → (g.owner ≡ retasker s → g'.owner ≡ retasker s)
      → SenderOk st g s pc
      → SenderOk st' g' s pc
  SenderOk-frame s idle hs os ls rs ok = tt
  SenderOk-frame s (ready a m) hs os ls rs ok = hs a ok
  SenderOk-frame s (opening a) hs os ls rs ok = os a ok
  SenderOk-frame s (linking a) hs os ls rs ok = ls a ok
  SenderOk-frame s retask hs os ls rs ok = rs ok

  pub WorkerOk-frame :
      (w : ℕ) (pc : Worker)
      → (g.owner ≡ runner w → g'.owner ≡ runner w)
      → ((a : ℕ) → g.holder a ≡ by_worker w → g'.holder a ≡ by_worker w)
      → WorkerOk st g w pc
      → WorkerOk st' g' w pc
  WorkerOk-frame w off os hs ok = tt
  WorkerOk-frame w (at_node none) os hs ok = tt
  WorkerOk-frame w (at_node (some a)) os hs ok = os ok
  WorkerOk-frame w (sent a) os hs ok = os ok
  WorkerOk-frame w (waiting a) os hs ok = os ok
  WorkerOk-frame w (leaving a) os hs (inl ok) = inl (os ok)
  WorkerOk-frame w (leaving a) os hs (inr ok) = inr (hs a ok)

  -- A heap cell that is empty belongs to no one.
  pub free-Cell : (a : ℕ) (h : Holder) → Cell st g a h → st.heap a ≡ none → h ≡ free
  free-Cell a free c e = refl
  free-Cell a (by_sender s) (m, at, is) e = absurd (some-none _ (sym is ∙ e))
  free-Cell a (listed k) (low, high, at, is) e = absurd (some-none _ (sym is ∙ e))
  free-Cell a (by_worker w) (at, n, is, last) e = absurd (some-none _ (sym is ∙ e))

  pub last_some : g.front < count st g → last_of st g ≡ some (g.addr (count st g - 1))
  last_some h = rw (lt→ltb g.front (count st g) h)
