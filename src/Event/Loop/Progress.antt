-- ===== src/Event/Loop/Progress.antt =====
-- `loop` (framework/events/loop.cpp) never waits for an event that will not come.
use strange_io.Common.{
  ℕ, ◌≡◌, ◌≢◌, refl, sym, ap, subst, ◌∙◌, inl, inr, Bool, true, false, Option, none, some, length,
  Bool-cases, some_inj, ℕ_discrete,
}
use strange_io.Event.Loop.{
  Step, begins, opens, publishes, links, marks, adds_task, starts, ends, hands, sees_other,
  sees_tail, resets, keeps, deletes, Worker, off, at_node, sent, waiting, leaving, State,
}
use strange_io.Event.Loop.Inv.{
  Owner, nobody, queued, opener, retasker, runner, Keeper, outside, opens_in, links_in, Ghost, Inv,
  KeeperOk, RunnerOk, OwnerOk,
}
use strange_io.Event.Loop.Reach.{Reach, Reach-Inv}
use strange_io.Event.Loop.Order.{take_all, Followed, Reach-Followed}

is_tail : (t : Option ℕ) (a : ℕ) → Dec (t ≡ some a)
is_tail none a = no (λ e. cc)
is_tail (some b) a = elim (ℕ_discrete b a) [
  | yes e ↦ yes (ap some e)
  | no e ↦ no (λ h. e (some_inj h))
]

module _ {M : Type 0} (listened : M → Bool) where
  -- Whether a step brings in a new event.
  abbrev pub adds_event : {st st' : State M} → Step listened st st' → Bool
  adds_event (begins s a m at heard fresh) = true
  adds_event (opens s a m at unlocked reset) = false
  adds_event (publishes s a at) = false
  adds_event (links s a t u m n at unlocked has tail node) = false
  adds_event (marks s a at) = false
  adds_event (adds_task s at) = false
  adds_event (starts w left at some_left) = false
  adds_event (ends w at) = false
  adds_event (hands w a n m at node message) = false
  adds_event (sees_other w a at ne) = false
  adds_event (sees_tail w a at is) = false
  adds_event (resets w a at unlocked is) = false
  adds_event (keeps w a at unlocked ne) = false
  adds_event (deletes w a n at node) = false

  abbrev pub GoesOn : State M → Type 0
  GoesOn st = (st' : State M) × (moved : Step listened st st') × (adds_event moved ≡ false)

  -- Whoever is in the mutex can leave it.
  keeper_goes :
      (st : State M) (g : Ghost) (k : Keeper) → KeeperOk st g k → st.locked ≡ true → GoesOn st
  keeper_goes st g outside (unlocked, tp, tl) locked = absurd (apart (sym unlocked ∙ locked))
    where
      apart : false ≡ true → ⊥
      apart h = cc
  keeper_goes st g (opens_in s a) (l, at, tp, own, f) locked = (_, publishes s a at, refl)
  keeper_goes st g (links_in s a) (l, at, tl, last, more, tp) locked = (_, marks s a at, refl)

  runner_goes :
      (st : State M) (g : Ghost) (w : ℕ) (pc : Worker)
      → Inv st g
      → st.workers w ≡ pc
      → RunnerOk st g pc
      → Followed st pc
      → GoesOn st
  runner_goes st g w off inv at ran follows = absurd ran
  runner_goes st g w (at_node none) inv at ran follows = absurd ran
  runner_goes st g w (at_node (some a)) inv at ran (n, m, node, message) =
      (_, hands w a n m at node message, refl)
  runner_goes st g w (sent a) inv at ran follows = elim (is_tail st.tail_ptr a) [
    | yes same ↦ (_, sees_tail w a at same, refl)
    | no other ↦ (_, sees_other w a at other, refl)
  ]
  runner_goes st g w (waiting a) inv at ran follows = elim (Bool-cases st.locked) [
    | inl locked ↦ keeper_goes st g g.keeper inv.keeper locked
    | inr unlocked ↦ elim (is_tail st.tail_ptr a) [
      | yes same ↦ (_, resets w a at unlocked same, refl)
      | no other ↦ (_, keeps w a at unlocked other, refl)
    ]
  ]
  runner_goes st g w (leaving a) inv at ran (n, node) = (_, deletes w a n at node, refl)

  owner_goes :
      (st : State M) (g : Ghost) (o : Owner) (w : ℕ)
      → Reach listened st
      → Inv st g
      → st.workers w ≡ off
      → st.handed ≢ st.linked
      → OwnerOk st g o
      → GoesOn st
  owner_goes st g nobody w reached inv free_worker left (t, f, all_done) =
      absurd (left (inv.prefix ∙ take_all (length st.handed) st.linked all_done))
  owner_goes st g queued w reached inv free_worker left (t, f, d, head) =
      (_, starts w 0 free_worker t, refl)
  owner_goes st g (opener s) w reached inv free_worker left (t, f, d, kept) =
      let (l, at, tp, own, fr) = subst (KeeperOk st g) kept inv.keeper in
      (_, publishes s _ at, refl)
  owner_goes st g (retasker s) w reached inv free_worker left (t, f, d, at, head) =
      (_, adds_task s at, refl)
  owner_goes st g (runner v) w reached inv free_worker left (t, f, ran) =
      runner_goes st g v (st.workers v) inv refl ran ((Reach-Followed listened st reached).0 v)

  -- While a message that was put into the list has not been handed out, and a thread of the pool is
  -- free, some thread can go on, without any new event.
  pub Reach-GoesOn :
      (st : State M) (w : ℕ)
      → Reach listened st
      → st.workers w ≡ off
      → st.handed ≢ st.linked
      → GoesOn st
  Reach-GoesOn st w reached free_worker left =
      let (g, inv) = Reach-Inv listened st reached in
      owner_goes st g g.owner w reached inv free_worker left inv.owner
