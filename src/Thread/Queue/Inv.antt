-- ===== src/Thread/Queue/Inv.antt =====
-- The state of a task queue (framework/threads/queue.cpp) and of its workers, under each step.
use strange_io.Common.{
  ℕ, suc, zero, ◌<◌, ◌≡◌, ◌≢◌, refl, sym, ap, ◌∙◌, subst, Option, none, some, List, [], ◌∷◌, ◌++◌,
  map, if◌then◌else◌, ◌==◌, ℕ_discrete, arith, length, get_elem?, set, get_elem?-set_self,
  get_elem?-set_ne, some_inj,
}
use strange_io.Thread.Worker.{WorkerState, WaiterPoint, looking, owning, assigned}
use strange_io.Thread.Worker.Handover.{Reached}
use strange_io.Thread.Queue.{
  CyclePoint, at_loop, in_wait, past_wait, finished, scanning, owning_at, assigned_at, TaskQueue,
}

-- What the thread of `cycle` is doing at worker `i`.
abbrev pub waiter_at : CyclePoint → ℕ → WaiterPoint
waiter_at (owning_at j) i = if j == i then owning else looking
waiter_at (assigned_at j) i = if j == i then assigned else looking
waiter_at at_loop i = looking
waiter_at in_wait i = looking
waiter_at past_wait i = looking
waiter_at finished i = looking
waiter_at (scanning j) i = looking

module _ {P : Type 0} where
  -- The packages handed to worker `i`.
  abbrev pub given_to : ℕ → List (ℕ × P) → List P
  given_to i [] = []
  given_to i ((j, p) ∷ rest) = if j == i then p ∷ given_to i rest else given_to i rest

  abbrev pub held : Option P → List P
  held none = []
  held (some task) = task ∷ []

  -- A worker goes on as it does alone.
  abbrev pub Good : ℕ → CyclePoint → List (ℕ × P) → WorkerState P → Type 0
  Good i pt handed w = Reached w × (w.waiter ≡ waiter_at pt i) × (w.given ≡ given_to i handed)

  abbrev pub Workers : List (WorkerState P) → CyclePoint → List (ℕ × P) → Type 0
  Workers ws pt handed = (i : ℕ) (w : WorkerState P) → get_elem? ws i ≡ some w → Good i pt handed w

  -- Where `assign` runs there is a package, and the worker at hand is one of the pool.
  abbrev pub Ready : ℕ → CyclePoint → Option P → Type 0
  Ready n (scanning i) raw = (task : P) × (raw ≡ some task)
  Ready n (owning_at i) raw = (i < n) × ((task : P) × (raw ≡ some task))
  Ready n (assigned_at i) raw = i < n
  Ready n _ raw = Unit {0}

  pub record Inv (n : ℕ) (q : TaskQueue P) : Type 0 where
    pub workers : Workers q.pool.threads q.point q.handed
    pub order : q.posted ≡ map (λ h. h.1) q.handed ++ (held q.raw_pkg ++ q.pump.queue)
    pub load : q.pump.load ≡ length q.pump.queue
    pub count : length q.pool.threads ≡ n
    pub ready : Ready n q.point q.raw_pkg

  pub get_elem?-lt :
      (ws : List (WorkerState P)) (i : ℕ) {w : WorkerState P}
      → get_elem? ws i ≡ some w
      → i < length ws
  get_elem?-lt [] i e = cc
  get_elem?-lt (x ∷ xs) zero e = omega arith
  get_elem?-lt (x ∷ xs) (suc i) e = omega (arith, get_elem?-lt xs i e)

  pub lt-get_elem? :
      (ws : List (WorkerState P)) (i : ℕ)
      → i < length ws
      → (w : WorkerState P) × (get_elem? ws i ≡ some w)
  lt-get_elem? [] i h = elim h [ ]
  lt-get_elem? (x ∷ xs) zero h = (x, refl)
  lt-get_elem? (x ∷ xs) (suc i) h = lt-get_elem? xs i (omega arith)

  pub given_to-append :
      (i j : ℕ) (task : P) (handed : List (ℕ × P))
      → given_to i (handed ++ (j, task) ∷ [])
        ≡ given_to i handed ++ (if j == i then task ∷ [] else [])
  given_to-append i j task [] = ground arith
  given_to-append i j task ((k, p) ∷ rest) = ground (arith, given_to-append i j task rest)

  -- A write to one worker, with what else changes of the others' view.
  pub set-Workers :
      (ws : List (WorkerState P)) (i : ℕ) (w' : WorkerState P) (pt pt' : CyclePoint)
      (handed handed' : List (ℕ × P))
      → i < length ws
      → Workers ws pt handed
      → Good i pt' handed' w'
      → ((j : ℕ) → i ≢ j → waiter_at pt' j ≡ waiter_at pt j)
      → ((j : ℕ) → i ≢ j → given_to j handed' ≡ given_to j handed)
      → Workers (set ws i w') pt' handed'
  set-Workers ws i w' pt pt' handed handed' lt all good points lists j v e = elim (ℕ_discrete i j) [
    | yes same ↦
        subst (λ k. Good k pt' handed' v) same
          (subst (Good i pt' handed')
            (some_inj
              (sym (get_elem?-set_self ws i w' lt) ∙ (ap (get_elem? (set ws i w')) same ∙ e)))
            good)
    | no other ↦
        let (reached, at, has) = all j v (sym (get_elem?-set_ne ws i j w' other) ∙ e) in
        (reached, at ∙ sym (points j other), has ∙ sym (lists j other))
  ]
