-- ===== src/Thread/Pump/Order.antt =====
-- Sequences of calls of a pump (framework/threads/pump.cpp), and the packages that come out.
use strange_io.Common.{
  ℕ, ◌+◌, ◌-◌, ◌≡◌, refl, ap, ◌∙◌, List, [], ◌∷◌, ◌++◌, arith, length, length-append,
}
use strange_io.Thread.Pump.{
  Pump, new_pump, add_package, next_package, get_load, Call, add, next, run_calls, added,
}

module _ {A : Type 0} where
  append_one : (xs : List A) (a : A) (ys : List A) → (xs ++ a ∷ []) ++ ys ≡ xs ++ a ∷ ys
  append_one [] a ys = refl
  append_one (x ∷ xs) a ys = ap (◌∷◌ x) (append_one xs a ys)

  -- What a sequence of calls from `p` on keeps.
  abbrev pub InOrder : List (Call A) → Pump A → Type 0
  InOrder calls p =
      let (tasks, q) = run_calls calls p in
      (tasks ++ q.queue ≡ p.queue ++ added calls) × (get_load q ≡ length q.queue)

  append_nil : (xs : List A) → xs ≡ xs ++ []
  append_nil [] = refl
  append_nil (x ∷ xs) = ap (◌∷◌ x) (append_nil xs)

  run_calls-InOrder :
      (calls : List (Call A)) (queue : List A) (load : ℕ)
      → load ≡ length queue
      → InOrder calls (record { queue = queue; load = load })
  unfolding run_calls added get_load add_package next_package
  run_calls-InOrder [] queue load e = (append_nil queue, e)
  run_calls-InOrder (add task ∷ calls) queue load e =
      let (order, count) =
        run_calls-InOrder calls (queue ++ task ∷ []) (load + 1)
          (omega (arith, e, length-append queue (task ∷ []))) in
      (order ∙ append_one queue task (added calls), count)
  run_calls-InOrder (next ∷ calls) [] load e = run_calls-InOrder calls [] load e
  run_calls-InOrder (next ∷ calls) (task ∷ rest) load e =
      let (order, count) = run_calls-InOrder calls rest (load - 1) (omega (arith, e)) in
      (ap (◌∷◌ task) order, count)

  -- For every sequence of calls on a new pump, the packages handed out and those left, in this
  -- order, are the packages that were added, in the order of their additions, and the load is the
  -- number of those left.
  pub run_calls_order :
      (calls : List (Call A))
      → let (tasks, q) = run_calls calls new_pump in
        (tasks ++ q.queue ≡ added calls) × (get_load q ≡ length q.queue)
  run_calls_order calls = run_calls-InOrder calls [] 0 refl
