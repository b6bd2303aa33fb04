-- ===== src/Thread/Pump.antt =====
-- `pump` of framework/threads/pump.cpp. Its mutex makes each call one step, so calls of several
-- threads are one sequence. A package stands for its `unique_ptr`.
pub mod Order
mod Tests
use strange_io.Common.{ℕ, ◌+◌, ◌-◌, Option, none, some, List, [], ◌∷◌, ◌++◌}

pub record Pump (A : Type 0) : Type 0 where
  pub queue : List A
  pub load : ℕ

pub data Call (A : Type 0) : Type 0 where
  add : A → Call A
  next : Call A

module _ {A : Type 0} where
  abbrev pub new_pump : Pump A
  new_pump = record { queue = []; load = 0 }

  unfoldable pub add_package : A → Pump A → Pump A
  add_package task p = record { queue = p.queue ++ task ∷ []; load = p.load + 1 }

  -- `none` is a null pointer.
  unfoldable pub next_package : Pump A → Option A × Pump A
  next_package p = elim p.queue [
    | [] ↦ (none, p)
    | task ∷ rest ↦ (some task, record { queue = rest; load = p.load - 1 })
  ]

  unfoldable pub get_load : Pump A → ℕ
  get_load p = p.load

  abbrev pub keep_some : Option A → List A → List A
  keep_some none xs = xs
  keep_some (some x) xs = x ∷ xs

  -- A sequence of calls: the packages handed out, in order, and the pump after it.
  unfoldable pub run_calls : List (Call A) → Pump A → List A × Pump A
  unfolding add_package next_package
  run_calls [] p = ([], p)
  run_calls (add task ∷ calls) p = run_calls calls (add_package task p)
  run_calls (next ∷ calls) p =
      let (task, p') = next_package p in
      let (tasks, q) = run_calls calls p' in (keep_some task tasks, q)

  -- The packages that a sequence of calls adds, in order.
  unfoldable pub added : List (Call A) → List A
  added [] = []
  added (add task ∷ calls) = task ∷ added calls
  added (next ∷ calls) = added calls
