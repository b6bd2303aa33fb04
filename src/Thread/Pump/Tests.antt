-- ===== src/Thread/Pump/Tests.antt =====
-- Two packages added, with a call in between that finds one and two after that find one.
use strange_io.Common.{ℕ, ◌≡◌, refl, List, [], ◌∷◌}
use strange_io.Thread.Pump.{new_pump, Call, add, next, run_calls}

abbrev calls : List (Call ℕ)
calls = add 1 ∷ next ∷ add 2 ∷ next ∷ next ∷ []

run_calls-calls : run_calls calls new_pump ≡ (1 ∷ 2 ∷ [], record { queue = []; load = 0 })
unfolding run_calls
run_calls-calls = refl
