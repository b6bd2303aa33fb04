-- ===== src/Buffer/Delay/Tests.antt =====
-- A delay buffer for four blocks, of which nothing is used.
use strange_io.Common.{ℕ, ◌<◌, ◌≡◌, refl, List, [], ◌∷◌, u32_mod}
use strange_io.Buffer.Delay.{wait, new_delay, supply, copy_to, flush_raw, has_capacity}
use strange_io.Buffer.Delay.Capacity.{Call, supplies, flushes, run, NoSamples, run-new_delay}

abbrev two_calls : List (Call ℕ)
two_calls = flushes ∷ supplies [] ∷ []

run-new_delay_example :
    NoSamples two_calls
    × ((n : ℕ) → 0 < n → n < u32_mod → has_capacity n (new_delay {A = ℕ} 4) ≡ wait)
unfolding run supply copy_to flush_raw new_delay
run-new_delay_example = run-new_delay 4 two_calls (new_delay 4) refl
