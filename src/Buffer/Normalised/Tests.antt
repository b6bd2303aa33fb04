-- ===== src/Buffer/Normalised/Tests.antt =====
-- A buffer that hands out periods of two samples and has room for five.
use strange_io.Common.{
  ℕ, zero, suc, get_elem?, ◌+◌, ◌<◌, ◌≡◌, refl, some, List, [], ◌∷◌, ◌++◌, arith,
}
use strange_io.Buffer.Normalised.{
  Normalised, BufferCall, partial, state_of, supplies, flushes, supply, new_normalised, run_buffer,
  dispatch,
}
use strange_io.Buffer.Normalised.Holds.{wrap, Holds}
use strange_io.Buffer.Normalised.Stream.{all_supplied, run_buffer-new_normalised}
use strange_io.Buffer.Normalised.Overrun.{supply_overrun}

abbrev five_places : List ℕ
five_places = 0 ∷ 0 ∷ 0 ∷ 0 ∷ 0 ∷ []

abbrev some_calls : List (BufferCall ℕ)
some_calls =
    supplies (1 ∷ 2 ∷ 3 ∷ []) ∷ flushes ∷ supplies (4 ∷ 5 ∷ 6 ∷ 7 ∷ []) ∷ flushes ∷ flushes ∷ []

-- The second period of four goes round, and so does the last one that comes out.
some_calls_out :
    run_buffer some_calls (new_normalised 2 3 five_places)
    ≡ some (
      1 ∷ 2 ∷ 3 ∷ 4 ∷ 5 ∷ 6 ∷ [],
      record {
        n_size = 2;
        remainder = 6 ∷ 7 ∷ 3 ∷ 4 ∷ 5 ∷ [];
        bound = 5;
        r_write = 2;
        r_read = 1;
        load = 1;
        state = partial;
      },
    )
unfolding run_buffer new_normalised
some_calls_out = refl

run_buffer-new_normalised_example :
    (out : List ℕ) × (b' : Normalised ℕ) × (rest : List ℕ) × (run_buffer some_calls
        (new_normalised 2 3 five_places)
      ≡ some (out, b'))
    × Holds b' rest
    × (out ++ rest ≡ all_supplied some_calls)
run_buffer-new_normalised_example =
    run_buffer-new_normalised 2 3 five_places some_calls (omega arith) refl (omega arith)

abbrev two_held : Normalised ℕ
two_held = record {
  n_size = 2;
  remainder = 8 ∷ 9 ∷ 0 ∷ 0 ∷ [];
  bound = 4;
  r_write = 2;
  r_read = 0;
  load = 2;
  state = dispatch;
}

two_held_at :
    (i : ℕ) → i < 2 → get_elem? two_held.remainder (wrap 4 (0 + i)) ≡ get_elem? (8 ∷ 9 ∷ []) i
two_held_at zero lt = refl
two_held_at (suc zero) lt = refl
two_held_at (suc (suc i)) lt = absurd (omega (arith, lt))

two_held-Holds : Holds two_held (8 ∷ 9 ∷ [])
unfolding state_of
two_held-Holds = record {
  sized = refl;
  normal = omega arith;
  asked = omega arith;
  inside = omega arith;
  ends = refl;
  counted = refl;
  fits = omega arith;
  told = refl;
  at = two_held_at;
}

supply_overrun_example :
    (b' : Normalised ℕ) × (supply (1 ∷ 2 ∷ 3 ∷ []) two_held ≡ some (dispatch, b'))
    × (b'.bound < b'.load)
supply_overrun_example =
    supply_overrun two_held (8 ∷ 9 ∷ []) (1 ∷ 2 ∷ 3 ∷ []) two_held-Holds (omega arith) (omega arith)
      (omega arith)
