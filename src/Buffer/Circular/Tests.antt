-- ===== src/Buffer/Circular/Tests.antt =====
-- Runs of the circular buffer on small inputs, and the theorems at a buffer that goes round.
use strange_io.Common.{ℕ, ◌-◌, ◌≡◌, refl, some, [], ◌∷◌, arith, ◌>>=◌, u64_mod, get_elem?}
use strange_io.Buffer.Circular.{
  Circular, fault, empty_circular, reserve, push_back, push_many, front, pop_many, at, clear,
}
use strange_io.Buffer.Circular.Fifo.{Holds, push_back-Holds}
use strange_io.Buffer.Circular.Bulk.{pop_many-push_many}
use strange_io.Buffer.Circular.Edges.{at-cases}
use strange_io.Buffer.Circular.Reserve.{reserve-Holds, reserve-full}
use strange_io.Buffer.Circular.Overdraw.{pop_many-overdraw}

-- 7, then 8, round the end of the array.
abbrev wrapped : Circular ℕ
wrapped = record { start = 2; end = 1; size = 2; capacity = 3; buffer = 8 ∷ 0 ∷ 7 ∷ [] }

abbrev flat : Circular ℕ
flat = record { start = 0; end = 2; size = 2; capacity = 3; buffer = 7 ∷ 8 ∷ 0 ∷ [] }

abbrev filled : Circular ℕ
filled = record { start = 0; end = 0; size = 3; capacity = 3; buffer = 7 ∷ 8 ∷ 9 ∷ [] }

wrapped-Holds : Holds wrapped (7 ∷ 8 ∷ [])
wrapped-Holds = record {
  valid = omega arith;
  linked = refl;
  counted = refl;
  slots = (refl, (refl, tt));
}

flat-Holds : Holds flat (7 ∷ 8 ∷ [])
flat-Holds = record {
  valid = omega arith;
  linked = refl;
  counted = refl;
  slots = (refl, (refl, tt));
}

filled-Holds : Holds filled (7 ∷ 8 ∷ 9 ∷ [])
filled-Holds = record {
  valid = omega arith;
  linked = refl;
  counted = refl;
  slots = (refl, (refl, (refl, tt)));
}

-- The run of test/catch_buffer.cpp: three items in, two out.
three_in_two_out :
    (reserve {A = ℕ} 0 3 empty_circular >>= push_many (5 ∷ 6 ∷ 7 ∷ []) >>= pop_many 2)
    ≡ some
        (5 ∷ 6 ∷ [], record { start = 2; end = 0; size = 1; capacity = 3; buffer = 5 ∷ 6 ∷ 7 ∷ [] })
unfolding reserve empty_circular push_many pop_many
three_in_two_out = refl

-- Overwriting a full buffer: the newest item is at the front.
overwrite_front : (push_back 4 filled >>= front) ≡ some 4
unfolding push_back front
overwrite_front = refl

at_wraps : at 1 wrapped ≡ fault
unfolding at
at_wraps = refl

cleared : clear wrapped ≡ record wrapped { start = 0; end = 0; size = 0 }
unfolding clear
cleared = refl

push_back-Holds_example :
    (d : Circular ℕ) × (push_back 9 wrapped ≡ some d) × Holds d (7 ∷ 8 ∷ 9 ∷ [])
push_back-Holds_example = push_back-Holds 9 wrapped (7 ∷ 8 ∷ []) wrapped-Holds (omega arith)

pop_many-push_many_example :
    (d : Circular ℕ) × ((push_many (9 ∷ []) wrapped >>= pop_many 2) ≡ some (7 ∷ 8 ∷ [], d))
    × Holds d (9 ∷ [])
pop_many-push_many_example =
    pop_many-push_many 2 (9 ∷ []) wrapped (7 ∷ 8 ∷ []) wrapped-Holds (omega arith) (omega arith)
      (omega arith)

at-cases_example : at 1 wrapped ≡ fault
at-cases_example =
    (at-cases 1 wrapped (7 ∷ 8 ∷ []) wrapped-Holds).3 (omega arith) (omega arith) (omega arith)

reserve-Holds_example :
    (d : Circular ℕ) × (reserve 0 5 flat ≡ some d) × (d.capacity ≡ 5) × Holds d (7 ∷ 8 ∷ [])
reserve-Holds_example =
    reserve-Holds 0 5 flat (7 ∷ 8 ∷ []) flat-Holds refl (omega arith) (omega arith) (omega arith)

reserve-full_example :
    (d : Circular ℕ) × ((reserve 0 5 filled >>= push_back 4) ≡ some d)
    × (d.size ≡ 4)
    × (front d ≡ some 4)
reserve-full_example =
    reserve-full 0 4 5 filled (7 ∷ 8 ∷ 9 ∷ []) filled-Holds refl refl (omega arith) (omega arith)

pop_many-overdraw_example :
    (a : ℕ) × (d : Circular ℕ) × (pop_many 3 wrapped ≡ some (7 ∷ 8 ∷ a ∷ [], d))
    × (get_elem? wrapped.buffer wrapped.end ≡ some a)
    × (d.size ≡ u64_mod - 1)
pop_many-overdraw_example = pop_many-overdraw wrapped 7 (8 ∷ []) wrapped-Holds (omega arith)
