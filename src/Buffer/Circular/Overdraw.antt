-- ===== src/Buffer/Circular/Overdraw.antt =====
-- `pop_many` and `move_many` of circular.hpp, asked for one item more than the buffer holds.
use native.Mathlib.Nat.{mod-eq_of_lt}
use strange_io.Common.{
  ℕ, zero, suc, ◌+◌, ◌-◌, ◌%◌, ◌<◌, ◌≡◌, refl, sym, some, List, [], ◌∷◌, ◌++◌, arith, length,
  get_elem?, u64_mod, u32_mod, ap, ◌∙◌,
}
use strange_io.Buffer.Circular.{Circular, move_front, pop_loop, pop_many}
use strange_io.Buffer.Circular.Inv.{IsValid, IsLinked, popped}
use strange_io.Buffer.Circular.Fifo.{Holds, move_front-Holds, popped-Holds}

module _ {A : Type 0} where
  get_elem?-total : (xs : List A) (i : ℕ) → i < length xs → (a : A) × (get_elem? xs i ≡ some a)
  get_elem?-total [] i h = elim h [ ]
  get_elem?-total (x ∷ xs) zero h = (x, refl)
  get_elem?-total (x ∷ xs) (suc i) h = get_elem?-total xs i (omega arith)

  -- The state after an item is taken from an empty buffer: the size has wrapped.
  abbrev drained : Circular A → Circular A
  drained c = record c { start = (c.start + 1) % c.capacity; size = u64_mod - 1 }

  move_front-empty :
      (c : Circular A)
      → IsValid c
      → IsLinked c
      → c.size ≡ 0
      → (a : A) × (move_front c ≡ some (a, drained c)) × (get_elem? c.buffer c.end ≡ some a)
  unfolding move_front
  move_front-empty c v linked e =
      let at_end : c.end ≡ c.start =
        linked ∙ ap (λ k. k % c.capacity) (omega arith) ∙ mod-eq_of_lt v.start_in in
      let found = get_elem?-total c.buffer c.start (omega (arith, v.allocated, v.start_in)) in
      (found.0, ground (arith, found.1, v.narrow), ap (get_elem? c.buffer) at_end ∙ found.1)

  pop_loop-overdraw :
      (c : Circular A) (xs : List A)
      → Holds c xs
      → (a : A) × (d : Circular A) × (pop_loop (suc (length xs)) c ≡ some (xs ++ a ∷ [], d))
        × (get_elem? c.buffer c.end ≡ some a)
        × (d.size ≡ u64_mod - 1)
  unfolding pop_loop
  pop_loop-overdraw c [] h =
      let last = move_front-empty c h.valid h.linked (sym h.counted) in
      (last.0, drained c, rw last.1, last.2, refl)
  pop_loop-overdraw c (x ∷ xs) h =
      let next = pop_loop-overdraw (popped c) xs (popped-Holds x c xs h) in
      (next.0, next.1, rw (move_front-Holds x c xs h) (rw next.2), next.3, next.4)

  -- A buffer that holds items, and is asked for one more than it holds, does not refuse: behind
  -- the items held comes what stands in the slot of `m_end`, where the next item would be stored,
  -- and the size wraps to 2^64 - 1. The items asked for are fewer than 2^32.
  pub pop_many-overdraw :
      (c : Circular A) (x : A) (xs : List A)
      → Holds c (x ∷ xs)
      → suc (length (x ∷ xs)) < u32_mod
      → (a : A) × (d : Circular A) × (pop_many (suc (length (x ∷ xs))) c
          ≡ some (x ∷ xs ++ a ∷ [], d))
        × (get_elem? c.buffer c.end ≡ some a)
        × (d.size ≡ u64_mod - 1)
  unfolding pop_many
  pop_many-overdraw c x xs h few =
      let run = pop_loop-overdraw c (x ∷ xs) h in
      (run.0, run.1, ground (arith, run.2, h.counted), run.3, run.4)
