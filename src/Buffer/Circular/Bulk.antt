-- ===== src/Buffer/Circular/Bulk.antt =====
-- `push_many`, `pop_many` and `move_many` of circular.hpp: the loops over the single-item steps.
use mathlib.Core.List.{append-nil, append_assoc}
use strange_io.Common.{
  ℕ, zero, suc, ◌+◌, ◌≤◌, ◌≡◌, refl, sym, subst, some, List, [], ◌∷◌, ◌++◌, arith, length,
  length-append, take, drop, ◌>>=◌, ◌<◌, u32_mod, lt→ltb,
}
use strange_io.Buffer.Circular.{Circular, push_loop, push_many, pop_loop, pop_many}
use strange_io.Buffer.Circular.Inv.{pushed, popped, push_back-valid}
use strange_io.Buffer.Circular.Fifo.{Holds, pushed-Holds, popped-Holds, move_front-Holds}

module _ {A : Type 0} where
  push_loop-Holds :
      (ys : List A) (c : Circular A) (xs : List A)
      → Holds c xs
      → length xs + length ys ≤ c.capacity
      → (d : Circular A) × (push_loop ys c ≡ some d) × Holds d (xs ++ ys)
  unfolding push_loop
  push_loop-Holds [] c xs h room = (c, refl, subst (Holds c) (sym (append-nil xs)) h)
  push_loop-Holds (y ∷ ys) c xs h room =
      let next =
        push_loop-Holds ys (pushed y c) (xs ++ y ∷ []) (pushed-Holds y c xs h (omega arith))
          (omega (arith, length-append xs (y ∷ []))) in
      (
        next.0,
        rw (push_back-valid y c h.valid) next.1,
        subst (Holds next.0) (append_assoc xs (y ∷ []) ys) next.2,
      )

  -- A run of items that fits is taken whole, in order.
  pub push_many-Holds :
      (ys : List A) (c : Circular A) (xs : List A)
      → Holds c xs
      → length xs + length ys ≤ c.capacity
      → length ys < u32_mod
      → (d : Circular A) × (push_many ys c ≡ some d) × Holds d (xs ++ ys)
  unfolding push_many
  push_many-Holds ys c xs h room few =
      let run = push_loop-Holds ys c xs h room in
      (run.0, rw (lt→ltb (length ys) u32_mod few) run.1, run.2)

  pop_loop-Holds :
      (n : ℕ) (c : Circular A) (xs : List A)
      → Holds c xs
      → n ≤ length xs
      → (d : Circular A) × (pop_loop n c ≡ some (take n xs, d)) × Holds d (drop n xs)
  unfolding pop_loop
  pop_loop-Holds zero c xs h le = (c, refl, h)
  pop_loop-Holds (suc n) c [] h le = elim le [ ]
  pop_loop-Holds (suc n) c (x ∷ xs) h le =
      let next = pop_loop-Holds n (popped c) xs (popped-Holds x c xs h) (omega arith) in
      (next.0, rw (move_front-Holds x c xs h) (rw next.1), next.2)

  -- As many items as asked for come out, oldest first, if the buffer holds so many.
  pub pop_many-Holds :
      (n : ℕ) (c : Circular A) (xs : List A)
      → Holds c xs
      → n ≤ length xs
      → n < u32_mod
      → (d : Circular A) × (pop_many n c ≡ some (take n xs, d)) × Holds d (drop n xs)
  unfolding pop_many
  pop_many-Holds zero c [] h le few = (c, ground arith, h)
  pop_many-Holds (suc n) c [] h le few = elim le [ ]
  pop_many-Holds n c (x ∷ xs) h le few =
      let popping = pop_loop-Holds n c (x ∷ xs) h le in
      (popping.0, ground (arith, popping.1), popping.2)

  -- What streams through comes out in the order in which it went in: after `ys` is pushed behind
  -- `xs`, where both fit and are fewer than 2^32 items together, taking `n` items, no more than are
  -- held then, gives the first `n` of `xs ++ ys`.
  pub pop_many-push_many :
      (n : ℕ) (ys : List A) (c : Circular A) (xs : List A)
      → Holds c xs
      → length xs + length ys ≤ c.capacity
      → length xs + length ys < u32_mod
      → n ≤ length xs + length ys
      → (d : Circular A) × ((push_many ys c >>= pop_many n) ≡ some (take n (xs ++ ys), d))
        × Holds d (drop n (xs ++ ys))
  pop_many-push_many n ys c xs h room few le =
      let pushing = push_many-Holds ys c xs h room (omega arith) in
      let popping =
        pop_many-Holds n pushing.0 (xs ++ ys) pushing.2 (omega (arith, length-append xs ys))
          (omega arith) in
      (popping.0, rw pushing.1 popping.1, popping.2)
