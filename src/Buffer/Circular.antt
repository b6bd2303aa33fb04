-- ===== src/Buffer/Circular.antt =====
-- `circular` of framework/include/framework/buffer/circular.hpp, for any item type.
-- A call that C++ leaves undefined (an access outside the array, `% 0`) is `none`.
pub mod Inv
pub mod Fifo
pub mod Bulk
pub mod Edges
pub mod Reserve
pub mod Overdraw
mod Tests
use strange_io.Common.{
  ℕ, zero, suc, ◌+◌, ◌-◌, ◌%◌, ◌&&◌, Bool, Option, none, some, List, [], ◌∷◌, ◌++◌, ltb, leb, ◌==◌,
  if◌then◌else◌, length, get_elem?, set, take, replicate, ◌>>=◌, ◌>>◌, require, u32_mod, u64_mod,
}

-- The members. `new value_type[n]` is a list of n items.
pub record Circular (A : Type 0) : Type 0 where
  pub start : ℕ
  pub end : ℕ
  pub size : ℕ
  pub capacity : ℕ
  pub buffer : List A

-- What `at` gives: a reference to an item, the exception, or undefined behaviour.
pub data Access (A : Type 0) : Type 0 where
  item : A → Access A
  out_of_range : Access A
  fault : Access A

module _ {A : Type 0} where
  -- The default constructor: a null array.
  unfoldable pub empty_circular : Circular A
  empty_circular = record { start = 0; end = 0; size = 0; capacity = 0; buffer = [] }

  -- The items of a new array are `blank`.
  unfoldable pub with_capacity : A → ℕ → Circular A
  with_capacity blank n = record {
    start = 0;
    end = 0;
    size = 0;
    capacity = n;
    buffer = replicate n blank;
  }

  unfoldable pub reserve : A → ℕ → Circular A → Option (Circular A)
  reserve blank new_cap c = if leb new_cap c.capacity then some c else do
    require (leb c.size (length c.buffer) && leb c.size new_cap)
    some (record c {
      capacity = new_cap;
      buffer = take c.size c.buffer ++ replicate (new_cap - c.size) blank;
    })

  -- `m_end++`, reduced by the capacity; the size stops at the capacity.
  unfoldable pub increment : Circular A → Option (ℕ × Circular A)
  increment c = do
    require (ltb 0 c.capacity)
    let grown = (c.size + 1) % u64_mod
    some (
      c.end,
      record c {
        end = (c.end + 1) % u32_mod % c.capacity;
        size = if ltb c.capacity grown then c.capacity else grown;
      },
    )

  unfoldable pub decrement : Circular A → Option (ℕ × Circular A)
  decrement c = do
    require (ltb 0 c.capacity)
    some (
      c.start,
      record c {
        start = (c.start + 1) % u32_mod % c.capacity;
        size = (c.size + u64_mod - 1) % u64_mod;
      },
    )

  -- `m_buffer[i] = item`
  unfoldable pub store : ℕ → A → Circular A → Option (Circular A)
  store i a c = do require (ltb i (length c.buffer)); some (record c { buffer = set c.buffer i a })

  -- Both `push_back`: copying and moving an item store the same value.
  unfoldable pub push_back : A → Circular A → Option (Circular A)
  unfolding increment store
  push_back a c = do (i, c') ← increment c; store i a c'

  -- The loop of `push_many`.
  unfoldable pub push_loop : List A → Circular A → Option (Circular A)
  unfolding push_back
  push_loop [] c = some c
  push_loop (a ∷ rest) c = do c' ← push_back a c; push_loop rest c'

  -- The index of the loop is an `unsigned int`, which is below every `count` from 2^32 on: then the
  -- loop does not end, and leaves the array `items`.
  unfoldable pub push_many : List A → Circular A → Option (Circular A)
  unfolding push_loop
  push_many items c = do require (ltb (length items) u32_mod); push_loop items c

  unfoldable pub front : Circular A → Option A
  front c = get_elem? c.buffer c.start

  unfoldable pub move_front : Circular A → Option (A × Circular A)
  unfolding decrement
  move_front c = do (i, c') ← decrement c; a ← get_elem? c'.buffer i; some (a, c')

  unfoldable pub pop_front : Circular A → Option (Circular A)
  unfolding decrement
  pop_front c = if c.size == 0 then some c else do (i, c') ← decrement c; some c'

  -- The loop of `pop_many` and of `move_many` for a `count` that its index, an `unsigned int`, gets
  -- to: what it writes to `dest`, in order.
  unfoldable pub pop_loop : ℕ → Circular A → Option (List A × Circular A)
  unfolding move_front
  pop_loop zero c = some ([], c)
  pop_loop (suc n) c = do (a, c') ← move_front c; (rest, c'') ← pop_loop n c'; some (a ∷ rest, c'')

  -- `pop_many` and `move_many`, which write the same.
  unfoldable pub pop_many : ℕ → Circular A → Option (List A × Circular A)
  unfolding pop_loop
  pop_many count c =
      let run = pop_loop count c in
      if c.size == 0 then some ([], c) else do require (ltb count u32_mod); run

  -- `m_start + pos % m_capacity`, as C++ parses it.
  unfoldable pub at : ℕ → Circular A → Access A
  at pos c =
      if ltb c.size pos
      then out_of_range
      else if c.capacity == 0
      then fault
      else elim (get_elem? c.buffer ((c.start + pos % c.capacity) % u64_mod)) [
        | none ↦ fault
        | some a ↦ item a
      ]

  unfoldable pub is_empty : Circular A → Bool
  is_empty c = c.size == 0

  unfoldable pub clear : Circular A → Circular A
  clear c = record c { start = 0; end = 0; size = 0 }
