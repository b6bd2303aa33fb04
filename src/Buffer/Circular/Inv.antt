-- ===== src/Buffer/Circular/Inv.antt =====
-- When the operations of `circular` stay inside the array, and when the two positions agree.
use native.Mathlib.Nat.{mod-lt}
use strange_io.Common.{
  ◌+◌, ◌-◌, ◌%◌, ◌≤◌, ◌<◌, ◌≡◌, some, arith, length, set, length-set, min, u32_mod,
}
use strange_io.Buffer.Circular.{Circular, decrement, push_back}

module _ {A : Type 0} where
  -- Both positions lie inside an array of `capacity` items.
  pub record IsValid (c : Circular A) : Type 0 where
    pub allocated : length c.buffer ≡ c.capacity
    pub usable : 0 < c.capacity
    pub narrow : c.capacity ≤ u32_mod
    pub start_in : c.start < c.capacity
    pub end_in : c.end < c.capacity
    pub size_in : c.size ≤ c.capacity

  -- The next write goes behind the newest item.
  abbrev pub IsLinked : Circular A → Type 0
  IsLinked c = c.end ≡ (c.start + c.size) % c.capacity

  -- What `push_back` leaves of a valid buffer, full or not.
  abbrev pub pushed : A → Circular A → Circular A
  pushed a c = record c {
    end = (c.end + 1) % c.capacity;
    size = min (c.size + 1) c.capacity;
    buffer = set c.buffer c.end a;
  }

  pub push_back-valid : (a : A) (c : Circular A) → IsValid c → push_back a c ≡ some (pushed a c)
  unfolding push_back
  push_back-valid a c v = ground arith

  pub pushed-IsValid : (a : A) (c : Circular A) → IsValid c → IsValid (pushed a c)
  pushed-IsValid a c v = ground (arith, length-set c.buffer c.end a, mod-lt (c.end + 1) v.usable)

  -- What taking an item leaves of a valid buffer that is not empty.
  abbrev pub popped : Circular A → Circular A
  popped c = record c { start = (c.start + 1) % c.capacity; size = c.size - 1 }

  pub decrement-valid :
      (c : Circular A) → IsValid c → 0 < c.size → decrement c ≡ some (c.start, popped c)
  unfolding decrement
  decrement-valid c v h = ground arith

  pub popped-IsValid : (c : Circular A) → IsValid c → IsValid (popped c)
  popped-IsValid c v = ground (arith, mod-lt (c.start + 1) v.usable)
