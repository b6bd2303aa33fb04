-- ===== src/Buffer/Circular/Edges.antt =====
-- The edges of circular.hpp: a full buffer that is overwritten, an index past the end of the array,
-- more items asked for than held, and `reserve`.
use native.Mathlib.Nat.{mod-eq_of_lt, add-mod_right, mod_self}
use strange_io.Common.{
  zero, suc, ℕ, ◌+◌, ◌%◌, ◌≤◌, ◌<◌, ◌≡◌, refl, ap, sym, ◌∙◌, some, List, [], ◌∷◌, arith, length,
  get_elem?, set, get_elem?-of_le, get_elem?-set_self, get_elem?-set_ne, u32_mod, u64_mod,
}
use strange_io.Buffer.Circular.{Circular, item, out_of_range, fault, push_back, move_front, at}
use strange_io.Buffer.Circular.Inv.{IsValid, pushed-IsValid, pushed, popped, push_back-valid}
use strange_io.Buffer.Circular.Fifo.{move_front-at, Holds, Slots, mod-ne}

at_index :
    (start pos cap : ℕ)
    → start < cap
    → pos < cap
    → cap ≤ u32_mod
    → (start + pos % cap) % u64_mod ≡ start + pos
at_index start pos cap hs hp hc = rw (mod-eq_of_lt hp) (omega arith)

module _ {A : Type 0} where
  get_elem?-lt : (xs : List A) (i : ℕ) (a : A) → get_elem? xs i ≡ some a → i < length xs
  get_elem?-lt [] i a e = cc
  get_elem?-lt (x ∷ xs) zero a e = omega arith
  get_elem?-lt (x ∷ xs) (suc i) a e = omega (arith, get_elem?-lt xs i a e)

  -- The item at position `k` of those held.
  Slots-get_elem? :
      (cap : ℕ) (buf : List A) (s k : ℕ) (xs : List A) (a : A)
      → Slots cap buf s xs
      → get_elem? xs k ≡ some a
      → get_elem? buf ((s + k) % cap) ≡ some a
  Slots-get_elem? cap buf s k [] a sl e = cc
  Slots-get_elem? cap buf s zero (x ∷ xs) a sl e =
      ap (λ i. get_elem? buf (i % cap)) (omega arith) ∙ sl.0 ∙ e
  Slots-get_elem? cap buf s (suc k) (x ∷ xs) a sl e =
      ap (λ i. get_elem? buf (i % cap)) (omega arith)
      ∙ Slots-get_elem? cap buf (s + 1) k xs a sl.1 e

  -- A position in front of the end of the array is read as it is.
  at_slot :
      (pos : ℕ) (c : Circular A) (a : A)
      → IsValid c
      → pos ≤ c.size
      → c.start + pos < c.capacity
      → get_elem? c.buffer ((c.start + pos) % c.capacity) ≡ some a
      → at pos c ≡ item a
  unfolding at
  at_slot pos c a v le inside e =
      let found : get_elem? c.buffer (c.start + pos) ≡ some a =
        ap (get_elem? c.buffer) (sym (mod-eq_of_lt inside)) ∙ e in
      ground (arith, at_index c.start pos c.capacity v.start_in (omega arith) v.narrow)

  at_past :
      (pos : ℕ) (c : Circular A)
      → IsValid c
      → pos ≤ c.size
      → pos < c.capacity
      → c.capacity ≤ c.start + pos
      → at pos c ≡ fault
  unfolding at
  at_past pos c v h k l = ground (
    arith,
    at_index c.start pos c.capacity v.start_in k v.narrow,
    get_elem?-of_le c.buffer (c.start + pos) (omega (arith, v.allocated)),
  )

  at_full :
      (c : Circular A) (x : A)
      → IsValid c
      → c.size ≡ c.capacity
      → get_elem? c.buffer c.start ≡ some x
      → at c.capacity c ≡ item x
  unfolding at
  at_full c x v full e =
      let none_left : c.capacity % c.capacity ≡ 0 = mod_self c.capacity in
      let index : (c.start + c.capacity % c.capacity) % u64_mod ≡ c.start =
        rw none_left (omega (arith, v.narrow, v.start_in)) in
      ground arith

  at_refused : (pos : ℕ) (c : Circular A) → c.size < pos → at pos c ≡ out_of_range
  unfolding at
  at_refused pos c h = ground arith

  -- `at` of a buffer that holds `xs`, in all cases. A position beyond their number is refused. That
  -- of an item gives the item, and that behind the last one the slot of `m_end`, as long as the
  -- position, from the start on, lies inside the array; where it does not, though the ring goes
  -- round there, the access is outside the array. In a full buffer the position behind the last
  -- item gives the oldest one.
  pub at-cases :
      (pos : ℕ) (c : Circular A) (xs : List A)
      → Holds c xs
      → (length xs < pos → at pos c ≡ out_of_range)
        × ((a : A) → get_elem? xs pos ≡ some a → c.start + pos < c.capacity → at pos c ≡ item a)
        × ((a : A)
            → pos ≡ length xs
            → c.start + pos < c.capacity
            → get_elem? c.buffer c.end ≡ some a
            → at pos c ≡ item a)
        × (pos ≤ length xs → pos < c.capacity → c.capacity ≤ c.start + pos → at pos c ≡ fault)
        × ((x : A)
            → pos ≡ length xs
            → pos ≡ c.capacity
            → get_elem? xs 0 ≡ some x
            → at pos c ≡ item x)
  at-cases pos c xs h = (
    λ far. at_refused pos c (omega (arith, h.counted)),
    λ a e inside.
        at_slot pos c a h.valid (omega (arith, h.counted, get_elem?-lt xs pos a e)) inside
          (Slots-get_elem? c.capacity c.buffer c.start pos xs a h.slots e),
    λ a e inside has. at_slot pos c a h.valid (omega (arith, h.counted)) inside (
        ap (λ k. get_elem? c.buffer ((c.start + k) % c.capacity)) (e ∙ h.counted)
        ∙ ap (get_elem? c.buffer) (sym h.linked)
        ∙ has),
    λ le short round. at_past pos c h.valid (omega (arith, h.counted)) short round,
    λ x e full has. rw full (
        at_full c x h.valid (sym h.counted ∙ sym e ∙ full) (
          ap (get_elem? c.buffer) (sym (mod-eq_of_lt h.valid.start_in))
          ∙ ap (λ i. get_elem? c.buffer (i % c.capacity)) (omega arith)
          ∙ Slots-get_elem? c.capacity c.buffer c.start 0 xs x h.slots has)),
  )

  Slots-set :
      (cap : ℕ) (buf : List A) (i s : ℕ) (xs : List A) (a : A) (k t : ℕ)
      → i ≡ s % cap
      → t ≡ s + k
      → 0 < k
      → k + length xs ≤ cap
      → Slots cap buf t xs
      → Slots cap (set buf i a) t xs
  Slots-set cap buf i s [] a k t e et h le sl = tt
  Slots-set cap buf i s (x ∷ xs) a k t e et h le sl = (
    get_elem?-set_ne buf i (t % cap) a
          (λ p. mod-ne s k cap h (omega arith) (sym e ∙ p ∙ ap (λ u. u % cap) et))
        ∙ sl.0,
    Slots-set cap buf i s xs a (k + 1) (t + 1) e (omega arith) (omega arith) (omega arith) sl.1,
  )

  -- On a full buffer the new item takes the place of the oldest one, and with it its turn: it is
  -- the next to come out, before the items that were pushed earlier.
  pub push_back-full :
      (a x : A) (c : Circular A) (xs : List A)
      → Holds c (x ∷ xs)
      → length (x ∷ xs) ≡ c.capacity
      → (d : Circular A) × (push_back a c ≡ some d)
        × (d.size ≡ c.size)
        × Slots d.capacity d.buffer d.start (a ∷ xs)
        × (move_front d ≡ some (a, popped d))
  push_back-full a x c xs h full = (
    pushed a c,
    push_back-valid a c h.valid,
    omega (arith, h.counted),
    (
      at_start,
      Slots-set c.capacity c.buffer c.end c.start xs a 1 (c.start + 1) at_end refl (omega arith)
          (omega arith) h.slots.1,
    ),
    move_front-at (pushed a c) a (pushed-IsValid a c h.valid) (omega (arith, h.counted)) at_start,
  )
    where
      at_end : c.end ≡ c.start % c.capacity
      at_end =
          h.linked
          ∙ ap (λ k. (c.start + k) % c.capacity) (sym h.counted ∙ full)
          ∙ add-mod_right c.start c.capacity

      at_start : get_elem? (set c.buffer c.end a) (c.start % c.capacity) ≡ some a
      at_start = rw (← at_end) (get_elem?-set_self c.buffer c.end a (omega (arith, h.valid)))
