-- ===== src/Buffer/Circular/Reserve.antt =====
-- `reserve` of circular.hpp, which copies the array from its first place on and leaves both
-- positions alone.
use native.Mathlib.Nat.{mod-eq_of_lt, mod_self}
use strange_io.Common.{
  ℕ, zero, suc, ◌+◌, ◌-◌, ◌%◌, ◌≤◌, ◌<◌, ◌≡◌, refl, ap, sym, ◌∙◌, some, List, [], ◌∷◌, ◌++◌, arith,
  length, length-append, length-take, length-replicate, take, replicate, get_elem?, set,
  get_elem?-set_self, ◌>>=◌, u32_mod,
}
use strange_io.Buffer.Circular.{Circular, reserve, push_back, front}
use strange_io.Buffer.Circular.Inv.{IsValid, pushed, push_back-valid}
use strange_io.Buffer.Circular.Fifo.{Holds, Slots}

module _ {A : Type 0} where
  get_elem?-take-append :
      (k i : ℕ) (xs ys : List A)
      → i < k
      → k ≤ length xs
      → get_elem? (take k xs ++ ys) i ≡ get_elem? xs i
  get_elem?-take-append zero i xs ys h le = elim h [ ]
  get_elem?-take-append (suc k) i [] ys h le = elim le [ ]
  get_elem?-take-append (suc k) zero (x ∷ xs) ys h le = refl
  get_elem?-take-append (suc k) (suc i) (x ∷ xs) ys h le =
      get_elem?-take-append k i xs ys (omega arith) (omega arith)

  abbrev grown : A → ℕ → Circular A → Circular A
  grown blank n c = record c {
    capacity = n;
    buffer = take c.size c.buffer ++ replicate (n - c.size) blank;
  }

  reserve-valid :
      (blank : A) (n : ℕ) (c : Circular A)
      → IsValid c
      → c.capacity < n
      → reserve blank n c ≡ some (grown blank n c)
  unfolding reserve
  reserve-valid blank n c v more = ground arith

  length-grown :
      (blank : A) (n : ℕ) (c : Circular A)
      → IsValid c
      → c.capacity < n
      → length (grown blank n c).buffer ≡ n
  length-grown blank n c v more = omega (
    arith,
    length-append (take c.size c.buffer) (replicate (n - c.size) blank),
    length-take c.size c.buffer,
    length-replicate (n - c.size) blank,
    v.allocated,
    v.size_in,
  )

  grown-IsValid :
      (blank : A) (n : ℕ) (c : Circular A)
      → IsValid c
      → c.capacity < n
      → n ≤ u32_mod
      → IsValid (grown blank n c)
  grown-IsValid blank n c v more fits = record {
    allocated = length-grown blank n c v more;
    usable = omega (arith, v.usable);
    narrow = fits;
    start_in = omega (arith, v.start_in);
    end_in = omega (arith, v.end_in);
    size_in = omega (arith, v.size_in);
  }

  Slots-grown :
      (blank : A) (n : ℕ) (c : Circular A) (s : ℕ) (xs : List A)
      → IsValid c
      → c.capacity < n
      → s + length xs ≤ c.size
      → Slots c.capacity c.buffer s xs
      → Slots n (grown blank n c).buffer s xs
  Slots-grown blank n c s [] v more le sl = tt
  Slots-grown blank n c s (x ∷ xs) v more le sl = (
    rw (mod-eq_of_lt {n = s} {m = n} (omega (arith, v.size_in))) (
        get_elem?-take-append c.size s c.buffer _ (omega arith)
          (omega (arith, v.allocated, v.size_in))
        ∙ ap (get_elem? c.buffer)
            (sym (mod-eq_of_lt {n = s} {m = c.capacity} (omega (arith, v.size_in))))
        ∙ sl.0),
    Slots-grown blank n c (s + 1) xs v more (omega arith) sl.1,
  )

  -- A buffer that starts at the first place and is not full keeps its items and their order.
  pub reserve-Holds :
      (blank : A) (n : ℕ) (c : Circular A) (xs : List A)
      → Holds c xs
      → c.start ≡ 0
      → c.size < c.capacity
      → c.capacity < n
      → n ≤ u32_mod
      → (d : Circular A) × (reserve blank n c ≡ some d) × (d.capacity ≡ n) × Holds d xs
  reserve-Holds blank n c xs h first room more fits = (
    grown blank n c,
    reserve-valid blank n c h.valid more,
    refl,
    record {
      valid = grown-IsValid blank n c h.valid more fits;
      linked =
          h.linked
          ∙ mod-eq_of_lt {n = c.start + c.size} {m = c.capacity} (omega arith)
          ∙ sym (mod-eq_of_lt {n = c.start + c.size} {m = n} (omega arith));
      counted = h.counted;
      slots = Slots-grown blank n c c.start xs h.valid more (omega (arith, h.counted)) h.slots;
    },
  )

  -- A full buffer that starts at the first place loses its oldest item: the room that `reserve`
  -- makes is not used by the next push, which overwrites the front.
  pub reserve-full :
      (blank a : A) (n : ℕ) (c : Circular A) (xs : List A)
      → Holds c xs
      → c.start ≡ 0
      → c.size ≡ c.capacity
      → c.capacity < n
      → n ≤ u32_mod
      → (d : Circular A) × ((reserve blank n c >>= push_back a) ≡ some d)
        × (d.size ≡ c.size + 1)
        × (front d ≡ some a)
  unfolding front
  reserve-full blank a n c xs h first full more fits = (
    pushed a (grown blank n c),
    rw (reserve-valid blank n c h.valid more)
        (push_back-valid a (grown blank n c) (grown-IsValid blank n c h.valid more fits)),
    omega arith,
    ap (get_elem? written) (first ∙ sym at_end)
        ∙ get_elem?-set_self (grown blank n c).buffer c.end a
            (omega (arith, h.valid.end_in, length-grown blank n c h.valid more)),
  )
    where
      written : List A
      written = set (grown blank n c).buffer c.end a

      at_end : c.end ≡ 0
      at_end = h.linked ∙ ap (λ k. k % c.capacity) (omega arith) ∙ mod_self c.capacity
