-- ===== src/Buffer/Circular/Fifo.antt =====
-- The circular buffer as a bounded queue: a relation between the members and the items held,
-- oldest first, and what each operation does to them.
use native.Mathlib.Nat.{mod-lt, mod-eq_of_lt, mod-add-mod, mod-eq-sub-mod, mod-mod}
use native.Mathlib.Decide.{dec_lt}
use strange_io.Common.{
  ℕ, ◌+◌, ◌-◌, ◌%◌, ◌<◌, ◌≡◌, sym, ap, ◌∙◌, ◌≢◌, some, List, [], ◌∷◌, ◌++◌, arith, length,
  get_elem?, set, length-append, get_elem?-set_self, get_elem?-set_ne,
}
use strange_io.Buffer.Circular.{Circular, push_back, move_front}
use strange_io.Buffer.Circular.Inv.{
  IsValid, IsLinked, pushed, popped, push_back-valid, pushed-IsValid, decrement-valid,
  popped-IsValid,
}

-- Fewer than `m` steps round a ring of `m` places lead elsewhere.
pub mod-ne : (s k m : ℕ) → 0 < k → k < m → s % m ≢ (s + k) % m
mod-ne s k m hk hm e = elim (dec_lt (s % m + k) m) [
  | yes p ↦ omega (arith, mod-add-mod s m k, mod-eq_of_lt p)
  | no p ↦ omega (
    arith,
    mod-add-mod s m k,
    mod-lt s {m = m} (omega arith),
    mod-eq-sub-mod {n = s % m + k} {m = m} (omega arith),
    mod-eq_of_lt {n = s % m + k - m} {m = m} (omega (arith, mod-lt s {m = m} (omega arith))),
  )
]

suc-mod-eq : (s t m : ℕ) → s % m ≡ t % m → (s + 1) % m ≡ (t + 1) % m
suc-mod-eq s t m e = sym (mod-add-mod s m 1) ∙ ap (λ k. (k + 1) % m) e ∙ mod-add-mod t m 1

module _ {A : Type 0} (cap : ℕ) where
  -- The items stand one behind the other from place `s` on, going round at `cap`.
  abbrev pub Slots : List A → ℕ → List A → Type 0
  Slots buf s [] = Unit {0}
  Slots buf s (x ∷ xs) = (get_elem? buf (s % cap) ≡ some x) × Slots buf (s + 1) xs

  Slots-mod :
      (buf : List A) (s t : ℕ) (xs : List A) → s % cap ≡ t % cap → Slots buf s xs → Slots buf t xs
  Slots-mod buf s t [] e h = tt
  Slots-mod buf s t (x ∷ xs) e h =
      (rw (← e) h.0, Slots-mod buf (s + 1) (t + 1) xs (suc-mod-eq s t cap e) h.1)

  Slots-snoc :
      (buf : List A) (i s : ℕ) (xs : List A) (a : A)
      → length buf ≡ cap
      → length xs < cap
      → (s + length xs) % cap ≡ i
      → Slots buf s xs
      → Slots (set buf i a) s (xs ++ a ∷ [])
  Slots-snoc buf i s [] a hb hl e h =
      let e' : s % cap ≡ i = ap (λ k. k % cap) (omega arith) ∙ e in
      (rw e' (get_elem?-set_self buf i a (omega (arith, mod-lt s {m = cap} hl))), tt)
  Slots-snoc buf i s (x ∷ xs) a hb hl e h = (
    get_elem?-set_ne buf i (s % cap) a
          (λ p. mod-ne s (length (x ∷ xs)) cap (omega arith) hl (sym p ∙ sym e))
        ∙ h.0,
    Slots-snoc buf i (s + 1) xs a hb (omega arith) (ap (λ k. k % cap) (omega arith) ∙ e) h.1,
  )

-- A buffer holds `xs`, oldest first.
pub record Holds {A : Type 0} (c : Circular A) (xs : List A) : Type 0 where
  pub valid : IsValid c
  pub linked : IsLinked c
  pub counted : length xs ≡ c.size
  pub slots : Slots c.capacity c.buffer c.start xs

module _ {A : Type 0} where
  pub pushed-Holds :
      (a : A) (c : Circular A) (xs : List A)
      → Holds c xs
      → length xs < c.capacity
      → Holds (pushed a c) (xs ++ a ∷ [])
  pushed-Holds a c xs h room = record {
    valid = pushed-IsValid a c h.valid;
    linked =
        suc-mod-eq c.end (c.start + c.size) c.capacity at_end
        ∙ ap (λ k. k % c.capacity) (omega (arith, h.counted));
    counted = omega (arith, length-append xs (a ∷ []), h.counted);
    slots =
        Slots-snoc c.capacity c.buffer c.end c.start xs a h.valid.allocated room
          (ap (λ k. (c.start + k) % c.capacity) h.counted ∙ sym h.linked) h.slots;
  }
    where
      at_end : c.end % c.capacity ≡ (c.start + c.size) % c.capacity
      at_end = mod-eq_of_lt h.valid.end_in ∙ h.linked

  -- A buffer that is not full takes the item behind all others.
  pub push_back-Holds :
      (a : A) (c : Circular A) (xs : List A)
      → Holds c xs
      → length xs < c.capacity
      → (d : Circular A) × (push_back a c ≡ some d) × Holds d (xs ++ a ∷ [])
  push_back-Holds a c xs h room =
      (pushed a c, push_back-valid a c h.valid, pushed-Holds a c xs h room)

  pub popped-Holds : (x : A) (c : Circular A) (xs : List A) → Holds c (x ∷ xs) → Holds (popped c) xs
  popped-Holds x c xs h = record {
    valid = popped-IsValid c h.valid;
    linked =
        h.linked
        ∙ ap (λ k. k % c.capacity) (omega (arith, h.counted))
        ∙ sym (mod-add-mod (c.start + 1) c.capacity (c.size - 1));
    counted = omega (arith, h.counted);
    slots =
        Slots-mod c.capacity c.buffer (c.start + 1) ((c.start + 1) % c.capacity) xs
          (sym (mod-mod (c.start + 1) c.capacity)) h.slots.1;
  }

  pub move_front-at :
      (c : Circular A) (x : A)
      → IsValid c
      → 0 < c.size
      → get_elem? c.buffer (c.start % c.capacity) ≡ some x
      → move_front c ≡ some (x, popped c)
  unfolding move_front
  move_front-at c x v h e = rw (decrement-valid c v h) (rw at_start)
    where
      at_start : get_elem? c.buffer c.start ≡ some x
      at_start = ap (get_elem? c.buffer) (sym (mod-eq_of_lt v.start_in)) ∙ e

  pub move_front-Holds :
      (x : A) (c : Circular A) (xs : List A) → Holds c (x ∷ xs) → move_front c ≡ some (x, popped c)
  move_front-Holds x c xs h = move_front-at c x h.valid (omega (arith, h.counted)) h.slots.0
