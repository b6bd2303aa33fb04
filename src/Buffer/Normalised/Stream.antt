-- ===== src/Buffer/Normalised/Stream.antt =====
-- Sequences of calls of a `NormalisedSizeBuffer`
-- (framework/staging/buffer/NormalisedSizeBuffer.cpp).
use strange_io.Common.{
  take-append-drop, ℕ, ◌+◌, ◌-◌, ◌<◌, ◌≤◌, ◌≡◌, refl, sym, ap, ◌∙◌, Bool, true, false, some, List,
  [], ◌∷◌, ◌++◌, ◌>>=◌, arith, length, take, drop, if◌then◌else◌, leb, length-append, length-drop,
}
use mathlib.Core.List.{append_assoc, append-nil}
use strange_io.Buffer.Normalised.{
  Normalised, BufferCall, supplies, flushes, run_buffer, new_normalised,
}
use strange_io.Buffer.Normalised.Holds.{Holds, new_normalised-Holds}
use strange_io.Buffer.Normalised.Supply.{supply-Holds}
use strange_io.Buffer.Normalised.Flush.{flush-Holds}

module _ {A : Type 0} where
  -- Each period supplied finds room; `load` is what is held before the calls.
  abbrev pub HasRoom : ℕ → ℕ → ℕ → List (BufferCall A) → Type 0
  HasRoom n_size bound load [] = Unit {0}
  HasRoom n_size bound load (supplies ps ∷ calls) =
      (load + length ps ≤ bound) × HasRoom n_size bound (load + length ps) calls
  HasRoom n_size bound load (flushes ∷ calls) =
      HasRoom n_size bound (if leb n_size load then load - n_size else load) calls

  -- All samples that the calls supply.
  abbrev pub all_supplied : List (BufferCall A) → List A
  all_supplied [] = []
  all_supplied (supplies ps ∷ calls) = ps ++ all_supplied calls
  all_supplied (flushes ∷ calls) = all_supplied calls

  -- What comes out, and what stays, is what was held and supplied.
  abbrev Streams : List (BufferCall A) → Normalised A → List A → Type 0
  Streams calls b xs =
      (out : List A) × (b' : Normalised A) × (rest : List A) × (run_buffer calls b ≡ some (out, b'))
      × Holds b' rest
      × (out ++ rest ≡ xs ++ all_supplied calls)

  split_out :
      (b : Bool) (n : ℕ) (xs : List A)
      → (if b then take n xs else []) ++ (if b then drop n xs else xs) ≡ xs
  split_out true n xs = take-append-drop n xs
  split_out false n xs = refl

  length-rest :
      (n : ℕ) (xs : List A)
      → length (if leb n (length xs) then drop n xs else xs)
        ≡ (if leb n (length xs) then length xs - n else length xs)
  length-rest n xs = ground (arith, length-drop n xs)

  run_buffer-Holds :
      (calls : List (BufferCall A)) (b : Normalised A) (xs : List A)
      → Holds b xs
      → HasRoom b.n_size b.bound (length xs) calls
      → Streams calls b xs
  unfolding run_buffer
  run_buffer-Holds [] b xs h room = ([], b, xs, refl, h, sym (append-nil xs))
  run_buffer-Holds (supplies ps ∷ calls) b xs h (fits, room) =
      let (b', gives, h', n_same, bound_same) =
        supply-Holds b xs ps h (omega (arith, fits, h.counted)) in
      let (out, c, rest, runs, held, order) =
        run_buffer-Holds calls b' (xs ++ ps) h'
          (rw (n_same, bound_same, length-append xs ps) room) in
      (
        out,
        c,
        rest,
        ap (λ o. o >>= λ r. run_buffer calls r.1) gives ∙ runs,
        held,
        order ∙ append_assoc xs ps (all_supplied calls),
      )
  run_buffer-Holds (flushes ∷ calls) b xs h room =
      let (b', gives, h', n_same, bound_same) = flush-Holds b xs h in
      let now : List A = if leb b.n_size (length xs) then take b.n_size xs else [] in
      let left : List A = if leb b.n_size (length xs) then drop b.n_size xs else xs in
      let (out, c, rest, runs, held, order) =
        run_buffer-Holds calls b' left h' (rw (n_same, bound_same, length-rest b.n_size xs) room) in
      (
        now ++ out,
        c,
        rest,
        ap (λ o. o >>= λ r. run_buffer calls r.1 >>= λ s. some (r.0 ++ s.0, s.1)) gives
            ∙ ap (λ o. o >>= λ s. some (now ++ s.0, s.1)) runs,
        held,
        append_assoc now out rest
            ∙ (ap (λ ys. now ++ ys) order
                ∙ (sym (append_assoc now left (all_supplied calls))
                    ∙ ap (λ ys. ys ++ all_supplied calls)
                        (split_out (leb b.n_size (length xs)) b.n_size xs))),
      )

  -- Every sequence of calls on a new buffer, in which each period finds room, runs without reading
  -- or writing a sample outside the buffer; the samples that come out and those still held are the
  -- samples supplied, in order.
  pub run_buffer-new_normalised :
      (normal overflow : ℕ) (fresh : List A) (calls : List (BufferCall A))
      → 0 < normal
      → length fresh ≡ normal + overflow
      → HasRoom normal (normal + overflow) 0 calls
      → (out : List A) × (b' : Normalised A) × (rest : List A) × (run_buffer calls
            (new_normalised normal overflow fresh)
          ≡ some (out, b'))
        × Holds b' rest
        × (out ++ rest ≡ all_supplied calls)
  unfolding new_normalised
  run_buffer-new_normalised normal overflow fresh calls pos long room =
      run_buffer-Holds calls (new_normalised normal overflow fresh) []
        (new_normalised-Holds normal overflow fresh pos long) room
