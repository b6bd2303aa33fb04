-- ===== src/Buffer/Normalised/Overrun.antt =====
-- `supply` of `NormalisedSizeBuffer` (framework/staging/buffer/NormalisedSizeBuffer.cpp) on a period
-- that is too long.
use strange_io.Common.{
  copy_in-CopiedIn, ℕ, ◌+◌, ◌-◌, ◌<◌, ◌≤◌, ◌≡◌, ap, inl, inr, false, ◌&&◌, some, List, arith,
  length, take, drop, ltb, leb, leb→le, Bool-cases, length-take, length-drop,
}
use strange_io.Buffer.Normalised.{Normalised, dispatch, state_of, supplied, supply}
use strange_io.Buffer.Normalised.Holds.{Holds}
use strange_io.Buffer.Normalised.Supply.{write_inside}

ahead_passes : (w r n : ℕ) → r ≤ w → (ltb w r && ltb r (w + n)) ≡ false
ahead_passes w r n h = ground arith

state_of-dispatch : (n k : ℕ) → n ≤ k → state_of n k ≡ dispatch
unfolding state_of
state_of-dispatch n k h = ground arith

module _ {A : Type 0} where
  -- A period that is no longer than the buffer, but for which there is no room, is taken, not
  -- answered by OVERFLOW, where the writes have not gone round behind the reads: more samples count
  -- as held than the buffer has places.
  pub supply_overrun :
      (b : Normalised A) (xs ps : List A)
      → Holds b xs
      → b.r_read ≤ b.r_write
      → b.bound < b.load + length ps
      → length ps ≤ b.bound
      → (b' : Normalised A) × (supply ps b ≡ some (dispatch, b')) × (b'.bound < b'.load)
  unfolding supply supplied
  supply_overrun b xs ps h ahead over short =
      let ready : state_of b.n_size (b.load + length ps) ≡ dispatch =
        state_of-dispatch b.n_size (b.load + length ps) (omega (arith, h.normal, over)) in
      let below : b.r_write < b.bound = write_inside b xs h in
      elim (Bool-cases (leb b.bound (b.r_write + length ps))) [
        | inl round ↦
            let delta : ℕ = b.bound - b.r_write in
            let past : b.bound ≤ b.r_write + length ps = leb→le _ _ round in
            let (region, copies, c) =
              copy_in-CopiedIn b.r_write (take delta ps) b.remainder
                (omega (arith, length-take delta ps, below, past, h.sized)) in
            let (region', copies', d) =
              copy_in-CopiedIn 0 (drop delta ps) region
                (omega (arith, length-drop delta ps, c.same_length, h.sized, short)) in
            (
              (supplied (length ps) region' (length ps - delta) b).1,
              rw (ahead_passes b.r_write b.r_read (length ps) ahead, round, copies, copies')
                  (ap (λ st. some (st, (supplied (length ps) region' (length ps - delta) b).1))
                    ready),
              over,
            )
        | inr straight ↦
            let lt : b.r_write + length ps < b.bound = ground (arith, straight) in
            let (region, copies, c) =
              copy_in-CopiedIn b.r_write ps b.remainder (omega (arith, h.sized, lt)) in
            (
              (supplied (length ps) region (b.r_write + length ps) b).1,
              rw (ahead_passes b.r_write b.r_read (length ps) ahead, straight, copies)
                  (ap (λ st. some (st, (supplied (length ps) region (b.r_write + length ps) b).1))
                    ready),
              over,
            )
      ]
