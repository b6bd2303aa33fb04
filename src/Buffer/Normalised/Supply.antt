-- ===== src/Buffer/Normalised/Supply.antt =====
-- `supply` of `NormalisedSizeBuffer` (framework/staging/buffer/NormalisedSizeBuffer.cpp).
use strange_io.Common.{
  CopiedIn, copy_in-CopiedIn, copy_in, ℕ, ◌+◌, ◌-◌, ◌<◌, ◌≤◌, ◌≡◌, refl, ap, ◌∙◌, inl, inr, false,
  ◌&&◌, some, List, ◌++◌, arith, length, get_elem?, take, drop, ltb, leb, leb→le, Bool-cases,
  length-append, length-take, length-drop, get_elem?-append, get_elem?-take, get_elem?-drop,
}
use strange_io.Buffer.Normalised.{Normalised, state_of, supplied, supply}
use strange_io.Buffer.Normalised.Holds.{wrap, Holds}

module _ {A : Type 0} where
  -- The new samples stand behind those held.
  Follows : Normalised A → List A → List A → Type 0
  Follows b ps region =
      (length region ≡ b.bound)
      × ((i : ℕ)
          → i < b.load
          → get_elem? region (wrap b.bound (b.r_read + i))
            ≡ get_elem? b.remainder (wrap b.bound (b.r_read + i)))
      × ((i : ℕ)
          → i < length ps
          → get_elem? region (wrap b.bound (b.r_read + (b.load + i))) ≡ get_elem? ps i)

  supplied-Holds :
      (b : Normalised A) (xs ps region : List A) (to : ℕ)
      → Holds b xs
      → b.load + length ps ≤ b.bound
      → to ≡ wrap b.bound (b.r_read + (b.load + length ps))
      → Follows b ps region
      → Holds (supplied (length ps) region to b).1 (xs ++ ps)
  unfolding supplied Follows
  supplied-Holds b xs ps region to h room goes (long, old, new) = record {
    sized = long;
    normal = h.normal;
    asked = h.asked;
    inside = h.inside;
    ends = goes;
    counted = omega (arith, h.counted, length-append xs ps);
    fits = room;
    told = refl;
    at = λ i lt.
        ground (arith, lt, h.counted, get_elem?-append xs ps i, old i, h.at i, new (i - b.load));
  }

  -- Without going round.
  supply-straight :
      (b : Normalised A) (xs ps : List A)
      → Holds b xs
      → b.load + length ps ≤ b.bound
      → b.r_write + length ps < b.bound
      → (region : List A) × (copy_in b.r_write ps b.remainder ≡ some region) × Follows b ps region
  unfolding Follows
  supply-straight b xs ps h room lt =
      let (region, copies, c) =
        copy_in-CopiedIn b.r_write ps b.remainder (omega (arith, h.sized, lt)) in
      (
        region,
        copies,
        (
          c.same_length ∙ h.sized,
          λ i below.
              ground (arith, h.ends, h.inside, below, room, lt, c.at (wrap b.bound (b.r_read + i))),
          λ i below. ground (
            arith,
            h.ends,
            h.inside,
            below,
            room,
            lt,
            c.at (wrap b.bound (b.r_read + (b.load + i))),
          ),
        ),
      )

  -- The samples that go round: what `supply` writes at the end, and at the beginning.
  RoundSplit : Normalised A → List A → List A → List A → Type 0
  RoundSplit b ps region region' =
      CopiedIn b.r_write (take (b.bound - b.r_write) ps) b.remainder region
      × CopiedIn 0 (drop (b.bound - b.r_write) ps) region region'

  RoundSplit-Follows :
      (b : Normalised A) (xs ps region region' : List A)
      → Holds b xs
      → b.load + length ps ≤ b.bound
      → b.bound ≤ b.r_write + length ps
      → RoundSplit b ps region region'
      → Follows b ps region'
  unfolding Follows RoundSplit
  RoundSplit-Follows b xs ps region region' h room past (c, d) =
      let delta : ℕ = b.bound - b.r_write in
      let first : length (take delta ps) ≡ delta =
        omega (arith, length-take delta ps, h.ends, h.inside, room, past) in
      let second : length (drop delta ps) ≡ length ps - delta = length-drop delta ps in
      (
        d.same_length ∙ (c.same_length ∙ h.sized),
        λ i below. ground (
          arith,
          h.ends,
          h.inside,
          below,
          room,
          past,
          first,
          second,
          c.at (wrap b.bound (b.r_read + i)),
          d.at (wrap b.bound (b.r_read + i)),
        ),
        λ i below. ground (
          arith,
          h.ends,
          h.inside,
          below,
          room,
          past,
          first,
          second,
          c.at (wrap b.bound (b.r_read + (b.load + i))),
          d.at (wrap b.bound (b.r_read + (b.load + i))),
          get_elem?-take delta ps i,
          get_elem?-drop delta ps (i - delta),
        ),
      )

  pub write_inside : (b : Normalised A) (xs : List A) → Holds b xs → b.r_write < b.bound
  write_inside b xs h = ground (arith, h.ends, h.inside, h.fits)

  no_overrun :
      (b : Normalised A) (xs : List A) (n : ℕ)
      → Holds b xs
      → b.load + n ≤ b.bound
      → (ltb b.r_write b.r_read && ltb b.r_read (b.r_write + n)) ≡ false
  no_overrun b xs n h room = ground (arith, h.ends, h.inside, room)

  -- Where there is room for a period it is held behind what was held before, by a copy that stays
  -- inside the buffer, and the answer tells whether a period of the normal size can be taken out.
  pub supply-Holds :
      (b : Normalised A) (xs ps : List A)
      → Holds b xs
      → b.load + length ps ≤ b.bound
      → (b' : Normalised A) × (supply ps b ≡ some (state_of b.n_size (length (xs ++ ps)), b'))
        × Holds b' (xs ++ ps)
        × (b'.n_size ≡ b.n_size)
        × (b'.bound ≡ b.bound)
  unfolding supply supplied RoundSplit
  supply-Holds b xs ps h room =
      let counted : b.load + length ps ≡ length (xs ++ ps) =
        omega (arith, h.counted, length-append xs ps) in
      elim (Bool-cases (leb b.bound (b.r_write + length ps))) [
        | inl round ↦
            let delta : ℕ = b.bound - b.r_write in
            let below : b.r_write < b.bound = write_inside b xs h in
            let past : b.bound ≤ b.r_write + length ps = leb→le _ _ round in
            let (region, copies, c) =
              copy_in-CopiedIn b.r_write (take delta ps) b.remainder
                (omega (arith, length-take delta ps, below, past, h.sized)) in
            let (region', copies', d) =
              copy_in-CopiedIn 0 (drop delta ps) region
                (omega (arith, length-drop delta ps, c.same_length, h.sized, room)) in
            (
              (supplied (length ps) region' (length ps - delta) b).1,
              rw (no_overrun b xs (length ps) h room, round, copies, copies')
                  (ap
                    (λ n.
                      some (
                        state_of b.n_size n,
                        (supplied (length ps) region' (length ps - delta) b).1,
                      ))
                    counted),
              supplied-Holds b xs ps region' (length ps - delta) h room
                  (ground (arith, h.ends, h.inside, h.fits, past, room))
                  (RoundSplit-Follows b xs ps region region' h room past (c, d)),
              refl,
              refl,
            )
        | inr straight ↦
            let lt : b.r_write + length ps < b.bound = ground (arith, straight) in
            let (region, copies, follows) = supply-straight b xs ps h room lt in
            (
              (supplied (length ps) region (b.r_write + length ps) b).1,
              rw (no_overrun b xs (length ps) h room, straight, copies)
                  (ap
                    (λ n. some (
                      state_of b.n_size n,
                      (supplied (length ps) region (b.r_write + length ps) b).1,
                    ))
                    counted),
              supplied-Holds b xs ps region (b.r_write + length ps) h room
                  (ground (arith, h.ends, h.inside, h.fits, lt, room)) follows,
              refl,
              refl,
            )
      ]
