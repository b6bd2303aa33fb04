-- ===== src/Routine/Sound/Pairs.antt =====
-- A loop that copies two samples a round, as both loops of framework/routine/sound.cpp do.
use strange_io.Common.{
  ℕ, ◌+◌, ◌≤◌, ◌<◌, ◌≡◌, ◌≢◌, ◌⊎◌, inl, inr, sym, ◌∙◌, List, arith, get_or, set, length, length-set,
  get_or-set_self, get_or-set_ne,
}

module _ {A : Type 0} where
  -- The output after two writes.
  abbrev pub put_two : ℕ → A → ℕ → A → List A → List A
  put_two i x j y out = set (set out i x) j y

  module _ (d : A) (ra rb wa wb : ℕ → ℕ) (n m : ℕ) where
    -- Reads and writes are in range, and no two writes go to one place.
    pub record Apart (size : ℕ) : Type 0 where
      pub read_a : (i : ℕ) → i < n → ra i < size
      pub read_b : (i : ℕ) → i < n → rb i < size
      pub write_a : (i : ℕ) → i < n → wa i < m
      pub write_b : (i : ℕ) → i < n → wb i < m
      pub apart_a : (i j : ℕ) → i < j → wa i ≢ wa j
      pub apart_b : (i j : ℕ) → i < j → wb i ≢ wb j
      pub apart_ab : (i j : ℕ) → i < n → j < n → wa i ≢ wb j

    -- What the loop has made from round `s` on, and what it has left alone.
    abbrev pub Copied : ℕ → List A → List A → List A → Type 0
    Copied s inp out res =
        (length res ≡ m)
        × ((i : ℕ)
            → i < n
            → (i < s
                → (get_or res (wa i) d ≡ get_or out (wa i) d)
                  × (get_or res (wb i) d ≡ get_or out (wb i) d))
              × (s ≤ i
                  → (get_or res (wa i) d ≡ get_or inp (ra i) d)
                    × (get_or res (wb i) d ≡ get_or inp (rb i) d)))

    -- One round before the rest.
    pub Copied-step :
        (s : ℕ) (inp out res : List A)
        → Apart (length inp)
        → s < n
        → length out ≡ m
        → Copied
            (s + 1)
            inp
            (put_two (wa s) (get_or inp (ra s) d) (wb s) (get_or inp (rb s) d) out)
            res
        → Copied s inp out res
    Copied-step s inp out res ok lt fits (size, after) = (
      size,
      λ i i<n. (
        (λ before.
            let (a, b) = (after i i<n).0 (omega arith) in
            (
              a ∙ kept (wa i) _ _ (ok.apart_a i s before) (λ e. ok.apart_ab i s i<n lt e),
              b ∙ kept (wb i) _ _ (λ e. ok.apart_ab s i lt i<n (sym e)) (ok.apart_b i s before),
            )),
        (λ since. elim (cases s i since) [
          | inl e ↦ rw e here
          | inr later ↦ (after i i<n).1 (omega arith)
        ]),
      ),
    )
      where
        kept :
            (j : ℕ) (x y : A)
            → j ≢ wa s
            → j ≢ wb s
            → get_or (put_two (wa s) x (wb s) y out) j d ≡ get_or out j d
        kept j x y p q =
            get_or-set_ne (set out (wa s) x) (wb s) j y d (λ e. q (sym e))
            ∙ get_or-set_ne out (wa s) j x d (λ e. p (sym e))

        cases : (s i : ℕ) → s ≤ i → (i ≡ s) ⊎ (s < i)
        cases s i h = omega arith

        here :
            (get_or res (wa s) d ≡ get_or inp (ra s) d)
            × (get_or res (wb s) d ≡ get_or inp (rb s) d)
        here =
            let (a, b) = (after s lt).0 (omega arith) in
            (
              a
                  ∙ get_or-set_ne (set out (wa s) _) (wb s) (wa s) _ d
                      (λ e. ok.apart_ab s s lt lt (sym e))
                  ∙ get_or-set_self out (wa s) _ d (omega (arith, ok.write_a s lt, fits)),
              b
                  ∙ get_or-set_self (set out (wa s) _) (wb s) _ d (
                      omega (
                        arith,
                        ok.write_b s lt,
                        fits,
                        length-set out (wa s) (get_or inp (ra s) d),
                      )),
            )
