-- ===== src/Memory/Manager/Segments.antt =====
-- What the handles of a cache stand for: a row of segments, each free or in use.
use mathlib.Core.List.{append_assoc}
use strange_io.Common.{
  ℕ, zero, suc, ◌+◌, ◌-◌, ◌*◌, ◌≤◌, ◌≡◌, refl, ap, sym, ◌∙◌, Bool, true, false, List, [], ◌∷◌, ◌++◌,
  arith, length, length-append,
}
use strange_io.Memory.Manager.{Handle}

pub record Segment : Type 0 where
  pub used : Bool
  pub blocks : ℕ

abbrev pub free : ℕ → Segment
free n = record { used = false; blocks = n }

abbrev pub taken : ℕ → Segment
taken n = record { used = true; blocks = n }

pub mul_of_add : (t m n k : ℕ) → t ≡ m + n → t * k ≡ m * k + n * k
mul_of_add t m n k e = omega (arith, ap (λ u. u * k) e)

pub mul-split : (m n k : ℕ) → m ≤ n → n * k ≡ m * k + (n - m) * k
mul-split m n k h = mul_of_add n m (n - m) k (omega arith)

abbrev pub size : List Segment → ℕ
size [] = 0
size (s ∷ ss) = s.blocks + size ss

pub size-append : (ss ts : List Segment) → size (ss ++ ts) ≡ size ss + size ts
size-append [] ts = omega arith
size-append (s ∷ ss) ts = omega (arith, size-append ss ts)

module _ (block_size : ℕ) where
  -- `n` handles from address `a` on, their counts falling from `top`.
  abbrev pub stretch : ℕ → Bool → ℕ → ℕ → List Handle
  stretch a u top zero = []
  stretch a u top (suc n) =
      record { ptr = a; in_use = u; num_blocks = top } ∷ stretch (a + block_size) u (top - 1) n

  -- A segment's handles count down to 1.
  abbrev pub run : ℕ → Bool → ℕ → List Handle
  run a u n = stretch a u n n

  abbrev pub render : ℕ → List Segment → List Handle
  render a [] = []
  render a (s ∷ ss) = run a s.used s.blocks ++ render (a + s.blocks * block_size) ss

  pub length-stretch : (a : ℕ) (u : Bool) (top n : ℕ) → length (stretch a u top n) ≡ n
  length-stretch a u top zero = refl
  length-stretch a u top (suc n) = ap suc (length-stretch (a + block_size) u (top - 1) n)

  pub stretch_eq :
      (u : Bool) {a b top t m n : ℕ} → a ≡ b → top ≡ t → m ≡ n → stretch a u top m ≡ stretch b u t n
  stretch_eq u p q r = λ i. stretch (p i) u (q i) (r i)

  -- A stretch may be cut anywhere.
  pub stretch-add :
      (a : ℕ) (u : Bool) (top m n b : ℕ)
      → b ≡ a + m * block_size
      → stretch a u top (m + n) ≡ stretch a u top m ++ stretch b u (top - m) n
  stretch-add a u top zero n b e = stretch_eq u (omega arith) (omega arith) (omega arith)
  stretch-add a u top (suc m) n b e =
      stretch_eq u {m = suc m + n} {n = suc (m + n)} refl refl (omega arith)
      ∙ ap (◌∷◌ (record { ptr = a; in_use = u; num_blocks = top })) (
          stretch-add (a + block_size) u (top - 1) m n b (omega arith)
          ∙ ap (◌++◌ _) (stretch_eq u {t = top - suc m} refl (omega arith) refl))

  pub render-append :
      (a b : ℕ) (ss ts : List Segment)
      → b ≡ a + size ss * block_size
      → render a (ss ++ ts) ≡ render a ss ++ render b ts
  render-append a b [] ts e = ap (λ k. render k ts) (omega arith)
  render-append a b (s ∷ ss) ts e =
      ap (◌++◌ (run a s.used s.blocks))
        (render-append (a + s.blocks * block_size) b ss ts (grind (arith)))
      ∙ sym (append_assoc (run a s.used s.blocks) _ _)

  pub length-render : (a : ℕ) (ss : List Segment) → length (render a ss) ≡ size ss
  length-render a [] = refl
  length-render a (s ∷ ss) = omega (
    arith,
    length-append (run a s.used s.blocks) (render (a + s.blocks * block_size) ss),
    length-stretch a s.used s.blocks s.blocks,
    length-render (a + s.blocks * block_size) ss,
  )
