-- ===== src/Routine/Sound/Round.antt =====
-- The loops of framework/routine/sound.cpp, round by round.
use strange_io.Common.{
  ℕ, zero, suc, ◌+◌, ◌*◌, ◌%◌, ◌<◌, ◌≡◌, refl, ◌∙◌, some, List, arith, get_or, set, length, u32_mod,
  lt→ltb, length-set, get_elem?-eq-get_or,
}
use strange_io.Routine.Sound.{write, deinterleave_loop, interleave_loop}
use strange_io.Routine.Sound.Pairs.{put_two, Apart, Copied, Copied-step}

write-fits :
    {A : Type 0} (i : ℕ) (x : A) (out : List A)
    → i < length out
    → write i x out ≡ some (set out i x)
unfolding write
write-fits i x out h = rw (lt→ltb _ _ h)

module _ (n : ℕ) where
  no_wrap : (s : ℕ) → s < n → 2 * n < u32_mod → (2 * s + 1) % u32_mod ≡ 2 * s + 1
  no_wrap s lt small = omega arith

  next_wrap : (s : ℕ) → s < n → 2 * n < u32_mod → (2 * s + 1 + 1) % u32_mod ≡ 2 * (s + 1)
  next_wrap s lt small = omega arith

module _ {A : Type 0} (d : A) (n : ℕ) (inp : List A) where
  -- Frame `i` of two channels, one after the other, and of interleaved ones.
  abbrev pub even : ℕ → ℕ
  even i = 2 * i

  abbrev pub odd : ℕ → ℕ
  odd i = 2 * i + 1

  abbrev pub left_at : ℕ → ℕ
  left_at i = i

  abbrev pub right_at : ℕ → ℕ
  right_at i = n + i

  deinterleave-round :
      (left s b : ℕ) (out : List A)
      → b ≡ 2 * s
      → s < n
      → length inp ≡ 2 * n
      → length out ≡ 2 * n
      → 2 * n < u32_mod
      → deinterleave_loop inp n (suc left) s b out
        ≡ deinterleave_loop inp n left
            (s + 1)
            (2 * (s + 1))
            (put_two s (get_or inp (even s) d) (n + s) (get_or inp (odd s) d) out)
  unfolding deinterleave_loop
  deinterleave-round left s b out at lt li lo small = rw (
    at,
    get_elem?-eq-get_or inp (2 * s) d (omega arith),
    write-fits s (get_or inp (2 * s) d) out (omega arith),
    no_wrap n s lt small,
    get_elem?-eq-get_or inp (2 * s + 1) d (omega arith),
    write-fits (n + s) (get_or inp (2 * s + 1) d) (set out s (get_or inp (2 * s) d))
        (omega (arith, length-set out s (get_or inp (2 * s) d))),
    next_wrap n s lt small,
  )

  interleave-round :
      (left s b : ℕ) (out : List A)
      → b ≡ 2 * s
      → s < n
      → length inp ≡ 2 * n
      → length out ≡ 2 * n
      → 2 * n < u32_mod
      → interleave_loop inp n (suc left) s b out
        ≡ interleave_loop inp n left
            (s + 1)
            (2 * (s + 1))
            (put_two (even s) (get_or inp s d) (odd s) (get_or inp (n + s) d) out)
  unfolding interleave_loop
  interleave-round left s b out at lt li lo small = rw (
    at,
    get_elem?-eq-get_or inp s d (omega arith),
    write-fits (2 * s) (get_or inp s d) out (omega arith),
    no_wrap n s lt small,
    get_elem?-eq-get_or inp (n + s) d (omega arith),
    write-fits (2 * s + 1) (get_or inp (n + s) d) (set out (2 * s) (get_or inp s d))
        (omega (arith, length-set out (2 * s) (get_or inp s d))),
    next_wrap n s lt small,
  )

  deinterleave-Apart : length inp ≡ 2 * n → Apart d even odd left_at right_at n (2 * n) (length inp)
  deinterleave-Apart li = record {
    read_a = λ i h. omega arith;
    read_b = λ i h. omega arith;
    write_a = λ i h. omega arith;
    write_b = λ i h. omega arith;
    apart_a = λ i j h e. omega arith;
    apart_b = λ i j h e. omega arith;
    apart_ab = λ i j h k e. omega arith;
  }

  interleave-Apart : length inp ≡ 2 * n → Apart d left_at right_at even odd n (2 * n) (length inp)
  interleave-Apart li = record {
    read_a = λ i h. omega arith;
    read_b = λ i h. omega arith;
    write_a = λ i h. omega arith;
    write_b = λ i h. omega arith;
    apart_a = λ i j h e. omega arith;
    apart_b = λ i j h e. omega arith;
    apart_ab = λ i j h k e. omega arith;
  }

  length-put_two : (i j : ℕ) (x y : A) (out : List A) → length (put_two i x j y out) ≡ length out
  length-put_two i j x y out = length-set (set out i x) j y ∙ length-set out i x

  pub deinterleave_loop-Copied :
      (left s b : ℕ) (out : List A)
      → b ≡ 2 * s
      → s + left ≡ n
      → length inp ≡ 2 * n
      → length out ≡ 2 * n
      → 2 * n < u32_mod
      → (res : List A) × (deinterleave_loop inp n left s b out ≡ some res)
        × Copied d even odd left_at right_at n (2 * n) s inp out res
  unfolding deinterleave_loop
  deinterleave_loop-Copied zero s b out at sum li lo small =
      (out, refl, (lo, λ i h. ((λ before. (refl, refl)), λ since. absurd (omega arith))))
  deinterleave_loop-Copied (suc left) s b out at sum li lo small =
      let next = put_two s (get_or inp (even s) d) (n + s) (get_or inp (odd s) d) out in
      let (res, run, copied) =
        deinterleave_loop-Copied left (s + 1) (2 * (s + 1)) next refl (omega arith) li
          (length-put_two _ _ _ _ out ∙ lo) small in
      (
        res,
        deinterleave-round left s b out at (omega arith) li lo small ∙ run,
        Copied-step d even odd left_at right_at n (2 * n) s inp out res (deinterleave-Apart li)
            (omega arith) lo copied,
      )

  pub interleave_loop-Copied :
      (left s b : ℕ) (out : List A)
      → b ≡ 2 * s
      → s + left ≡ n
      → length inp ≡ 2 * n
      → length out ≡ 2 * n
      → 2 * n < u32_mod
      → (res : List A) × (interleave_loop inp n left s b out ≡ some res)
        × Copied d left_at right_at even odd n (2 * n) s inp out res
  unfolding interleave_loop
  interleave_loop-Copied zero s b out at sum li lo small =
      (out, refl, (lo, λ i h. ((λ before. (refl, refl)), λ since. absurd (omega arith))))
  interleave_loop-Copied (suc left) s b out at sum li lo small =
      let next = put_two (even s) (get_or inp s d) (odd s) (get_or inp (n + s) d) out in
      let (res, run, copied) =
        interleave_loop-Copied left (s + 1) (2 * (s + 1)) next refl (omega arith) li
          (length-put_two _ _ _ _ out ∙ lo) small in
      (
        res,
        interleave-round left s b out at (omega arith) li lo small ∙ run,
        Copied-step d left_at right_at even odd n (2 * n) s inp out res (interleave-Apart li)
            (omega arith) lo copied,
      )
