-- ===== src/Memory/Manager/Free/Merge.antt =====
-- `free_raw` on a row of segments: the segment freed and the free segments on its two sides.
use mathlib.Core.List.{append_assoc}
use strange_io.Common.{
  ℕ, zero, suc, ◌+◌, ◌-◌, ◌*◌, ◌<◌, ◌≡◌, refl, ap, sym, ◌∙◌, ◌⊎◌, true, false, some, List, [], ◌∷◌,
  ◌++◌, arith, if◌then◌else◌, length, length-append, get_elem?, inl, inr,
}
use strange_io.Memory.Manager.{Handle, free_blocks, relink, free_at}
use strange_io.Memory.Manager.Segments.{stretch, run, stretch_eq, stretch-add, length-stretch}
use strange_io.Memory.Manager.Free.{
  get_elem?-at, free_blocks-stretch, relink-step, relink-stop, relink-stretch, relink_eq,
}

-- Nothing stands above, or a handle in use does.
abbrev pub Stops : List Handle → Type 0
Stops above =
    (above ≡ []) ⊎ ((zs : List Handle) × (h : Handle) × (above ≡ zs ++ h ∷ []) × (h.in_use ≡ true))

-- Free blocks follow, or a handle in use does.
abbrev pub Follows : ℕ → List Handle → Type 0
Follows r below =
    (0 < r) ⊎ ((h : Handle) × (zs : List Handle) × (below ≡ h ∷ zs) × (h.in_use ≡ true))

relink-Stops :
    (i link : ℕ) (above ys : List Handle)
    → i ≡ length above
    → Stops above
    → relink i link (above ++ ys) ≡ some (above ++ ys)
unfolding relink
relink-Stops i link above ys e (inl empty) =
    relink_eq {j = 0} {l = link} (omega (arith, ap length empty)) refl refl
relink-Stops i link above ys e (inr (zs, h, end, busy)) =
    relink_eq {j = suc (length zs)} (omega (arith, ap length end, length-append zs (h ∷ []))) refl
      spread
    ∙ relink-stop (length zs) link zs h ys refl busy
    ∙ ap some (sym spread)
  where
    spread : above ++ ys ≡ zs ++ h ∷ ys
    spread = ap (λ k. k ++ ys) end ∙ append_assoc zs (h ∷ []) ys

-- A call of `free_at` from its four steps.
free_at-steps :
    (index link : ℕ) (hs : List Handle) (h after : Handle) (freed linked : List Handle)
    → get_elem? hs index ≡ some h
    → get_elem? hs (index + h.num_blocks) ≡ some after
    → (if after.in_use then h.num_blocks else h.num_blocks + after.num_blocks) ≡ link
    → free_blocks h.num_blocks index link hs ≡ some freed
    → relink (suc index) link freed ≡ some linked
    → free_at index hs ≡ some (h.num_blocks, linked)
unfolding free_at
free_at-steps index link hs h after freed linked here behind link_is frees links =
    rw here (rw behind (rw link_is (rw frees (rw links))))

module _ (block_size : ℕ) where
  -- Two stretches of free blocks that count on are one.
  stretch-join :
      (a b top m n k : ℕ) (zs : List Handle)
      → b ≡ a + m * block_size
      → k ≡ m + n
      → stretch block_size a false top m ++ (stretch block_size b false (top - m) n ++ zs)
        ≡ stretch block_size a false top k ++ zs
  stretch-join a b top m n k zs e ek =
      sym (append_assoc (stretch block_size a false top m) _ zs)
      ∙ ap (λ hs. hs ++ zs)
          (sym (stretch-add block_size a false top m n b e)
            ∙ stretch_eq block_size false {m = m + n} {n = k} refl refl (sym ek))

  -- What `free_raw` reads behind the blocks that it frees.
  link_after :
      (n r a : ℕ) (zs below : List Handle) (i : ℕ)
      → i ≡ length zs
      → Follows r below
      → (h : Handle) × (get_elem? (zs ++ (run block_size a false r ++ below)) i ≡ some h)
        × ((if h.in_use then n else n + h.num_blocks) ≡ n + r)
  link_after n zero a zs below i e (inl more) = elim more [ ]
  link_after n zero a zs below i e (inr (h, tail, here, busy)) =
      (h, rw here (get_elem?-at zs h tail i e), ground arith)
  link_after n (suc r) a zs below i e f = (_, get_elem?-at zs _ _ i e, refl)

  -- The free blocks above (l), those in use (n) and the free blocks below (r) become one run.
  pub free_at-merge :
      (l n r a b c p : ℕ) (above below : List Handle)
      → p ≡ length above
      → 0 < n
      → Stops above
      → Follows r below
      → b ≡ a + l * block_size
      → c ≡ b + n * block_size
      → free_at (p + l) (
          above
          ++ (run block_size a false l
              ++ (run block_size b true n ++ (run block_size c false r ++ below))))
        ≡ some (n, above ++ (run block_size a false (l + (n + r)) ++ below))
  unfolding free_at
  free_at-merge l zero r a b c p above below ep pos st fo eb ec = elim pos [ ]
  free_at-merge l (suc n) r a b c p above below ep pos st fo eb ec =
      ap (free_at (p + l)) (sym (append_assoc above upper _))
      ∙ free_at-steps (p + l) (suc n + r) (before ++ (own ++ tail)) _ behind.0
          (before ++ (stretch block_size b false (suc n + r) (suc n) ++ tail)) _
          (get_elem?-at before _ _ (p + l) place)
          (ap (λ hs. get_elem? hs (p + l + suc n)) (sym (append_assoc before own tail)) ∙ behind.1)
          behind.2
          (free_blocks-stretch block_size (suc n) (p + l) (suc n + r) b true (suc n) before tail
            place)
          linking
    where
      upper : List Handle
      upper = run block_size a false l

      own : List Handle
      own = run block_size b true (suc n)

      tail : List Handle
      tail = run block_size c false r ++ below

      before : List Handle
      before = above ++ upper

      place : p + l ≡ length before
      place = omega (arith, length-append above upper, length-stretch block_size a false l l)

      behind :
          (h : Handle) × (get_elem? ((before ++ own) ++ tail) (p + l + suc n) ≡ some h)
          × ((if h.in_use then suc n else suc n + h.num_blocks) ≡ suc n + r)
      behind =
          link_after (suc n) r c (before ++ own) below (p + l + suc n)
            (omega (
              arith,
              place,
              length-append before own,
              length-stretch block_size b true (suc n) (suc n),
            ))
            fo

      freed : List Handle
      freed = stretch block_size b false (suc n + r) (suc n) ++ tail

      merged :
          stretch block_size a false (suc n + r + 1 + l - 1) l ++ freed
          ≡ run block_size a false (l + (suc n + r)) ++ below
      merged =
          ap (◌++◌ (stretch block_size a false (suc n + r + 1 + l - 1) l)) (
            ap (λ t. stretch block_size b false (suc n + r) (suc n) ++ (t ++ below))
              (stretch_eq block_size false {t = suc n + r - suc n} refl (omega arith) refl)
            ∙ stretch-join b c (suc n + r) (suc n) r (suc n + r) below ec refl)
          ∙ ap (λ t. stretch block_size a false (suc n + r + 1 + l - 1) l ++ (t ++ below))
              (stretch_eq block_size false {t = suc n + r + 1 + l - 1 - l} refl (omega arith) refl)
          ∙ stretch-join a b (suc n + r + 1 + l - 1) l (suc n + r) (l + (suc n + r)) below eb refl
          ∙ ap (λ t. t ++ below) (stretch_eq block_size false refl (omega arith) refl)

      linking :
          relink (suc (p + l)) (suc n + r) (before ++ freed)
          ≡ some (above ++ (run block_size a false (l + (suc n + r)) ++ below))
      linking =
          relink-step (p + l) (suc n + r) before _ _ place refl
          ∙ relink_eq refl refl (append_assoc above upper freed)
          ∙ relink-stretch block_size l (suc n + r + 1) p a l above freed ep
          ∙ relink-Stops p (suc n + r + 1 + l) above _ ep st
          ∙ ap (λ hs. some (above ++ hs)) merged
