-- ===== src/Memory/Manager/Free.antt =====
-- `free_raw` on handles: the loops that free the blocks and link them to the free blocks around.
pub mod Merge
pub mod Segment
use mathlib.Core.List.{append_assoc, append-nil}
use strange_io.Common.{
  ℕ, zero, suc, ◌+◌, ◌-◌, ◌*◌, ◌≤◌, ◌<◌, ◌≡◌, refl, ap, sym, ◌∙◌, ◌≢◌, ◌⊎◌, Bool, true, false,
  Option, none, some, List, [], ◌∷◌, ◌++◌, arith, if◌then◌else◌, length, length-append, get_elem?,
  set, inl, inr,
}
use strange_io.Memory.Manager.{Handle, free_blocks, relink, free_at}
use strange_io.Memory.Manager.Segments.{stretch, run, stretch_eq, stretch-add, length-stretch}

pub get_elem?-at {ℓ} :
    {A : Type ℓ} (xs : List A) (y : A) (ys : List A) (i : ℕ)
    → i ≡ length xs
    → get_elem? (xs ++ y ∷ ys) i ≡ some y
get_elem?-at [] y ys i e = rw e
get_elem?-at (x ∷ xs) y ys i e = rw e (get_elem?-at xs y ys (length xs) refl)

pub set-at {ℓ} :
    {A : Type ℓ} (xs : List A) (y v : A) (ys : List A) (i : ℕ)
    → i ≡ length xs
    → set (xs ++ y ∷ ys) i v ≡ xs ++ v ∷ ys
set-at [] y v ys i e = rw e
set-at (x ∷ xs) y v ys i e = rw e (ap (◌∷◌ x) (set-at xs y v ys (length xs) refl))

pub relink_eq :
    {i j l m : ℕ} {zs ws : List Handle} → i ≡ j → l ≡ m → zs ≡ ws → relink i l zs ≡ relink j m ws
relink_eq p q r = λ t. relink (p t) (q t) (r t)

-- One more free handle is linked in.
pub relink-step :
    (i link : ℕ) (zs : List Handle) (h : Handle) (ys : List Handle)
    → i ≡ length zs
    → h.in_use ≡ false
    → relink (suc i) link (zs ++ h ∷ ys)
      ≡ relink i (link + 1) (zs ++ record h { num_blocks = link } ∷ ys)
unfolding relink
relink-step i link zs h ys e is_free =
    rw (get_elem?-at zs h ys i e, set-at zs h (record h { num_blocks = link }) ys i e) (rw is_free)

-- A handle in use ends the linking.
pub relink-stop :
    (i link : ℕ) (zs : List Handle) (h : Handle) (ys : List Handle)
    → i ≡ length zs
    → h.in_use ≡ true
    → relink (suc i) link (zs ++ h ∷ ys) ≡ some (zs ++ h ∷ ys)
unfolding relink
relink-stop i link zs h ys e busy = rw (get_elem?-at zs h ys i e) (rw busy)

module _ (block_size : ℕ) where
  pub free_blocks-stretch :
      (n i link a : ℕ) (u : Bool) (top : ℕ) (xs ys : List Handle)
      → i ≡ length xs
      → free_blocks n i link (xs ++ (stretch block_size a u top n ++ ys))
        ≡ some (xs ++ (stretch block_size a false link n ++ ys))
  unfolding free_blocks
  free_blocks-stretch zero i link a u top xs ys e = refl
  free_blocks-stretch (suc n) i link a u top xs ys e =
      rw
        (
          get_elem?-at xs head rest i e,
          set-at xs head head' rest i e,
          ← append_assoc xs (head' ∷ []) rest,
        )
        (free_blocks-stretch n (i + 1) (link - 1) (a + block_size) u (top - 1) (xs ++ head' ∷ []) ys
            (omega (arith, length-append xs (head' ∷ [])))
          ∙ ap some (append_assoc xs (head' ∷ []) _))
    where
      head : Handle
      head = record { ptr = a; in_use = u; num_blocks = top }

      head' : Handle
      head' = record { ptr = a; in_use = false; num_blocks = link }

      rest : List Handle
      rest = stretch block_size (a + block_size) u (top - 1) n ++ ys

  last_of : ℕ → ℕ → ℕ → Handle
  last_of a k count = record { ptr = a + k * block_size; in_use = false; num_blocks = count }

  stretch-snoc :
      (a top k count : ℕ) (ys : List Handle)
      → count ≡ top - k
      → stretch block_size a false top (suc k) ++ ys
        ≡ stretch block_size a false top k ++ last_of a k count ∷ ys
  unfolding last_of
  stretch-snoc a top k count ys e =
      ap (λ hs. hs ++ ys)
        (stretch_eq block_size false {m = suc k} {n = k + 1} refl refl (omega arith)
          ∙ stretch-add block_size a false top k 1 (a + k * block_size) refl)
      ∙ append_assoc (stretch block_size a false top k) _ ys
      ∙ ap (λ c. stretch block_size a false top k ++ last_of a k c ∷ ys) (sym e)

  -- Linking goes up through a free stretch.
  pub relink-stretch :
      (k link i a top : ℕ) (xs ys : List Handle)
      → i ≡ length xs
      → relink (i + k) link (xs ++ (stretch block_size a false top k ++ ys))
        ≡ relink i (link + k) (xs ++ (stretch block_size a false (link + k - 1) k ++ ys))
  relink-stretch zero link i a top xs ys e = relink_eq (omega arith) (omega arith) refl
  relink-stretch (suc k) link i a top xs ys e =
      relink_eq {j = suc (i + k)} (omega arith) refl
        (ap (◌++◌ xs) (stretch-snoc a top k (top - k) ys refl) ∙ sym (append_assoc xs upper _))
      ∙ relink-step (i + k) link (xs ++ upper) (last_of a k (top - k)) ys
          (omega (arith, length-append xs upper, length-stretch block_size a false top k, e))
          (unfold last_of in refl)
      ∙ relink_eq refl refl (append_assoc xs upper _ ∙ ap (λ h. xs ++ (upper ++ h ∷ ys)) relinked)
      ∙ relink-stretch k (link + 1) i a top xs (last_of a k link ∷ ys) e
      ∙ relink_eq {m = link + suc k} refl (omega arith) (
          ap (◌++◌ xs) (
            ap (λ zs. zs ++ last_of a k link ∷ ys)
              (stretch_eq block_size false {t = link + suc k - 1} refl (omega arith) refl)
            ∙ sym (stretch-snoc a (link + suc k - 1) k link ys (omega arith))))
    where
      upper : List Handle
      upper = stretch block_size a false top k

      relinked :
          ◌≡◌ {A = Handle} (record (last_of a k (top - k)) { num_blocks = link }) (last_of a k link)
      relinked = unfold last_of in refl
