-- ===== src/Thread/Worker/Repeats.antt =====
-- What a `worker` (framework/threads/worker.cpp) has run, against what it was given.
use strange_io.Common.{
  ◌≡◌, refl, sym, ap, ◌∙◌, subst, Bool, true, false, Option, none, some, List, [], ◌∷◌, ◌++◌,
  some_inj,
}

module _ {P : Type 0} where
  -- `Repeats given ran`: all of `given` has been run, in order, each package once, or several times
  -- before the next one.
  pub data Repeats : List P → List P → Type 0 where
    nothing : Repeats [] []
    once :
        (p : P) (given ran : List P) → Repeats given ran → Repeats (given ++ p ∷ []) (ran ++ p ∷ [])
    again :
        (p : P) (given ran : List P)
        → Repeats (given ++ p ∷ []) ran
        → Repeats (given ++ p ∷ []) (ran ++ p ∷ [])

  -- Of `m_loaded`, what was given and run, and `m_current`, which is the package given last.
  pub data Runs (loaded : Bool) (given ran : List P) (current : Option P) : Type 0 where
    all_run :
        loaded ≡ false
        → Repeats given ran
        → ((p : P) → current ≡ some p → (g : List P) × (given ≡ g ++ p ∷ []))
        → Runs loaded given ran current
    last_left :
        (g : List P) (p : P)
        → loaded ≡ true
        → given ≡ g ++ p ∷ []
        → Repeats g ran
        → ((q : P) → current ≡ some q → q ≡ p)
        → Runs loaded given ran current

  pub assign-Runs :
      (loaded : Bool) (given ran : List P) (current : Option P) (task : P)
      → loaded ≡ false
      → Runs loaded given ran current
      → Runs true (given ++ task ∷ []) ran (some task)
  assign-Runs loaded given ran current task l (all_run m r c) =
      last_left given task refl refl r (λ q e. sym (some_inj e))
  assign-Runs loaded given ran current task l (last_left g p m e r c) = cc

  -- The package at hand is run, for the first time or again.
  pub run-Runs :
      (loaded : Bool) (given ran : List P) (task : P)
      → Runs loaded given ran (some task)
      → Runs false given (ran ++ task ∷ []) (some task)
  run-Runs loaded given ran task (all_run l r c) =
      let (g, e) = c task refl in
      all_run refl
        (subst (λ xs. Repeats xs (ran ++ task ∷ [])) (sym e)
          (again task g ran (subst (λ xs. Repeats xs ran) e r)))
        c
  run-Runs loaded given ran task (last_left g p l e r c) =
      let e' : given ≡ g ++ task ∷ [] = e ∙ ap (λ q. g ++ q ∷ []) (sym (c task refl)) in
      all_run refl (subst (λ xs. Repeats xs (ran ++ task ∷ [])) (sym e') (once task g ran r))
        (λ q h. (g, e' ∙ ap (λ x. g ++ x ∷ []) (some_inj h)))

  pub reset-Runs :
      (loaded : Bool) (given ran : List P) (current : Option P)
      → Runs loaded given ran current
      → Runs loaded given ran none
  reset-Runs loaded given ran current (all_run l r c) = all_run l r (λ q h. cc)
  reset-Runs loaded given ran current (last_left g p l e r c) = last_left g p l e r (λ q h. cc)
