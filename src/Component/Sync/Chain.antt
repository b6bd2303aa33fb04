-- ===== src/Component/Sync/Chain.antt =====
-- A line that does not split, and the profiles that its units keep of a global sync
-- (framework/component/unit.cpp).
use strange_io.Common.{
  ℕ, zero, suc, ◌≡◌, refl, ap, ◌∙◌, Bool, true, false, Option, some, List, [], ◌∷◌, map, get_elem?,
  set, if◌then◌else◌,
}
use strange_io.Component.Linkable.{LinkOut}
use strange_io.Component.Profile.{
  UnitType, mainline, combine, dispatch, step, split, Flags, SyncProfile,
}
use strange_io.Component.Unit.{Node, World, put_node}
use strange_io.Component.Sync.{SyncCall, continue_sync, keep_global}
use strange_io.Component.Sync.Shape.{Shape, shapes}

-- No output is connected.
abbrev pub NoLink : List LinkOut → Type 0
NoLink [] = Unit {0}
NoLink (o ∷ os) = (o.connected ≡ false) × NoLink os

-- One output is connected, and it leads to the unit `target`; or none is.
pub data OneLink (target input : ℕ) : List LinkOut → Type 0 where
  here :
      (o : LinkOut) (os : List LinkOut)
      → o.connected ≡ true
      → o.to ≡ some (target, input)
      → NoLink os
      → OneLink target input (o ∷ os)
  later :
      (o : LinkOut) (os : List LinkOut)
      → o.connected ≡ false
      → OneLink target input os
      → OneLink target input (o ∷ os)

-- The classes that pass a global sync on by `unit::sync_line` alone.
abbrev pub IsPlain : UnitType → Type 0
IsPlain mainline = Unit {0}
IsPlain step = Unit {0}
IsPlain split = Unit {0}
IsPlain combine = ⊥
IsPlain dispatch = ⊥

-- The units from `u` on to the end of a line that does not split.
pub data Chain (v : List Shape) : ℕ → List ℕ → Type 0 where
  last :
      (u : ℕ) (t : Shape)
      → get_elem? v u ≡ some t
      → IsPlain t.utype
      → NoLink t.outputs
      → Chain v u (u ∷ [])
  next :
      (u : ℕ) (t : Shape) (target input : ℕ) (us : List ℕ)
      → get_elem? v u ≡ some t
      → IsPlain t.utype
      → OneLink target input t.outputs
      → Chain v target us
      → Chain v u (u ∷ us)

pub if_on : {A : Type 0} (b : Bool) (x y : A) → b ≡ true → (if b then x else y) ≡ x
if_on true x y e = refl
if_on false x y e = cc

module _ {F : Type 0} where
  abbrev pub globals : World F → List (SyncProfile F)
  globals w = map (λ n. n.global_profile) w.nodes

  -- What a unit keeps of a profile.
  pub record Agrees (p g : SyncProfile F) : Type 0 where
    pub same_fs : g.fs ≡ p.fs
    pub same_channels : g.channels ≡ p.channels
    pub same_period : g.period ≡ p.period
    pub same_state : g.state ≡ p.state
    pub same_bpm : g.bpm ≡ p.bpm
    pub same_fill : g.fill ≡ p.fill

  abbrev pub KeepsAt : SyncProfile F → World F → ℕ → Type 0
  KeepsAt p w x = (g : SyncProfile F) × (get_elem? (globals w) x ≡ some g) × Agrees p g

  abbrev pub AllKeep : SyncProfile F → World F → List ℕ → Type 0
  AllKeep p w [] = Unit {0}
  AllKeep p w (x ∷ xs) = KeepsAt p w x × AllKeep p w xs

  pub keep_global-Agrees : (p g : SyncProfile F) → Agrees p (keep_global p g)
  unfolding keep_global
  keep_global-Agrees p g = record {
    same_fs = refl;
    same_channels = refl;
    same_period = refl;
    same_state = refl;
    same_bpm = refl;
    same_fill = refl;
  }

  -- A unit takes a profile that agrees; what others have stays.
  set-KeepsAt :
      (p : SyncProfile F) (ns : List (Node F)) (u x : ℕ) (n' : Node F)
      → Agrees p n'.global_profile
      → (g : SyncProfile F) × (get_elem? (map (λ n. n.global_profile) ns) x ≡ some g) × Agrees p g
      → (g : SyncProfile F) × (get_elem? (map (λ n. n.global_profile) (set ns u n')) x ≡ some g)
        × Agrees p g
  set-KeepsAt p [] u x n' a k = k
  set-KeepsAt p (m ∷ ns) zero zero n' a k = (n'.global_profile, refl, a)
  set-KeepsAt p (m ∷ ns) zero (suc x) n' a k = k
  set-KeepsAt p (m ∷ ns) (suc u) zero n' a k = k
  set-KeepsAt p (m ∷ ns) (suc u) (suc x) n' a k = set-KeepsAt p ns u x n' a k

  pub set-at :
      (ns : List (Node F)) (u : ℕ) (n n' : Node F)
      → get_elem? ns u ≡ some n
      → get_elem? (map (λ n. n.global_profile) (set ns u n')) u ≡ some n'.global_profile
  set-at [] u n n' e = cc
  set-at (m ∷ ns) zero n n' e = refl
  set-at (m ∷ ns) (suc u) n n' e = set-at ns u n n' e

  pub put_node-AllKeep :
      (p : SyncProfile F) (w : World F) (u : ℕ) (n' : Node F) (xs : List ℕ)
      → Agrees p n'.global_profile
      → AllKeep p w xs
      → AllKeep p (put_node u n' w) xs
  put_node-AllKeep p w u n' [] a all = tt
  put_node-AllKeep p w u n' (x ∷ xs) a (k, all) =
      (set-KeepsAt p w.nodes u x n' a k, put_node-AllKeep p w u n' xs a all)

  pub globals-AllKeep :
      (p : SyncProfile F) (w w' : World F) (xs : List ℕ)
      → globals w' ≡ globals w
      → AllKeep p w xs
      → AllKeep p w' xs
  globals-AllKeep p w w' [] e all = tt
  globals-AllKeep p w w' (x ∷ xs) e ((g, at, a), all) =
      ((g, ap (λ gs. get_elem? gs x) e ∙ at, a), globals-AllKeep p w w' xs e all)

  -- A sync that ends with a profile that all these units keep.
  abbrev pub Shared : List Shape → List ℕ → Option (SyncProfile F × World F) → Type 0
  Shared v xs m =
      (p : SyncProfile F) × (w : World F) × (m ≡ some (p, w)) × (shapes w ≡ v) × AllKeep p w xs

  pub continue_sync-NoLink :
      (call : SyncCall F) (f : Flags) (os : List LinkOut) (p : SyncProfile F) (w : World F)
      → NoLink os
      → continue_sync call f os p w ≡ some (p, w)
  unfolding continue_sync
  continue_sync-NoLink call f [] p w off = refl
  continue_sync-NoLink call f (o ∷ os) p w (off, rest) =
      rw off (continue_sync-NoLink call f os p w rest)

  pub continue_sync-OneLink :
      (call : SyncCall F) (f : Flags) (target input : ℕ) (os : List LinkOut) (p : SyncProfile F)
      (w : World F)
      → OneLink target input os
      → (r : SyncProfile F × World F) → call target f input p w ≡ some r
      → continue_sync call f os p w ≡ some r
  unfolding continue_sync
  continue_sync-OneLink call f target input os p w (here o rest on to off) (p', w') runs =
      rw (on, to, runs) (continue_sync-NoLink call f rest p' w' off)
  continue_sync-OneLink call f target input os p w (later o rest off one) r runs =
      rw off (continue_sync-OneLink call f target input rest p w one r runs)
