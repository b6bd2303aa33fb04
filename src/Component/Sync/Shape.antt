-- ===== src/Component/Sync/Shape.antt =====
-- The wiring of the units, and lines without cycles: a rank of the units that falls along every
-- link.
use strange_io.Common.{
  ℕ, zero, suc, ◌<◌, ◌≡◌, refl, ap, Bool, true, false, not, Option, some, List, [], ◌∷◌, map, arith,
  get_elem?, set, length, ◌>>=◌, ◌>>◌, require, if◌then◌else◌,
}
use strange_io.Component.Linkable.{LinkOut}
use strange_io.Component.Profile.{UnitType, combine, dispatch, Flags, SyncProfile}
use strange_io.Component.Unit.{Node, World, Hooks, node_at, put_node}
use strange_io.Component.Sync.{SyncCall, continue_sync}

pub record Shape : Type 0 where
  pub utype : UnitType
  pub outputs : List LinkOut
  pub inputs : ℕ
  pub has_rack : Bool

-- A link to a unit of lower rank that can take what comes: a combine unit has a state for the
-- input, and a dispatch unit has its rack.
pub record LinkOk (v : List Shape) (rank : ℕ → ℕ) (r : ℕ) (o : LinkOut) : Type 0 where
  pub target : ℕ
  pub input : ℕ
  pub shape : Shape
  pub to : o.to ≡ some (target, input)
  pub at_target : get_elem? v target ≡ some shape
  pub lower : rank target < r
  pub fits : shape.utype ≡ combine → input < shape.inputs
  pub racked : shape.utype ≡ dispatch → shape.has_rack ≡ true

pub data LinksOk (v : List Shape) (rank : ℕ → ℕ) (r : ℕ) : List LinkOut → Type 0 where
  no_links : LinksOk v rank r []
  link :
      {o : LinkOut} {os : List LinkOut}
      → (o.connected ≡ true → LinkOk v rank r o)
      → LinksOk v rank r os
      → LinksOk v rank r (o ∷ os)

abbrev pub IsWired : List Shape → (ℕ → ℕ) → Type 0
IsWired v rank = (u : ℕ) (t : Shape) → get_elem? v u ≡ some t → LinksOk v rank (rank u) t.outputs

module _ {F : Type 0} where
  abbrev pub shape_of : Node F → Shape
  shape_of n = record {
    utype = n.utype;
    outputs = n.ports.outputs;
    inputs = length n.input_state;
    has_rack = n.has_rack;
  }

  abbrev pub shapes : World F → List Shape
  shapes w = map shape_of w.nodes

  -- A step that gives a result and leaves the wiring alone.
  abbrev pub Ends : List Shape → Option (SyncProfile F × World F) → Type 0
  Ends v m = (r : SyncProfile F × World F) × (m ≡ some r) × (shapes r.1 ≡ v)

  abbrev pub KeepShape : Hooks F → Type 0
  KeepShape hooks =
      (u : ℕ) (f : Flags) (p : SyncProfile F) (w : World F)
      → shapes (hooks.resync u f p w) ≡ shapes w

  pub Ends-bind :
      {v : List Shape} (m : Option (SyncProfile F × World F))
      (f : SyncProfile F × World F → Option (SyncProfile F × World F))
      → Ends v m
      → ((p : SyncProfile F) (w : World F) → shapes w ≡ v → Ends v (f (p, w)))
      → Ends v (m >>= f)
  Ends-bind m f ((p, w), run, same) k = rw run (k p w same)

  pub Ends-if :
      {v : List Shape} (b : Bool) (x y : Option (SyncProfile F × World F))
      → (b ≡ true → Ends v x)
      → (b ≡ false → Ends v y)
      → Ends v (if b then x else y)
  Ends-if true x y h k = h refl
  Ends-if false x y h k = k refl

  pub Ends-require :
      {v : List Shape} (b : Bool) (m : Option (SyncProfile F × World F))
      → b ≡ true
      → Ends v m
      → Ends v (require b >> m)
  Ends-require b m e h = rw e h

  map-at :
      (ns : List (Node F)) (u : ℕ) (t : Shape)
      → get_elem? (map shape_of ns) u ≡ some t
      → (n : Node F) × (get_elem? ns u ≡ some n) × (shape_of n ≡ t)
  map-at [] u t e = cc
  map-at (n ∷ ns) zero t e = (n, refl, cc)
  map-at (n ∷ ns) (suc u) t e = map-at ns u t e

  pub Ends-node :
      {v : List Shape} (u : ℕ) (w : World F) (t : Shape)
      (f : Node F → Option (SyncProfile F × World F))
      → shapes w ≡ v
      → get_elem? v u ≡ some t
      → ((n : Node F) → node_at u w ≡ some n → shape_of n ≡ t → Ends v (f n))
      → Ends v (node_at u w >>= f)
  Ends-node u w t f same at_u k =
      let (n, found, saw) = map-at w.nodes u t (rw same at_u) in rw found (k n found saw)

  map-set :
      (ns : List (Node F)) (u : ℕ) (n n' : Node F)
      → get_elem? ns u ≡ some n
      → shape_of n' ≡ shape_of n
      → map shape_of (set ns u n') ≡ map shape_of ns
  map-set [] u n n' e s = refl
  map-set (m ∷ ns) zero n n' e s = cc
  map-set (m ∷ ns) (suc u) n n' e s = ap (◌∷◌ (shape_of m)) (map-set ns u n n' e s)

  pub shapes-put_node :
      (u : ℕ) (w : World F) (n n' : Node F)
      → node_at u w ≡ some n
      → shape_of n' ≡ shape_of n
      → shapes (put_node u n' w) ≡ shapes w
  shapes-put_node u w n n' found s = map-set w.nodes u n n' found s

  -- A call that ends at every target of a link.
  abbrev pub CallEnds : List Shape → (ℕ → ℕ) → ℕ → SyncCall F → Type 0
  CallEnds v rank r call =
      (o : LinkOut) (ok : LinkOk v rank r o) (f : Flags) (p : SyncProfile F) (w : World F)
      → shapes w ≡ v
      → Ends v (call ok.target f ok.input p w)

  pub continue_sync-Ends :
      (v : List Shape) (rank : ℕ → ℕ) (r : ℕ) (call : SyncCall F) (f : Flags) (os : List LinkOut)
      (p : SyncProfile F) (w : World F)
      → CallEnds v rank r call
      → LinksOk v rank r os
      → shapes w ≡ v
      → Ends v (continue_sync call f os p w)
  unfolding continue_sync
  continue_sync-Ends v rank r call f [] p w ends ok same = ((p, w), refl, same)
  continue_sync-Ends v rank r call f (o ∷ os) p w ends (link ok rest) same =
      Ends-bind _ _
        (Ends-if (not o.connected) _ _ (λ e. ((p, w), refl, same))
          (λ e. let here = ok (connected_of o e) in rw here.to (ends o here f p w same)))
        (λ p' w' same'. continue_sync-Ends v rank r call f os p' w' ends rest same')
    where
      connected_of : (o : LinkOut) → not o.connected ≡ false → o.connected ≡ true
      connected_of o e = ground arith
