-- ===== src/Component/Sync/Acyclic.antt =====
-- `sync_line`, the virtual call, along lines without cycles.
use strange_io.Common.{ℕ, zero, suc, ◌<◌, ◌≡◌, ap, sym, true, some, List, arith, get_elem?}
use strange_io.Component.Profile.{
  UnitType, mainline, combine, dispatch, step, split, Flags, SyncProfile, FloatOps,
}
use strange_io.Component.Unit.{World, Hooks}
use strange_io.Component.Sync.{
  SyncCall, unit_sync, mainline_sync, combine_sync, dispatch_sync, sync_line,
}
use strange_io.Component.Sync.Total.{
  unit_sync-Ends, mainline_sync-Ends, combine_sync-Ends, dispatch_sync-Ends,
}
use strange_io.Component.Sync.Shape.{
  Shape, LinksOk, IsWired, shapes, Ends, KeepShape, Ends-node, CallEnds,
}

-- A unit that can take a sync at an input.
pub record Takes (t : Shape) (input : ℕ) : Type 0 where
  pub fits : t.utype ≡ combine → input < t.inputs
  pub racked : t.utype ≡ dispatch → t.has_rack ≡ true

module _ {F : Type 0} (ops : FloatOps F) (hooks : Hooks F) (keep : KeepShape hooks) where
  module _ (v : List Shape) (rank : ℕ → ℕ) (call : SyncCall F) (u : ℕ) (t : Shape)
      (ends : CallEnds v rank (rank u) call) (at_u : get_elem? v u ≡ some t)
      (links : LinksOk v rank (rank u) t.outputs) where
    -- The choice of the virtual call.
    chosen-Ends :
        (f : Flags) (line : ℕ) (p : SyncProfile F) (w : World F)
        → Takes t line
        → shapes w ≡ v
        → (ty : UnitType) → t.utype ≡ ty
        → Ends v (elim ty [
          | mainline ↦ mainline_sync ops hooks call u f p w
          | combine ↦ combine_sync ops hooks call u f line p w
          | dispatch ↦ dispatch_sync ops hooks call u f p w
          | step ↦ unit_sync ops hooks call u f p w
          | split ↦ unit_sync ops hooks call u f p w
        ])
    chosen-Ends f line p w takes same mainline e =
        mainline_sync-Ends ops hooks keep v rank call u t ends at_u links f p w same
    chosen-Ends f line p w takes same step e =
        unit_sync-Ends ops hooks keep v rank call u t ends at_u links f p w same
    chosen-Ends f line p w takes same combine e =
        combine_sync-Ends ops hooks keep v rank call u t ends at_u links f line p w (takes.fits e)
          same
    chosen-Ends f line p w takes same split e =
        unit_sync-Ends ops hooks keep v rank call u t ends at_u links f p w same
    chosen-Ends f line p w takes same dispatch e =
        dispatch_sync-Ends ops hooks keep v rank call u t ends at_u links f p w (takes.racked e)
          same

  -- Along lines without cycles a sync ends, whatever its flags, if there is more fuel than the rank
  -- of its first unit, every link leads to a unit that can take a sync, and the hooks leave the
  -- wiring alone; it leaves the wiring alone too.
  pub sync_line-Ends :
      (v : List Shape) (rank : ℕ → ℕ) (wired : IsWired v rank) (fuel u line : ℕ) (t : Shape)
      (f : Flags) (p : SyncProfile F) (w : World F)
      → get_elem? v u ≡ some t
      → Takes t line
      → shapes w ≡ v
      → rank u < fuel
      → Ends v (sync_line ops hooks fuel u f line p w)
  unfolding sync_line
  sync_line-Ends v rank wired zero u line t f p w at_u takes same enough = elim enough [ ]
  sync_line-Ends v rank wired (suc fuel) u line t f p w at_u takes same enough =
      Ends-node u w t _ same at_u (λ n found saw.
        chosen-Ends v rank (sync_line ops hooks fuel) u t
          (λ o ok f' p' w' same'.
            sync_line-Ends v rank wired fuel ok.target ok.input ok.shape f' p' w' ok.at_target
              (record { fits = ok.fits; racked = ok.racked }) same'
              (omega (arith, ok.lower, enough)))
          at_u (wired u t at_u) f line p w takes same n.utype (sym (ap (λ s. s.utype) saw)))
