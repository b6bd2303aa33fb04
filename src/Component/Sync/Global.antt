-- ===== src/Component/Sync/Global.antt =====
-- A global sync along a line that does not split: `unit::sync_line` of
-- framework/component/unit.cpp with the flag for a global sync.
use strange_io.Common.{
  ℕ, zero, suc, ◌<◌, ◌≡◌, refl, sym, ap, ◌∙◌, subst, true, false, not, some, List, [], ◌∷◌, arith,
  get_elem?, length,
}
use strange_io.Component.Profile.{
  FloatOps, UnitType, mainline, combine, dispatch, step, split, Flags, SyncProfile,
  apply_unit_profile,
}
use strange_io.Component.Unit.{Node, World, Hooks, put_node}
use strange_io.Component.Sync.{
  SyncCall, continue_sync, keep_global, revive, unit_glob_sync, unit_sync, mainline_sync,
  combine_sync, dispatch_sync, sync_line,
}
use strange_io.Component.Sync.Shape.{Shape, KeepShape, shapes, shapes-put_node}
use strange_io.Component.Cycle.Initial.{node_of}
use strange_io.Component.Sync.Chain.{
  if_on, Chain, last, next, IsPlain, globals, Shared, keep_global-Agrees, set-at, put_node-AllKeep,
  globals-AllKeep, continue_sync-NoLink, continue_sync-OneLink,
}

module _ {F : Type 0} where
  module _ (ops : FloatOps F) (hooks : Hooks F) (keep : KeepShape hooks)
      (keep_globals : (u : ℕ) (f : Flags) (p : SyncProfile F) (w : World F)
        → globals (hooks.resync u f p w) ≡ globals w)
      (v : List Shape) (f : Flags) where
    -- One unit, whose outputs have been synced.
    unit_glob_sync-Shared :
        (call : SyncCall F) (u : ℕ) (t : Shape) (p : SyncProfile F) (w : World F) (xs : List ℕ)
        → get_elem? v u ≡ some t
        → shapes w ≡ v
        → ((q : SyncProfile F) → Shared v xs (continue_sync call f t.outputs q w))
        → Shared v (u ∷ xs) (unit_glob_sync ops hooks call u f p w)
    unfolding unit_glob_sync
    unit_glob_sync-Shared call u t p w xs at_u same below =
        let (n, found, saw) = node_of w.nodes u t (rw same at_u) in
        let start : SyncProfile F = revive (apply_unit_profile ops n.unit_profile p) in
        let (q, w₁, runs, shaped, all) =
          subst (λ os. Shared v xs (continue_sync call f os start w))
            (ap (λ s. s.outputs) (sym saw)) (below start) in
        let (n', found', saw') = node_of w₁.nodes u t (rw shaped at_u) in
        let kept : Node F = record n' { global_profile = keep_global q n'.global_profile } in
        let w₂ : World F = put_node u kept w₁ in
        (
          q,
          hooks.resync u f q w₂,
          rw (found, runs, found'),
          keep u f q w₂ ∙ (shapes-put_node u w₁ n' kept found' refl ∙ shaped),
          globals-AllKeep q w₂ (hooks.resync u f q w₂) (u ∷ xs) (keep_globals u f q w₂) (
            (
              keep_global q n'.global_profile,
              set-at w₁.nodes u n' kept found',
              keep_global-Agrees q n'.global_profile,
            ),
            put_node-AllKeep q w₁ u kept xs (keep_global-Agrees q n'.global_profile) all,
          ),
        )

    module _ (global_on : f.glob_sync ≡ true) (upstream_off : f.upstream ≡ false) where
      unit_sync-global :
          (call : SyncCall F) (u : ℕ) (p : SyncProfile F) (w : World F)
          → unit_sync ops hooks call u f p w ≡ unit_glob_sync ops hooks call u f p w
      unfolding unit_sync
      unit_sync-global call u p w = if_on f.glob_sync _ _ global_on

      mainline_sync-global :
          (call : SyncCall F) (u : ℕ) (p : SyncProfile F) (w : World F)
          → mainline_sync ops hooks call u f p w ≡ unit_glob_sync ops hooks call u f p w
      unfolding mainline_sync
      mainline_sync-global call u p w =
          if_on (not f.upstream) _ _ (ap not upstream_off) ∙ unit_sync-global call u p w

      -- The virtual call at a plain unit.
      plain-Shared :
          (call : SyncCall F) (u line : ℕ) (p : SyncProfile F) (w : World F) (xs : List ℕ)
          (ty : UnitType)
          → IsPlain ty
          → Shared v xs (unit_glob_sync ops hooks call u f p w)
          → Shared v xs (elim ty [
            | mainline ↦ mainline_sync ops hooks call u f p w
            | combine ↦ combine_sync ops hooks call u f line p w
            | dispatch ↦ dispatch_sync ops hooks call u f p w
            | step ↦ unit_sync ops hooks call u f p w
            | split ↦ unit_sync ops hooks call u f p w
          ])
      plain-Shared call u line p w xs mainline plain s = rw (mainline_sync-global call u p w) s
      plain-Shared call u line p w xs step plain s = rw (unit_sync-global call u p w) s
      plain-Shared call u line p w xs split plain s = rw (unit_sync-global call u p w) s
      plain-Shared call u line p w xs combine plain s = elim plain [ ]
      plain-Shared call u line p w xs dispatch plain s = elim plain [ ]

      at_unit :
          (fuel u line : ℕ) (t : Shape) (p : SyncProfile F) (w : World F) (xs : List ℕ)
          → get_elem? v u ≡ some t
          → IsPlain t.utype
          → shapes w ≡ v
          → Shared v xs (unit_glob_sync ops hooks (sync_line ops hooks fuel) u f p w)
          → Shared v xs (sync_line ops hooks (suc fuel) u f line p w)
      unfolding sync_line
      at_unit fuel u line t p w xs at_u plain same s =
          let (n, found, saw) = node_of w.nodes u t (rw same at_u) in
          rw found (
            plain-Shared (sync_line ops hooks fuel) u line p w xs n.utype
              (subst IsPlain (ap (λ s. s.utype) (sym saw)) plain) s)

      -- After a global sync of a line that does not split all its units keep the same rate,
      -- channels, period, state, tempo and fill, which are those of the profile that the sync gives
      -- back, where the line has no combine or dispatch unit, the hooks leave wiring and kept
      -- profiles alone, and there is as much fuel as there are units.
      pub sync_line-AllKeep :
          (us : List ℕ) (u line fuel : ℕ) (p : SyncProfile F) (w : World F)
          → Chain v u us
          → shapes w ≡ v
          → length us < suc fuel
          → Shared v us (sync_line ops hooks fuel u f line p w)
      sync_line-AllKeep us u line zero p w (last u' t at_u plain off) same enough =
          absurd (omega (arith, enough))
      sync_line-AllKeep us u line (suc fuel) p w (last u' t at_u plain off) same enough =
          at_unit fuel u' line t p w (u' ∷ []) at_u plain same (
            unit_glob_sync-Shared (sync_line ops hooks fuel) u' t p w [] at_u same (λ q. (
              q,
              w,
              continue_sync-NoLink (sync_line ops hooks fuel) f t.outputs q w off,
              same,
              tt,
            )))
      sync_line-AllKeep us u line zero p w (next u' t target input rest at_u plain one chain) same
            enough =
          absurd (omega (arith, enough))
      sync_line-AllKeep us u line (suc fuel) p w (next u' t target input rest at_u plain one chain)
            same enough =
          at_unit fuel u' line t p w (u' ∷ rest) at_u plain same (
            unit_glob_sync-Shared (sync_line ops hooks fuel) u' t p w rest at_u same (λ q.
              let (q', w', runs, shaped, all) =
                sync_line-AllKeep rest target input fuel q w chain same (omega (arith, enough)) in
              (
                q',
                w',
                continue_sync-OneLink (sync_line ops hooks fuel) f target input t.outputs q w one
                    (q', w') runs,
                shaped,
                all,
              )))
