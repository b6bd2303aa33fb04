-- ===== src/Component/Sync/FourUnits.antt =====
-- A line of four units for tests of framework/component/unit.cpp: one feeds a split, which feeds two
-- others.
use strange_io.Common.{
  ℕ, zero, suc, ◌-◌, ◌<◌, ◌≡◌, refl, ◌≢◌, false, Option, none, some, List, [], ◌∷◌, arith,
  get_elem?, subst,
}
use strange_io.Common.Int.{ℤ}
use strange_io.Component.Profile.{mainline, step, split, combine, dispatch, no_flags}
use strange_io.Component.Unit.{World}
use strange_io.Component.Fixtures.{out_to, unit_of}
use strange_io.Component.Sync.Shape.{Shape, LinkOk, LinksOk, link, no_links, IsWired, shapes}

abbrev pub line_of_four : World ℤ
line_of_four = record {
  nodes =
      unit_of mainline (out_to 1 ∷ []) 5
      ∷ unit_of split (out_to 2 ∷ out_to 3 ∷ []) 1
      ∷ unit_of step [] 20
      ∷ unit_of step [] 30
      ∷ [];
  resync = false;
  resync_flags = no_flags;
  cycle_queue = 0;
}

pub split_not_dispatch : split ≢ dispatch
split_not_dispatch e = cc

pub step_not_dispatch : step ≢ dispatch
step_not_dispatch e = cc

-- Units later on the line have lower rank.
abbrev pub rank : ℕ → ℕ
rank u = 3 - u

abbrev link_to :
    (u : ℕ) (t : Shape) {r : ℕ}
    → get_elem? (shapes line_of_four) u ≡ some t
    → t.utype ≢ combine
    → t.utype ≢ dispatch
    → rank u < r
    → LinkOk (shapes line_of_four) rank r (out_to u)
link_to u t at_u not_combine not_dispatch lower = record {
  target = u;
  input = 0;
  shape = t;
  to = refl;
  at_target = at_u;
  lower = lower;
  fits = λ e. absurd (not_combine e);
  racked = λ e. absurd (not_dispatch e);
}

abbrev get_or_shape : Option Shape → Shape → Shape
get_or_shape none a = a
get_or_shape (some x) a = x

links_at :
    {v : List Shape} {r : ℕ} (a t : Shape)
    → some a ≡ some t
    → LinksOk v rank r a.outputs
    → LinksOk v rank r t.outputs
links_at {v} {r} a t e ok = subst (λ o. LinksOk v rank r (get_or_shape o a).outputs) e ok

pub line_of_four-IsWired : IsWired (shapes line_of_four) rank
line_of_four-IsWired zero t e =
    links_at _ t e
      (link (λ on. link_to 1 _ refl (λ c. cc) split_not_dispatch (omega arith)) no_links)
line_of_four-IsWired (suc zero) t e = links_at _ t e (
    link (λ on. link_to 2 _ refl (λ c. cc) step_not_dispatch (omega arith))
      (link (λ on. link_to 3 _ refl (λ c. cc) step_not_dispatch (omega arith)) no_links))
line_of_four-IsWired (suc (suc zero)) t e = links_at _ t e no_links
line_of_four-IsWired (suc (suc (suc zero))) t e = links_at _ t e no_links
line_of_four-IsWired (suc (suc (suc (suc u)))) t e = cc
