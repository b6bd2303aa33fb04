-- ===== src/Component/Rack/Cache.antt =====
-- `rack::resync` (framework/component/rack.cpp) and the cache that it builds.
use strange_io.Common.{ℕ, ◌*◌, ◌<◌, ◌≡◌, Option, some, [], ◌∷◌, arith, lt→ltb, u32_mod}
use strange_io.Common.Int.{pos, sub_ℕ, ◌*ℤ◌}
use strange_io.Memory.Manager.{Manager, new_manager}
use native.Mathlib.Nat.{mod-eq_of_lt}
use strange_io.Memory.Manager.Segments.{free, mul-split}
use strange_io.Memory.Manager.State.{Renders}
use strange_io.Memory.Manager.Cycle.{build_cache-Renders}
use strange_io.Component.Profile.{FloatOps}
use strange_io.Component.Unit.{Hooks}
use strange_io.Component.Rack.{Rack, to_u32}
use strange_io.Component.Rack

sub_ℕ_left : (x y z : ℕ) → x ≡ z → y ≡ 0 → sub_ℕ x y ≡ pos z
sub_ℕ_left x y z e h = ground arith

pos_mul : (a b : ℕ) → pos a *ℤ pos b ≡ pos (a * b)
unfolding ◌*ℤ◌
pos_mul a b = sub_ℕ_left _ _ (a * b) (omega arith) (omega arith)

module _ {F : Type 0} (ops : FloatOps F) (hooks : Hooks F) (fuel base : ℕ) (times : ℕ × ℕ) where
  abbrev pub resync_at : Rack F → Option (Rack F)
  resync_at r = Rack.resync ops hooks fuel base times r

  -- The first resync of a rack with an unbuilt cache of `n` blocks makes it one free segment of
  -- blocks that hold two periods of all channels, and every later one leaves it alone. The global
  -- profile has a period and channels, and the whole cache is smaller than 2^32.
  pub resync-build_cache :
      (r : Rack F) (stray n period channels : ℕ)
      → r.cache ≡ some (new_manager stray n)
      → r.global_profile.period ≡ pos period
      → r.global_profile.channels ≡ pos channels
      → 0 < n
      → 0 < period * 2 * channels
      → 0 < base
      → n * (period * 2 * channels) < u32_mod
      → (m : Manager) × (resync_at r ≡ some (record r { cache = some m }))
        × Renders m (free n ∷ [])
        × (m.block_size ≡ period * 2 * channels)
        × (resync_at (record r { cache = some m }) ≡ some (record r { cache = some m }))
  unfolding Rack.resync new_manager
  resync-build_cache r stray n period channels unbuilt per chan hn hs hb fits =
      let size = period * 2 * channels in
      let (m, built, renders, sized) = build_cache-Renders stray n base size hn hs hb fits in
      let small : size < u32_mod = omega (arith, mul-split 1 n size hn, fits) in
      let asked : to_u32 (r.global_profile.period *ℤ pos 2 *ℤ r.global_profile.channels) ≡ size =
        rw (per, chan, pos_mul period 2, pos_mul (period * 2) channels) (mod-eq_of_lt small) in
      (m, rw unbuilt (rw (asked, built)), renders, sized, rw (lt→ltb 0 m.block_size (rw sized hs)))
