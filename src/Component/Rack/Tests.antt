-- ===== src/Component/Rack/Tests.antt =====
-- A rack with an unbuilt cache of four blocks and a period of 8 frames on two channels.
use strange_io.Common.{◌≡◌, refl, false, some, [], ◌∷◌, arith}
use strange_io.Common.Int.{ℤ, pos}
use strange_io.Memory.Manager.{Manager, new_manager}
use strange_io.Memory.Manager.Segments.{free}
use strange_io.Memory.Manager.State.{Renders}
use strange_io.Component.Fixtures.{ints, quiet, delayed}
use strange_io.Component.Mount.{new_mount}
use strange_io.Component.Profile.{no_flags}
use strange_io.Component.Rack.{Rack}
use strange_io.Component.Rack.Cache.{resync_at, resync-build_cache}

abbrev stereo : Rack ℤ
stereo = record {
  mount = new_mount;
  world = record { nodes = []; resync = false; resync_flags = no_flags; cycle_queue = 0 };
  global_profile = record (delayed 0) { period = pos 8; channels = pos 2 };
  sync_duration = 0;
  cache = some (new_manager 7 4);
}

resync-build_cache_example :
    (m : Manager) × (resync_at ints quiet 4 100 (0, 0) stereo
      ≡ some (record stereo { cache = some m }))
    × Renders m (free 4 ∷ [])
    × (m.block_size ≡ 32)
    × (resync_at ints quiet 4 100 (0, 0) (record stereo { cache = some m })
        ≡ some (record stereo { cache = some m }))
resync-build_cache_example =
    resync-build_cache ints quiet 4 100 (0, 0) stereo 7 4 8 2 refl refl refl (omega arith)
      (omega arith) (omega arith) (omega arith)
