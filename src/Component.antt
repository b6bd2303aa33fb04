-- ===== src/Component.antt =====
-- framework/component: units, the links between them, and the rack that drives them.
pub mod Registrable
pub mod LineState
pub mod Profile
pub mod Linkable
pub mod Unit
pub mod Sync
pub mod Cycle
pub mod Mount
pub mod Rack
pub mod Fixtures
pub mod Exports
pub mod Loader
