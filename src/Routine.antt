-- ===== src/Routine.antt =====
-- framework/routine: helpers for sample buffers.
pub mod Sound
