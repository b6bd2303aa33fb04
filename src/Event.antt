-- ===== src/Event.antt =====
-- framework/events: listeners, and the loop that hands events out.
pub mod Listeners
pub mod Loop
