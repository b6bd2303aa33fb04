-- ===== src/Midi.antt =====
-- framework/midi: controllers, what their messages are bound to, and the LEDs that units set.
pub mod Device
pub mod Handler
