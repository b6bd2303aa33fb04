-- ===== src/Buffer.antt =====
-- The buffers of framework/buffer and framework/staging/buffer: the circular buffer that streams pass
-- through, the delay line, and the buffer of periods.
pub mod Circular
pub mod Delay
pub mod Normalised
