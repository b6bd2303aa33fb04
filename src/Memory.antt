-- ===== src/Memory.antt =====
-- framework/memory: the block allocator behind all samples, and the owning pointers that units
-- pass down the line.
pub mod Manager
pub mod CachePtr
pub mod Samples
